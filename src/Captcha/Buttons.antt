-- ===== src/Captcha/Buttons.antt =====
-- The two buttons undo each other.
use mathlib.Core.Path.{subst}
use sophie.Prelude.{
  ℕ, ◌-◌, List, [], ◌∷◌, ◌++◌, length, take, drop, ◌≡◌, refl, sym, ◌∙◌, ap, arith, length-append,
}
use sophie.Captcha.{
  EmojiCaptchaData, turned_right, turned_left, with_front, move_to_right, move_to_left,
}

drop-length : (xs : List ℕ) (x : ℕ) → drop (length xs) (xs ++ x ∷ []) ≡ x ∷ []
drop-length [] x = refl
drop-length (y ∷ xs) x = drop-length xs x

take-length : (xs : List ℕ) (x : ℕ) → take (length xs) (xs ++ x ∷ []) ≡ xs
take-length [] x = refl
take-length (y ∷ xs) x = ap (λ ys. y ∷ ys) (take-length xs x)

right_snoc : (xs : List ℕ) (x : ℕ) → turned_right (xs ++ x ∷ []) ≡ x ∷ xs
right_snoc xs x =
    let n : length (xs ++ x ∷ []) - 1 ≡ length xs = ground (arith, length-append xs (x ∷ [])) in
    ap (λ k. drop k (xs ++ x ∷ []) ++ take k (xs ++ x ∷ [])) n
    ∙ ap (λ ys. ys ++ take (length xs) (xs ++ x ∷ [])) (drop-length xs x)
    ∙ ap (λ ys. x ∷ ys) (take-length xs x)

right-left : (row : List ℕ) → turned_right (turned_left row) ≡ row
right-left [] = refl
right-left (x ∷ xs) = right_snoc xs x

-- the last item of a list, and those before it
snoc : (x : ℕ) (xs : List ℕ) → (ys : List ℕ) × (y : ℕ) × (x ∷ xs ≡ ys ++ y ∷ [])
snoc x [] = ([], x, refl)
snoc x (x' ∷ xs) = let rest = snoc x' xs in (x ∷ rest.0, rest.1, ap (λ ys. x ∷ ys) rest.2)

left-right : (row : List ℕ) → turned_left (turned_right row) ≡ row
left-right [] = refl
left-right (x ∷ xs) =
    let s = snoc x xs in
    subst (λ row. turned_left (turned_right row) ≡ row) (sym s.2)
      (ap turned_left (right_snoc s.0 s.1))

-- Each button undoes the other, whatever the rows.
pub move_to_right-move_to_left :
    (c : EmojiCaptchaData)
    → (move_to_right (move_to_left c) ≡ c) × (move_to_left (move_to_right c) ≡ c)
unfolding move_to_right move_to_left
move_to_right-move_to_left c = (
  ap (λ row. with_front row c) (right-left c.front_row),
  ap (λ row. with_front row c) (left-right c.front_row),
)
