-- ===== src/Prelude/Search.antt =====
-- The first item that passes a test, and how many do, after an item is added, rewritten or
-- removed. `p` is the test of the operation and `q` the test of the observer.
use sophie.Prelude.{
  suc, ◌+◌, ◌≤◌, Bool, true, false, Option, none, some, List, [], ◌∷◌, ◌++◌, ◌≡◌, refl, find, count,
  any, update_first, remove_first, keep, is_some, arith, Bool-cases, inl, inr,
}

-- `find` in a first list, then in a second one
abbrev pub or_else {ℓ} : {A : Type ℓ} → Option A → Option A → Option A
or_else none y = y
or_else (some x) y = some x

module _ {ℓ} {A : Type ℓ} (q : A → Bool) where
  pub find-append : (xs ys : List A) → find q (xs ++ ys) ≡ or_else (find q xs) (find q ys)
  find-append [] ys = refl
  find-append (x ∷ xs) ys = ground (arith, find-append xs ys)

  pub count-append : (xs ys : List A) → count q (xs ++ ys) ≡ count q xs + count q ys
  count-append [] ys = omega arith
  count-append (x ∷ xs) ys = ground (arith, count-append xs ys)

  pub find-none-count : (xs : List A) → find q xs ≡ none → count q xs ≡ 0
  find-none-count [] h = refl
  find-none-count (x ∷ xs) h = ground (arith, find-none-count xs)

  pub count_zero-find : (xs : List A) → count q xs ≡ 0 → find q xs ≡ none
  count_zero-find [] h = refl
  count_zero-find (x ∷ xs) h = ground (arith, count_zero-find xs)

  pub find-passes : (xs : List A) (x : A) → find q xs ≡ some x → q x ≡ true
  find-passes [] x h = cc
  find-passes (y ∷ xs) x h = elim (Bool-cases (q y)) [
    | inl e ↦ let e' : y ≡ x = ground arith in rw (← e') e
    | inr e ↦ find-passes xs x (ground arith)
  ]

  pub is_some-find : (xs : List A) → is_some (find q xs) ≡ any q xs
  is_some-find [] = refl
  is_some-find (x ∷ xs) = ground (arith, is_some-find xs)

  pub count-keep_le : (p : A → Bool) (xs : List A) → count q (keep p xs) ≤ count q xs
  count-keep_le p [] = omega arith
  count-keep_le p (x ∷ xs) = ground (arith, count-keep_le p xs)

  module _ (p : A → Bool) (f : A → A) (same : (x : A) → q (f x) ≡ q x) where
    pub count-update_first : (xs : List A) → count q (update_first p f xs) ≡ count q xs
    count-update_first [] = refl
    count-update_first (x ∷ xs) = ground (arith, same x, count-update_first xs)

    pub find-update_first_other :
        ((x : A) → p x ≡ true → q x ≡ false)
        → (xs : List A) → find q (update_first p f xs) ≡ find q xs
    find-update_first_other apart [] = refl
    find-update_first_other apart (x ∷ xs) =
        ground (arith, same x, apart x, find-update_first_other apart xs)

  pub find-update_first_self :
      (f : A → A)
      → ((x : A) → q (f x) ≡ q x)
      → (xs : List A) (x : A) → find q xs ≡ some x
      → find q (update_first q f xs) ≡ some (f x)
  find-update_first_self f same [] x h = cc
  find-update_first_self f same (y ∷ xs) x h =
      ground (arith, same y, find-update_first_self f same xs x)

  module _ (p : A → Bool) where
    pub find-remove_first_other :
        ((x : A) → p x ≡ true → q x ≡ false)
        → (xs : List A) → find q (remove_first p xs) ≡ find q xs
    find-remove_first_other apart [] = refl
    find-remove_first_other apart (x ∷ xs) =
        ground (arith, apart x, find-remove_first_other apart xs)

    pub count-remove_first_other :
        ((x : A) → p x ≡ true → q x ≡ false)
        → (xs : List A) → count q (remove_first p xs) ≡ count q xs
    count-remove_first_other apart [] = refl
    count-remove_first_other apart (x ∷ xs) =
        ground (arith, apart x, count-remove_first_other apart xs)

    pub count-remove_first :
        ((x : A) → p x ≡ true → q x ≡ true)
        → (xs : List A) (x : A) → find p xs ≡ some x
        → suc (count q (remove_first p xs)) ≡ count q xs
    count-remove_first within [] x h = cc
    count-remove_first within (y ∷ xs) x h =
        ground (arith, within y, count-remove_first within xs x)

    pub count-remove_first_le : (xs : List A) → count q (remove_first p xs) ≤ count q xs
    count-remove_first_le [] = omega arith
    count-remove_first_le (x ∷ xs) = ground (arith, count-remove_first_le xs)

pub any_mono {ℓ} :
    {A : Type ℓ} (p q : A → Bool)
    → ((x : A) → p x ≡ true → q x ≡ true)
    → (xs : List A) → any p xs ≡ true
    → any q xs ≡ true
any_mono p q within [] h = h
any_mono p q within (x ∷ xs) h = ground (arith, within x, any_mono p q within xs)

pub find-any {ℓ} :
    {A : Type ℓ} (p q : A → Bool) (xs : List A) (x : A)
    → find p xs ≡ some x
    → q x ≡ true
    → any q xs ≡ true
find-any p q [] x h e = cc
find-any p q (y ∷ xs) x h e = elim (Bool-cases (p y)) [
  | inl t ↦ let same : y ≡ x = ground arith in rw (same, e)
  | inr t ↦ ground (arith, find-any p q xs x)
]

pub any-ext {ℓ} :
    {A : Type ℓ} (p q : A → Bool) → ((x : A) → p x ≡ q x) → (xs : List A) → any p xs ≡ any q xs
any-ext p q same [] = refl
any-ext p q same (x ∷ xs) = ground (arith, same x, any-ext p q same xs)

-- A replacement that passes the test is found in place of what was found.
pub find-replace_first {ℓ} :
    {A : Type ℓ} (p : A → Bool) (y : A) (xs : List A) (x : A)
    → p y ≡ true
    → find p xs ≡ some x
    → find p (update_first p (λ _. y) xs) ≡ some y
find-replace_first p y [] x e h = cc
find-replace_first p y (z ∷ xs) x e h = ground (arith, e, find-replace_first p y xs x e)
