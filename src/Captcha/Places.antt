-- ===== src/Captcha/Places.antt =====
-- Where the emoji stands in a row, and where the left button moves it.
use mathlib.Core.Path.{subst}
use sophie.Prelude.{
  ℕ, zero, suc, ◌+◌, ◌-◌, true, false, some, List, [], ◌∷◌, ◌++◌, ◌==◌, ltb, length, elem, ◌≡◌,
  refl, sym, ◌∙◌, ap, arith, Bool-cases, inl, inr, ==_refl, elem-append, length-append,
}
use sophie.Captcha.{
  EmojiCaptchaData, turned_left, with_front, move_to_left, index, is_correct, set_item,
}

-- A row with the emoji in one place only: a sample without it, where it is put in.
pub record IsPlaced (n base i : ℕ) (row : List ℕ) : Type 0 where
  pub sample : List ℕ
  pub has_length : length sample ≡ n
  pub is_free : elem base sample ≡ false
  pub is_inside : ltb i n ≡ true
  pub is_row : row ≡ set_item i base sample

index-set_item :
    (base i : ℕ) (sample : List ℕ)
    → elem base sample ≡ false
    → ltb i (length sample) ≡ true
    → index base (set_item i base sample) ≡ some i
index-set_item base i [] free inside = absurd (ground arith)
index-set_item base zero (x ∷ xs) free inside = rw (==_refl base) refl
index-set_item base (suc i) (x ∷ xs) free inside =
    let other : (x == base) ≡ false = ground arith in
    rw (other, index-set_item base i xs (ground arith) (ground arith)) refl

set_item-append :
    (base i x : ℕ) (xs : List ℕ)
    → ltb i (length xs) ≡ true
    → set_item i base xs ++ x ∷ [] ≡ set_item i base (xs ++ x ∷ [])
set_item-append base i x [] h = absurd (ground arith)
set_item-append base zero x (y ∷ ys) h = refl
set_item-append base (suc i) x (y ∷ ys) h =
    ap (λ zs. y ∷ zs) (set_item-append base i x ys (ground arith))

set_item_last :
    (base x : ℕ) (xs : List ℕ) → xs ++ base ∷ [] ≡ set_item (length xs) base (xs ++ x ∷ [])
set_item_last base x [] = refl
set_item_last base x (y ∷ ys) = ap (λ zs. y ∷ zs) (set_item_last base x ys)

free_left :
    (base x : ℕ) (xs : List ℕ) → elem base (x ∷ xs) ≡ false → elem base (xs ++ x ∷ []) ≡ false
free_left base x xs h = ground (arith, elem-append base xs (x ∷ []))

-- A button moves the emoji one place to the left, and from the first place to the last.
left_step :
    (n base i : ℕ) (row : List ℕ)
    → IsPlaced n base (suc i) row
    → IsPlaced n base i (turned_left row)
left_step n base i row placed = go placed.sample placed.has_length placed.is_free placed.is_row
  where
    go :
        (sample : List ℕ)
        → length sample ≡ n
        → elem base sample ≡ false
        → row ≡ set_item (suc i) base sample
        → IsPlaced n base i (turned_left row)
    go [] len free e = absurd (ground (arith, placed.is_inside))
    go (x ∷ xs) len free e = record {
      sample = xs ++ x ∷ [];
      has_length = ground (arith, length-append xs (x ∷ []));
      is_free = free_left base x xs free;
      is_inside = ground (arith, placed.is_inside);
      is_row = ap turned_left e ∙ set_item-append base i x xs (ground (arith, placed.is_inside));
    }

left_wrap :
    (n base : ℕ) (row : List ℕ)
    → IsPlaced (suc n) base 0 row
    → IsPlaced (suc n) base n (turned_left row)
left_wrap n base row placed = go placed.sample placed.has_length placed.is_free placed.is_row
  where
    go :
        (sample : List ℕ)
        → length sample ≡ suc n
        → elem base sample ≡ false
        → row ≡ set_item 0 base sample
        → IsPlaced (suc n) base n (turned_left row)
    go [] len free e = absurd (ground arith)
    go (x ∷ xs) len free e = record {
      sample = xs ++ x ∷ [];
      has_length = ground (arith, length-append xs (x ∷ []));
      is_free = free_left base x xs free;
      is_inside = ground arith;
      is_row =
          ap turned_left e
          ∙ set_item_last base x xs
          ∙ ap (λ k. set_item k base (xs ++ x ∷ [])) (ground arith);
    }

abbrev pub lefts_row : ℕ → List ℕ → List ℕ
lefts_row zero row = row
lefts_row (suc k) row = lefts_row k (turned_left row)

lefts_row_add : (a b : ℕ) (row : List ℕ) → lefts_row b (lefts_row a row) ≡ lefts_row (a + b) row
lefts_row_add zero b row = let same : b ≡ 0 + b = omega arith in ap (λ k. lefts_row k row) same
lefts_row_add (suc a) b row =
    let same : suc (a + b) ≡ suc a + b = omega arith in
    lefts_row_add a b (turned_left row) ∙ ap (λ k. lefts_row k row) same

lefts_down :
    (n base i k : ℕ) (row : List ℕ)
    → IsPlaced n base (k + i) row
    → IsPlaced n base i (lefts_row k row)
lefts_down n base i zero row placed = subst (λ x. IsPlaced n base x row) (omega arith) placed
lefts_down n base i (suc k) row placed =
    lefts_down n base i k (turned_left row)
      (left_step n base (k + i) row (subst (λ x. IsPlaced n base x row) (omega arith) placed))

-- From any place the emoji is moved to any other.
pub lefts_reach :
    (n base i j : ℕ) (row : List ℕ)
    → IsPlaced (suc n) base i row
    → ltb j (suc n) ≡ true
    → (k : ℕ) × IsPlaced (suc n) base j (lefts_row k row)
lefts_reach n base i j row placed inside = elim (Bool-cases (ltb i j)) [
  | inr e ↦ (
    i - j,
    lefts_down (suc n) base j (i - j) row
        (subst (λ x. IsPlaced (suc n) base x row) (ground arith) placed),
  )
  | inl e ↦
      let start =
        lefts_down (suc n) base 0 i row
          (subst (λ x. IsPlaced (suc n) base x row) (omega arith) placed) in
      let last = left_wrap n base (lefts_row i row) start in
      (
        i + suc (n - j),
        subst (λ r. IsPlaced (suc n) base j r) (lefts_row_add i (suc (n - j)) row)
            (lefts_down (suc n) base j (n - j) (turned_left (lefts_row i row)) (
              subst (λ x. IsPlaced (suc n) base x (turned_left (lefts_row i row))) (ground arith)
                last)),
      )
]

index_placed : (n base i : ℕ) (row : List ℕ) → IsPlaced n base i row → index base row ≡ some i
index_placed n base i row placed =
    ap (index base) placed.is_row
    ∙ index-set_item base i placed.sample placed.is_free
        (subst (λ x. ltb i x ≡ true) (sym placed.has_length) placed.is_inside)

-- the left button, some times
abbrev pub lefts : ℕ → EmojiCaptchaData → EmojiCaptchaData
lefts zero c = c
lefts (suc k) c = lefts k (move_to_left c)

pub lefts_lem : (k : ℕ) (c : EmojiCaptchaData) → lefts k c ≡ with_front (lefts_row k c.front_row) c
unfolding move_to_left
lefts_lem zero c = refl
lefts_lem (suc k) c = lefts_lem k (with_front (turned_left c.front_row) c)

pub is_correct_placed :
    (n i j : ℕ) (c : EmojiCaptchaData)
    → IsPlaced n c.base_emoji i c.back_row
    → IsPlaced n c.base_emoji j c.front_row
    → is_correct c ≡ some (i == j)
unfolding is_correct
is_correct_placed n i j c back front =
    rw
      (
        index_placed n c.base_emoji i c.back_row back,
        index_placed n c.base_emoji j c.front_row front,
      )
      refl
