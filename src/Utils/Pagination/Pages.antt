-- ===== src/Utils/Pagination/Pages.antt =====
-- The pages cover the items, each once and in order.
use sophie.Prelude.{
  ℕ, zero, suc, ◌+◌, ◌-◌, ◌*◌, ◌≤◌, ◌<◌, ◌≢◌, Bool-cases, min, true, false, List, [], ◌∷◌, ◌++◌,
  ◌≡◌, refl, ap, ◌==◌, ◌⊎◌, ◌↔◌, inl, inr, ltb, length, take, drop, arith, length-take, length-drop,
  elem,
}
use sophie.Prelude.Int.{ℤ, pos, pos_part}
use sophie.Utils.Pagination.{page_of, total_pages_of, build_pagination_row}

module _ {ℓ} {A : Type ℓ} where
  take_all : (n : ℕ) (xs : List A) → length xs ≤ n → take n xs ≡ xs
  take_all zero [] h = refl
  take_all zero (x ∷ xs) h = absurd (omega arith)
  take_all (suc n) [] h = refl
  take_all (suc n) (x ∷ xs) h = ap (λ ys. x ∷ ys) (take_all n xs (omega arith))

  drop-drop : (a b : ℕ) (xs : List A) → drop a (drop b xs) ≡ drop (b + a) xs
  drop-drop a zero xs = let e : 0 + a ≡ a = omega arith in rw e
  drop-drop zero (suc b) xs = let e : suc b + 0 ≡ suc b = omega arith in rw e
  drop-drop (suc a) (suc b) [] = let e : suc b + suc a ≡ suc (b + suc a) = omega arith in rw e
  drop-drop (suc a) (suc b) (x ∷ xs) =
      let e : suc b + suc a ≡ suc (b + suc a) = omega arith in rw e (drop-drop (suc a) b xs)

  take-append_next : (a b : ℕ) (xs : List A) → take a xs ++ take b (drop a xs) ≡ take (a + b) xs
  take-append_next zero b xs = let e : 0 + b ≡ b = omega arith in rw e
  take-append_next (suc a) zero [] = let e : suc a + 0 ≡ suc a = omega arith in rw e
  take-append_next (suc a) (suc b) [] =
      let e : suc a + suc b ≡ suc (a + suc b) = omega arith in rw e
  take-append_next (suc a) b (x ∷ xs) =
      let e : suc a + b ≡ suc (a + b) = omega arith in
      rw e (ap (λ ys. x ∷ ys) (take-append_next a b xs))

  -- the items of `n` pages from the page `i` on
  abbrev pub page_items : ℕ → List A → ℕ → ℕ → List A
  page_items size xs i zero = []
  page_items size xs i (suc n) = (page_of xs size (pos i)).items ++ page_items size xs (i + 1) n

  page_of-items :
      (size : ℕ) (xs : List A) (i : ℕ)
      → i < total_pages_of (length xs) size
      → (page_of xs size (pos i)).items ≡ take size (drop (i * size) xs)
  unfolding page_of
  page_of-items size xs i h =
      let t = total_pages_of (length xs) size in
      let nonzero : (t == 0) ≡ false = ground arith in
      let kept : min i (t - 1) ≡ i = omega arith in rw (nonzero, kept)

  page_items-take :
      (size : ℕ) (xs : List A) (i n : ℕ)
      → i + n ≤ total_pages_of (length xs) size
      → page_items size xs i n ≡ take (n * size) (drop (i * size) xs)
  page_items-take size xs i zero h = let e : 0 * size ≡ 0 = omega arith in rw e
  page_items-take size xs i (suc n) h =
      let sizes : suc n * size ≡ size + n * size = omega arith in
      let start : (i + 1) * size ≡ i * size + size = omega arith in
      rw
        (
          sizes,
          page_of-items size xs i (omega arith),
          page_items-take size xs (i + 1) n (omega arith),
          start,
          ← drop-drop size (i * size) xs,
        )
        (take-append_next size (n * size) (drop (i * size) xs))

total_covers : (n k : ℕ) → n ≤ total_pages_of n (suc k) * suc k
total_covers n k = grind arith

-- The pages of a list, one after the other, are the list: no item is lost, repeated or moved.
pub page_items_all {ℓ} :
    {A : Type ℓ} (xs : List A) (k : ℕ)
    → page_items (suc k) xs 0 (total_pages_of (length xs) (suc k)) ≡ xs
page_items_all xs k =
    let t = total_pages_of (length xs) (suc k) in
    let first : 0 * suc k ≡ 0 = omega arith in
    rw (page_items-take (suc k) xs 0 t (omega arith), first)
      (take_all (t * suc k) xs (total_covers (length xs) k))

page_start : (n k p : ℕ) → p < total_pages_of n (suc k) → p * suc k < n
page_start n k p h = grind arith

no_pages {ℓ} : {A : Type ℓ} (xs : List A) (k : ℕ) → total_pages_of (length xs) (suc k) ≡ 0 → xs ≡ []
no_pages [] k h = refl
no_pages (x ∷ xs) k h = absurd (grind arith)

-- A page of a list that is not empty, whatever its number, is one of the pages and holds at least
-- one item and as many as a page may at most.
pub page_of_bounds {ℓ} :
    {A : Type ℓ} (xs : List A) (k : ℕ) (requested : ℤ)
    → xs ≢ []
    → let p = page_of xs (suc k) requested in
      (p.page < p.total_pages) × (1 ≤ length p.items) × (length p.items ≤ suc k)
unfolding page_of
page_of_bounds xs k requested full =
    let t = total_pages_of (length xs) (suc k) in
    let p = min (pos_part requested) (t - 1) in
    elim (Bool-cases (t == 0)) [
      | inl e ↦ absurd (full (no_pages xs k (ground arith)))
      | inr e ↦
          let inside : p < t = ground arith in
          rw e (
            inside,
            omega (
              arith,
              page_start (length xs) k p inside,
              length-take (suc k) (drop (p * suc k) xs),
              length-drop (p * suc k) xs,
            ),
            omega (arith, length-take (suc k) (drop (p * suc k) xs)),
          )
    ]

module _ {ℓ} {A : Type ℓ} (xs : List A) (k : ℕ) (requested : ℤ) (x : ℕ) where
  -- The buttons of a page lead to the pages next to it that exist, and nowhere else.
  pub elem-build_pagination_row :
      let p = page_of xs (suc k) requested in
      (elem x (build_pagination_row p) ≡ true)
      ↔ ((x < p.total_pages) × ((x + 1 ≡ p.page) ⊎ (x ≡ p.page + 1)))
  unfolding page_of build_pagination_row
  elem-build_pagination_row =
      let t = total_pages_of (length xs) (suc k) in
      elim (Bool-cases (t == 0)) [
        | inl e ↦ rw e (λ h. cc, λ h. absurd (omega arith))
        | inr e ↦
            let p = min (pos_part requested) (t - 1) in
            elim (Bool-cases (ltb 0 p)) [
              | inl before ↦ elim (Bool-cases (ltb p (t - 1))) [
                | inl after ↦ rw (e, before, after) (ground arith)
                | inr after ↦ rw (e, before, after) (ground arith)
              ]
              | inr before ↦ elim (Bool-cases (ltb p (t - 1))) [
                | inl after ↦ rw (e, before, after) (ground arith)
                | inr after ↦ rw (e, before, after) (ground arith)
              ]
            ]
      ]
