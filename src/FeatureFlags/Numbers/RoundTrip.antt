-- ===== src/FeatureFlags/Numbers/RoundTrip.antt =====
-- Reading a printed integer.
use sophie.Prelude.{
  ℕ, zero, suc, ◌+◌, ◌-◌, ◌*◌, ◌/◌, ◌%◌, ◌≤◌, ◌<◌, not, Bool, true, false, ◌&&◌, some, [], ◌∷◌, ◌≡◌,
  refl, ltb, arith, Bool-cases, inl, inr,
}
use sophie.Prelude.Int.{ℤ, pos, negsuc}
use sophie.FeatureFlags.Numbers.{
  Text, is_space, is_digit, strip_start, strip_end, read_digits, read_signed, positive, int_of_text,
  show_digits, text_of_int,
}

read_digit :
    (value k : ℕ) (b : Bool) (rest : Text)
    → k < 10
    → read_digits value b ((b'0' + k) ∷ rest) ≡ read_digits (value * 10 + k) true rest
unfolding read_digits
read_digit value k b rest h =
    let digit : is_digit (b'0' + k) ≡ true = ground arith in
    let same : b'0' + k - b'0' ≡ k = omega arith in rw (digit, same)

show_small :
    (fuel n : ℕ) (rest : Text) → ltb n 10 ≡ true → show_digits (suc fuel) n rest ≡ (b'0' + n) ∷ rest
unfolding show_digits
show_small fuel n rest h = rw h

show_large :
    (fuel n : ℕ) (rest : Text)
    → ltb n 10 ≡ false
    → show_digits (suc fuel) n rest ≡ show_digits fuel (n / 10) ((b'0' + n % 10) ∷ rest)
unfolding show_digits
show_large fuel n rest h = rw h

-- the digits of a number are read as the number, and what follows them after that
read-show :
    (fuel n : ℕ) (rest : Text)
    → n ≤ fuel
    → read_digits 0 false (show_digits (suc fuel) n rest) ≡ read_digits n true rest
read-show zero n rest h =
    let none_left : n ≡ 0 = omega arith in
    rw (none_left, show_small 0 0 rest refl, read_digit 0 0 false rest (omega arith))
read-show (suc fuel) n rest h = elim (Bool-cases (ltb n 10)) [
  | inl small ↦
      let whole : 0 * 10 + n ≡ n = omega arith in
      rw (show_small (suc fuel) n rest small, read_digit 0 n false rest (ground arith), whole)
  | inr large ↦
      let whole : n / 10 * 10 + n % 10 ≡ n = omega arith in
      rw (
        show_large (suc fuel) n rest large,
        read-show fuel (n / 10) ((b'0' + n % 10) ∷ rest) (ground arith),
        read_digit (n / 10) (n % 10) true rest (omega arith),
        whole,
      )
]

-- whether no character of a text is a space
abbrev all_dark : Text → Bool
all_dark [] = true
all_dark (c ∷ s) = not (is_space c) && all_dark s

show-dark :
    (fuel n : ℕ) (rest : Text) → all_dark rest ≡ true → all_dark (show_digits fuel n rest) ≡ true
unfolding show_digits
show-dark zero n rest h = h
show-dark (suc fuel) n rest h = elim (Bool-cases (ltb n 10)) [
  | inl small ↦ rw small (ground arith)
  | inr large ↦ rw large (show-dark fuel (n / 10) ((b'0' + n % 10) ∷ rest) (ground arith))
]

strip_start-dark : (s : Text) → all_dark s ≡ true → strip_start s ≡ s
unfolding strip_start
strip_start-dark [] h = refl
strip_start-dark (c ∷ s) h = ground arith

strip_end-dark : (s : Text) → all_dark s ≡ true → strip_end s ≡ s
unfolding strip_end
strip_end-dark [] h = refl
strip_end-dark (c ∷ []) h = ground arith
strip_end-dark (c ∷ d ∷ s) h =
    let rest : strip_end (d ∷ s) ≡ d ∷ s = strip_end-dark (d ∷ s) (ground arith) in rw rest

abbrev pub starts_digit : Text → Bool
starts_digit [] = false
starts_digit (c ∷ s) = is_digit c

show-starts_rest :
    (fuel n : ℕ) (rest : Text)
    → starts_digit rest ≡ true
    → starts_digit (show_digits fuel n rest) ≡ true
unfolding show_digits
show-starts_rest zero n rest h = h
show-starts_rest (suc fuel) n rest h = elim (Bool-cases (ltb n 10)) [
  | inl small ↦ rw small (ground arith)
  | inr large ↦ rw large (show-starts_rest fuel (n / 10) ((b'0' + n % 10) ∷ rest) (ground arith))
]

pub show-starts : (fuel n : ℕ) (rest : Text) → starts_digit (show_digits (suc fuel) n rest) ≡ true
unfolding show_digits
show-starts fuel n rest = elim (Bool-cases (ltb n 10)) [
  | inl small ↦ rw small (ground arith)
  | inr large ↦ rw large (show-starts_rest fuel (n / 10) ((b'0' + n % 10) ∷ rest) (ground arith))
]

read_signed-digit :
    (s : Text) → starts_digit s ≡ true → read_signed s ≡ positive (read_digits 0 false s)
read_signed-digit [] h = cc
read_signed-digit (c ∷ s) h = ground arith

read_digits-show : (n : ℕ) → read_digits 0 false (show_digits (suc n) n []) ≡ some n
unfolding read_digits
read_digits-show n = read-show n n [] (omega arith)

-- the text of an integer, with the strips undone
int_of_text-dark : (s : Text) → all_dark s ≡ true → int_of_text s ≡ read_signed s
unfolding int_of_text
int_of_text-dark s h = rw (strip_start-dark s h, strip_end-dark s h)

pub int_of_text-text_of_int : (z : ℤ) → int_of_text (text_of_int z) ≡ some z
unfolding text_of_int
int_of_text-text_of_int (pos n) = rw (
  int_of_text-dark (show_digits (suc n) n []) (show-dark (suc n) n [] refl),
  read_signed-digit (show_digits (suc n) n []) (show-starts n n []),
  read_digits-show n,
)
int_of_text-text_of_int (negsuc n) = rw (
  int_of_text-dark (b'-' ∷ show_digits (suc (suc n)) (suc n) [])
      (show-dark (suc (suc n)) (suc n) [] refl),
  read_digits-show (suc n),
)
