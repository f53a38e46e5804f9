-- ===== src/FeatureFlags/Tests/Stand.antt =====
-- Stand-ins for other packages: floats that are whole numbers, with texts that begin with a dot and
-- a quotient that is rounded down, rollouts encoded as texts, times that are one code point,
-- digests that are the chat's number.
use sophie.Prelude.{
  leb, ℕ, suc, zero, ◌==◌, ◌/◌, arith, Bool, true, false, Option, none, some, [], ◌∷◌,
  if◌then◌else◌, ◌≡◌, refl, ap, ◌∙◌,
}
use sophie.Prelude.Int.{ℤ, pos, negsuc, ◌+ℤ◌, leb_ℤ}
use sophie.FeatureFlags.Numbers.{
  Text, int_of_text, text_of_int, read_signed, read_digits, strip_end, is_space,
}
use sophie.FeatureFlags.Numbers.RoundTrip.{int_of_text-text_of_int}
use sophie.FeatureFlags.Values.{Floats, bool_value, int_value, float_value, str_value, Value}
use sophie.FeatureFlags.Values.RoundTrip.{FloatLaws}
use sophie.FeatureFlags.Rollouts.{FeatureRollout, Services, DbValue, dict_value, dict_of_rollout}
use sophie.FeatureFlags.Coherence.Percentages.{ServiceLaws, ArithmeticLaws, is_between}

-- a text after a dot
abbrev after_dot : Text → Option ℤ
after_dot [] = none
after_dot (c ∷ s) = if c == b'.' then int_of_text s else none

abbrev whole_quotient : ℤ → ℤ → ℤ
whole_quotient x y = if leb_ℤ y x then pos 1 else pos 0

-- a product with 0 or 1
abbrev whole_product : ℤ → ℤ → ℤ
whole_product z (pos zero) = pos 0
whole_product z (pos (suc n)) = z
whole_product z (negsuc n) = z

abbrev is_pos_zero : ℤ → Bool
is_pos_zero (pos n) = n == 0
is_pos_zero (negsuc n) = false

abbrev pub wholes : Floats
wholes = record {
  Float = ℤ;
  text_of_float = λ z. b'.' ∷ text_of_int z;
  float_of_text = after_dot;
  tenths = λ n. pos (n / 10);
  total_seconds = pos;
  divide = whole_quotient;
  times = whole_product;
  plus = λ x y. x +ℤ y;
  truncate = λ z. z;
  of_int = λ z. z;
  at_most = leb_ℤ;
  is_zero = is_pos_zero;
}

dot_first : (s : Text) → read_signed (b'.' ∷ s) ≡ none
unfolding read_digits
dot_first s = refl

dotted : (s : Text) → int_of_text (b'.' ∷ s) ≡ none
unfolding int_of_text
dotted s =
    elim (strip_end s)
      as (λ r.
        read_signed (elim r [ [] ↦ if is_space b'.' then [] else b'.' ∷ [] | d ∷ q ↦ b'.' ∷ d ∷ q ])
        ≡ none) [ [] ↦ refl | d ∷ q ↦ dot_first (d ∷ q) ]

pub wholes_lem : FloatLaws wholes
wholes_lem = record {
  reads_back = int_of_text-text_of_int;
  no_int = λ z. dotted (text_of_int z);
  no_true = λ z. refl;
  no_false = λ z. refl;
}

product_up :
    (n : ℕ) (x : ℤ)
    → is_between wholes (pos 0) x (pos 1) ≡ true
    → is_between wholes (pos 0) (whole_product (pos n) x) (pos n) ≡ true
product_up n (pos zero) h = ground arith
product_up n (pos (suc m)) h = ground arith
product_up n (negsuc m) h = absurd (ground arith)

product_down :
    (n : ℕ) (x : ℤ)
    → is_between wholes (pos 0) x (pos 1) ≡ true
    → is_between wholes (negsuc n) (whole_product (negsuc n) x) (pos 0) ≡ true
product_down n (pos zero) h = ground arith
product_down n (pos (suc m)) h = ground arith
product_down n (negsuc m) h = absurd (ground arith)

sum_monotone : (n : ℕ) (x y : ℤ) → leb_ℤ x y ≡ true → leb_ℤ (pos n +ℤ x) (pos n +ℤ y) ≡ true
unfolding ◌+ℤ◌
sum_monotone n (pos x) (pos y) h = ground arith
sum_monotone n (pos x) (negsuc y) h = absurd (ground arith)
sum_monotone n (negsuc x) (pos y) h = ground arith
sum_monotone n (negsuc x) (negsuc y) h = ground arith

sum_between :
    (n : ℕ) (low high x : ℤ)
    → is_between wholes low x high ≡ true
    → is_between wholes (pos n +ℤ low) (pos n +ℤ x) (pos n +ℤ high) ≡ true
sum_between n low high x h =
    let below : leb_ℤ low x ≡ true = ground arith in
    let above : leb_ℤ x high ≡ true = ground arith in
    rw (sum_monotone n low x below, sum_monotone n x high above) refl

quotient_between :
    (e d : ℕ)
    → leb d e ≡ false
    → is_between wholes (pos 0) (whole_quotient (pos e) (pos d)) (pos 1) ≡ true
quotient_between e d h = ground arith

wholes_arithmetic : ArithmeticLaws wholes
wholes_arithmetic = record {
  quotient = quotient_between;
  scaled_up = λ n x small. product_up n x;
  scaled_down = λ n x small. product_down n x;
  added = λ n low high x a b c. sum_between n low high x;
  truncated = λ low high x a b h. h;
}

abbrev sign : ℤ → ℕ
sign (pos n) = 0
sign (negsuc n) = 1

abbrev magnitude : ℤ → ℕ
magnitude (pos n) = n
magnitude (negsuc n) = n

abbrev get_int : ℕ → ℕ → ℤ
get_int zero n = pos n
get_int (suc k) n = negsuc n

get_int_lem : (z : ℤ) → get_int (sign z) (magnitude z) ≡ z
get_int_lem (pos n) = refl
get_int_lem (negsuc n) = refl

abbrev get_bool : ℕ → Bool
get_bool zero = false
get_bool (suc n) = true

abbrev put_text : Text → Text → Text
put_text [] rest = 0 ∷ rest
put_text (c ∷ s) rest = suc c ∷ put_text s rest

abbrev get_text : Text → Text × Text
get_text [] = ([], [])
get_text (zero ∷ rest) = ([], rest)
get_text (suc c ∷ s) = let found = get_text s in (c ∷ found.0, found.1)

get_text-put_text : (s rest : Text) → get_text (put_text s rest) ≡ (s, rest)
get_text-put_text [] rest = refl
get_text-put_text (c ∷ s) rest = ap (λ x. (c ∷ x.0, x.1)) (get_text-put_text s rest)

abbrev put_value : Value wholes → Text
put_value (bool_value b) = 0 ∷ (if b then 1 else 0) ∷ []
put_value (int_value z) = 1 ∷ sign z ∷ magnitude z ∷ []
put_value (float_value z) = 2 ∷ sign z ∷ magnitude z ∷ []
put_value (str_value s) = 3 ∷ s

abbrev read_value : Text → Option (Value wholes)
read_value (zero ∷ b ∷ []) = some (bool_value (get_bool b))
read_value (suc zero ∷ k ∷ n ∷ []) = some (int_value (get_int k n))
read_value (suc (suc zero) ∷ k ∷ n ∷ []) = some (float_value (get_int k n))
read_value (suc (suc (suc k)) ∷ s) = some (str_value s)
read_value _ = none

read_value-put_value : (v : Value wholes) → read_value (put_value v) ≡ some v
read_value-put_value (bool_value true) = refl
read_value-put_value (bool_value false) = refl
read_value-put_value (int_value z) = ap (λ x. some (int_value x)) (get_int_lem z)
read_value-put_value (float_value z) = ap (λ x. some (float_value x)) (get_int_lem z)
read_value-put_value (str_value s) = refl

abbrev put_days : Option ℤ → Text → Text
put_days none rest = 0 ∷ rest
put_days (some z) rest = 1 ∷ sign z ∷ magnitude z ∷ rest

abbrev dumps : FeatureRollout wholes → Text
dumps r =
    sign r.start_percentage
    ∷ magnitude r.start_percentage
    ∷ sign r.target_percentage
    ∷ magnitude r.target_percentage
    ∷ put_days r.duration_days (put_text r.started_at (put_value r.value))

abbrev with_value : ℤ → ℤ → Option ℤ → Text → Option (Value wholes) → Option (DbValue wholes)
with_value start target days started none = none
with_value start target days started (some v) = some (
    dict_value (
      dict_of_rollout wholes (record {
        start_percentage = start;
        target_percentage = target;
        started_at = started;
        duration_days = days;
        value = v;
      })))

abbrev with_text : ℤ → ℤ → Option ℤ → Text × Text → Option (DbValue wholes)
with_text start target days found = with_value start target days found.0 (read_value found.1)

abbrev with_days : ℤ → ℤ → Text → Option (DbValue wholes)
with_days start target (zero ∷ rest) = with_text start target none (get_text rest)
with_days start target (suc k ∷ a ∷ b ∷ rest) =
    with_text start target (some (get_int a b)) (get_text rest)
with_days start target _ = none

abbrev loads : Text → Option (DbValue wholes)
loads (a ∷ b ∷ c ∷ d ∷ rest) = with_days (get_int a b) (get_int c d) rest
loads _ = none

with_text_lem :
    (start target : ℤ) (days : Option ℤ) (started : Text) (v : Value wholes)
    → with_text start target days (get_text (put_text started (put_value v)))
      ≡ with_value start target days started (some v)
with_text_lem start target days started v =
    ap (with_text start target days) (get_text-put_text started (put_value v))
    ∙ ap (with_value start target days started) (read_value-put_value v)

with_days_lem :
    (start target : ℤ) (days : Option ℤ) (started : Text) (v : Value wholes)
    → with_days start target (put_days days (put_text started (put_value v)))
      ≡ with_value start target days started (some v)
with_days_lem start target none started v = with_text_lem start target none started v
with_days_lem start target (some z) started v =
    ap (λ x. with_text start target (some x) (get_text (put_text started (put_value v))))
      (get_int_lem z)
    ∙ with_text_lem start target (some z) started v

loads-dumps :
    (r : FeatureRollout wholes) → loads (dumps r) ≡ some (dict_value (dict_of_rollout wholes r))
loads-dumps r =
    ap
      (λ x.
        with_days x (get_int (sign r.target_percentage) (magnitude r.target_percentage))
          (put_days r.duration_days (put_text r.started_at (put_value r.value))))
      (get_int_lem r.start_percentage)
    ∙ ap
        (λ x.
          with_days r.start_percentage x
            (put_days r.duration_days (put_text r.started_at (put_value r.value))))
        (get_int_lem r.target_percentage)
    ∙ with_days_lem r.start_percentage r.target_percentage r.duration_days r.started_at r.value

abbrev time_of_text : Text → Option ℕ
time_of_text (t ∷ []) = some t
time_of_text _ = none

abbrev pub stand_in : Services wholes
stand_in = record {
  dumps = dumps;
  loads = loads;
  text_of_time = λ t. t ∷ [];
  time_of_text = time_of_text;
  digest = λ f c. c;
}

pub stand_in_lem : ServiceLaws wholes stand_in
stand_in_lem = record { json = loads-dumps; times_read = λ t. refl; arithmetic = wholes_arithmetic }
