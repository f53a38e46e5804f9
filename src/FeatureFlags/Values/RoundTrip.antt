-- ===== src/FeatureFlags/Values/RoundTrip.antt =====
-- What is read back from the text of a value.
use sophie.Prelude.{
  ℕ, suc, Bool, true, false, ◌||◌, none, some, [], ◌∷◌, ◌≡◌, refl, ◌==◌, leb, arith, ap, Bool-cases,
  inl, inr,
}
use sophie.Prelude.Int.{ℤ, pos, negsuc}
use sophie.FeatureFlags.Numbers.{
  Text, codes, same_text, lower, lower_code, is_digit, int_of_text, text_of_int, show_digits,
}
use sophie.FeatureFlags.Numbers.RoundTrip.{int_of_text-text_of_int, show-starts, starts_digit}
use sophie.FeatureFlags.Values.{
  Floats, bool_value, int_value, float_value, str_value, is_true_word, is_false_word, Value,
  same_type, parse_feature_value, serialize_feature_value, parse_feature_override, settle,
}

-- one digit, which no letter becomes in lower case
one_char : (c k : ℕ) → is_digit k ≡ true → (lower_code c == k) ≡ true → c ≡ k
one_char c k digit h = ground arith

text_of_digit :
    (s : Text) (k : ℕ) → is_digit k ≡ true → same_text (lower s) (k ∷ []) ≡ true → s ≡ k ∷ []
text_of_digit [] k digit h = cc
text_of_digit (c ∷ []) k digit h = ap (λ x. x ∷ []) (one_char c k digit (ground arith))
text_of_digit (c ∷ d ∷ s) k digit h = absurd (ground arith)

abbrev starts_number : Text → Bool
starts_number [] = false
starts_number (c ∷ s) = is_digit c || c == b'-'

text_of_int-starts : (z : ℤ) → starts_number (text_of_int z) ≡ true
unfolding text_of_int
text_of_int-starts (pos n) = starts (show_digits (suc n) n []) (show-starts n n [])
  where
    starts : (s : Text) → starts_digit s ≡ true → starts_number s ≡ true
    starts [] h = cc
    starts (c ∷ s) h = ground arith
text_of_int-starts (negsuc n) = refl

no_word :
    (s word : Text) (w : ℕ)
    → starts_number s ≡ true
    → leb b'a' w ≡ true
    → same_text (lower s) (w ∷ word) ≡ false
no_word [] word w h e = cc
no_word (c ∷ s) word w h e = ground arith

int_one : int_of_text (codes "1") ≡ some (pos 1)
unfolding int_of_text
int_one = refl

int_zero : int_of_text (codes "0") ≡ some (pos 0)
unfolding int_of_text
int_zero = refl

text_of_int-true : (z : ℤ) → is_true_word (text_of_int z) ≡ true → z ≡ pos 1
text_of_int-true z h =
    let alike : text_of_int z ≡ codes "1" =
      text_of_digit (text_of_int z) b'1' refl
        (ground (arith, no_word (text_of_int z) (codes "rue") b't' (text_of_int-starts z) refl)) in
    cc (alike, int_of_text-text_of_int z, int_one)

text_of_int-false : (z : ℤ) → is_false_word (text_of_int z) ≡ true → z ≡ pos 0
text_of_int-false z h =
    let alike : text_of_int z ≡ codes "0" =
      text_of_digit (text_of_int z) b'0' refl
        (ground (arith, no_word (text_of_int z) (codes "alse") b'f' (text_of_int-starts z) refl)) in
    cc (alike, int_of_text-text_of_int z, int_zero)

-- What the texts of floats are documented to be: they read back, and are no integers and none of the
-- words for Booleans.
pub record FloatLaws (fl : Floats) : Type 0 where
  pub reads_back : (x : fl.Float) → fl.float_of_text (fl.text_of_float x) ≡ some x
  pub no_int : (x : fl.Float) → int_of_text (fl.text_of_float x) ≡ none
  pub no_true : (x : fl.Float) → is_true_word (fl.text_of_float x) ≡ false
  pub no_false : (x : fl.Float) → is_false_word (fl.text_of_float x) ≡ false

module _ (fl : Floats) where
  -- Does a value of text read as no value of another type? Other values do.
  abbrev pub IsPlain : Value fl → Type 0
  IsPlain (str_value s) = parse_feature_value fl s ≡ str_value s
  IsPlain (bool_value b) = Unit
  IsPlain (int_value z) = Unit
  IsPlain (float_value x) = Unit

  -- A value of the type of the default is read back from its text, unless it is a text that reads as a
  -- number or a Boolean. The texts of floats are as documented.
  pub parse-serialize :
      (d v : Value fl)
      → FloatLaws fl
      → same_type fl d v ≡ true
      → IsPlain v
      → parse_feature_override fl (some (serialize_feature_value fl v)) d ≡ some v
  unfolding parse_feature_override parse_feature_value serialize_feature_value
  parse-serialize (bool_value c) (bool_value true) laws same plain = refl
  parse-serialize (bool_value c) (bool_value false) laws same plain = refl
  parse-serialize (int_value c) (int_value z) laws same plain =
      elim (Bool-cases (is_true_word (text_of_int z))) [
        | inl e ↦ ground (arith, text_of_int-true z e)
        | inr e ↦ elim (Bool-cases (is_false_word (text_of_int z))) [
          | inl e' ↦ ground (arith, text_of_int-false z e')
          | inr e' ↦ ground (arith, int_of_text-text_of_int z)
        ]
      ]
  parse-serialize (float_value c) (float_value x) laws same plain =
      ground (arith, laws.no_true x, laws.no_false x, laws.no_int x, laws.reads_back x)
  parse-serialize (str_value c) (str_value s) laws same plain = ap (settle fl (str_value c)) plain
  parse-serialize (bool_value c) (int_value z) laws same plain = cc
  parse-serialize (bool_value c) (float_value x) laws same plain = cc
  parse-serialize (bool_value c) (str_value s) laws same plain = cc
  parse-serialize (int_value c) (bool_value b) laws same plain = cc
  parse-serialize (int_value c) (float_value x) laws same plain = cc
  parse-serialize (int_value c) (str_value s) laws same plain = cc
  parse-serialize (float_value c) (bool_value b) laws same plain = cc
  parse-serialize (float_value c) (int_value z) laws same plain = cc
  parse-serialize (float_value c) (str_value s) laws same plain = cc
  parse-serialize (str_value c) (bool_value b) laws same plain = cc
  parse-serialize (str_value c) (int_value z) laws same plain = cc
  parse-serialize (str_value c) (float_value x) laws same plain = cc

  -- A text that is the decimal text of an integer, other than 0 and 1, is read back as that integer
  -- where the default is a text, and so as a value of another type.
  pub parse-serialize_number :
      (d : Text) (z : ℤ)
      → is_true_word (text_of_int z) ≡ false
      → is_false_word (text_of_int z) ≡ false
      → (parse_feature_override fl
            (some (serialize_feature_value fl (str_value (text_of_int z))))
            (str_value d)
          ≡ some (int_value z))
        × (same_type fl (str_value d) (int_value z) ≡ false)
  unfolding parse_feature_override parse_feature_value serialize_feature_value
  parse-serialize_number d z no_true no_false =
      (rw (no_true, no_false, int_of_text-text_of_int z) refl, refl)
