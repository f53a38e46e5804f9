-- ===== src/FeatureFlags/Values.antt =====
-- The values of flags and their texts in Redis.
pub mod RoundTrip
use sophie.Prelude.{
  ℕ, suc, zero, Bool, true, false, ◌&&◌, ◌||◌, not, Option, none, some, List, [], ◌∷◌,
  if◌then◌else◌,
}
use sophie.Prelude.Int.{ℤ, pos, negsuc}
use sophie.FeatureFlags.Numbers.{Text, codes, same_text, lower, int_of_text, text_of_int}

-- What the flags use of Python's floating-point numbers: `str` and `float` on texts, the floats of
-- the two Booleans, the literals of the table, in tenths, and the arithmetic of a rollout in progress:
-- `timedelta.total_seconds` of microseconds, `/`, `*` and `+` with an integer on the left, and `int`;
-- `of_int` is `float` of an integer and `at_most` is `<=`, in which that arithmetic is documented.
pub record Floats : Type 1 where
  pub Float : Type 0
  pub text_of_float : Float → Text
  pub float_of_text : Text → Option Float
  pub tenths : ℕ → Float
  pub total_seconds : ℕ → Float
  pub divide : Float → Float → Float
  pub times : ℤ → Float → Float
  pub plus : ℤ → Float → Float
  pub truncate : Float → ℤ
  pub of_int : ℤ → Float
  pub at_most : Float → Float → Bool
  pub is_zero : Float → Bool

module _ (F : Type 0) where
  -- `FeatureValue`
  pub data FeatureValue : Type 0 where
    bool_value : Bool → FeatureValue
    int_value : ℤ → FeatureValue
    float_value : F → FeatureValue
    str_value : Text → FeatureValue

abbrev pub is_true_word : Text → Bool
is_true_word s = same_text (lower s) (codes "true") || same_text (lower s) (codes "1")

abbrev pub is_false_word : Text → Bool
is_false_word s = same_text (lower s) (codes "false") || same_text (lower s) (codes "0")

module _ (fl : Floats) where
  abbrev pub Value : Type 0
  Value = FeatureValue fl.Float

  -- `type(value) is type(default_value)`
  abbrev pub same_type : Value → Value → Bool
  same_type (bool_value b) (bool_value c) = true
  same_type (int_value b) (int_value c) = true
  same_type (float_value b) (float_value c) = true
  same_type (str_value b) (str_value c) = true
  same_type _ _ = false

  abbrev pub float_or_text : Text → Value
  float_or_text raw = elim (fl.float_of_text raw) [ some x ↦ float_value x | none ↦ str_value raw ]

  unfoldable pub parse_feature_value : Text → Value
  parse_feature_value raw =
      if is_true_word raw
      then bool_value true
      else if is_false_word raw
      then bool_value false
      else elim (int_of_text raw) [ some z ↦ int_value z | none ↦ float_or_text raw ]

  unfoldable pub serialize_feature_value : Value → Text
  serialize_feature_value (bool_value b) = codes (if b then "1" else "0")
  serialize_feature_value (int_value z) = text_of_int z
  serialize_feature_value (float_value x) = fl.text_of_float x
  serialize_feature_value (str_value s) = s

  abbrev pub bit : Bool → ℕ
  bit b = if b then 1 else 0

  -- a Boolean read where the default is of another type
  abbrev pub as_default : Value → Bool → Value
  as_default (bool_value d) b = bool_value b
  as_default (int_value d) b = int_value (pos (bit b))
  as_default (float_value d) b = float_value (fl.tenths (if b then 10 else 0))
  as_default (str_value d) b = bool_value b

  -- A text that parses as nothing else is no value of a Boolean flag.
  abbrev pub settle : Value → Value → Option Value
  settle d (bool_value b) = some (as_default d b)
  settle d (int_value z) = some (int_value z)
  settle d (float_value x) = some (float_value x)
  settle (bool_value d) (str_value s) = none
  settle d (str_value s) = some (str_value s)

  unfoldable pub parse_feature_override : Option Text → Value → Option Value
  unfolding parse_feature_value
  parse_feature_override none d = none
  parse_feature_override (some value) d = settle d (parse_feature_value value)
