-- ===== src/FeatureFlags/Numbers.antt =====
-- What the flags use of Python's `str` and `int` on texts: a text is the list of its code points.
-- White space and digits are those of ASCII.
pub mod RoundTrip
use Prim.Native.Char.{code}
use Prim.Native.String
use sophie.Prelude.{
  ℕ, zero, suc, ◌+◌, ◌-◌, ◌*◌, ◌/◌, ◌%◌, Bool, true, false, ◌&&◌, ◌||◌, Option, none, some, List,
  [], ◌∷◌, ◌==◌, ltb, leb, map, if◌then◌else◌,
}
use sophie.Prelude.Int.{ℤ, pos, negsuc}

abbrev pub Text : Type 0
Text = List ℕ

abbrev pub codes : String.String → Text
codes String.[] = []
codes (String.◌∷◌ c s) = code c ∷ codes s

abbrev pub same_text : Text → Text → Bool
same_text [] [] = true
same_text [] (d ∷ t) = false
same_text (c ∷ s) [] = false
same_text (c ∷ s) (d ∷ t) = c == d && same_text s t

-- `str.lower`, on ASCII letters
abbrev pub lower_code : ℕ → ℕ
lower_code c = if leb b'A' c && leb c b'Z' then c + 32 else c

abbrev pub lower : Text → Text
lower s = map lower_code s

abbrev pub is_space : ℕ → Bool
is_space c = c == 32 || (leb 9 c && leb c 13) || (leb 28 c && leb c 31)

unfoldable pub strip_start : Text → Text
strip_start [] = []
strip_start (c ∷ s) = let rest = strip_start s in if is_space c then rest else c ∷ s

unfoldable pub strip_end : Text → Text
strip_end [] = []
strip_end (c ∷ s) = elim (strip_end s) [
  | [] ↦ if is_space c then [] else c ∷ []
  | d ∷ r ↦ c ∷ d ∷ r
]

abbrev pub is_digit : ℕ → Bool
is_digit c = leb b'0' c && leb c b'9'

-- Digits, with single underscores between them; the flag says that the last character was a digit.
unfoldable pub read_digits : ℕ → Bool → Text → Option ℕ
read_digits value after_digit [] = if after_digit then some value else none
read_digits value after_digit (c ∷ s) =
    let rest = read_digits (if is_digit c then value * 10 + (c - b'0') else value) (is_digit c) s in
    if is_digit c || (c == b'_' && after_digit) then rest else none

abbrev pub positive : Option ℕ → Option ℤ
positive none = none
positive (some n) = some (pos n)

abbrev pub negative : Option ℕ → Option ℤ
negative none = none
negative (some zero) = some (pos 0)
negative (some (suc n)) = some (negsuc n)

abbrev pub read_signed : Text → Option ℤ
read_signed [] = none
read_signed (c ∷ s) =
    if c == b'-'
    then negative (read_digits 0 false s)
    else if c == b'+'
    then positive (read_digits 0 false s)
    else positive (read_digits 0 false (c ∷ s))

-- `int(raw)`, where `none` is the `ValueError`
unfoldable pub int_of_text : Text → Option ℤ
unfolding strip_start strip_end read_digits
int_of_text raw = read_signed (strip_end (strip_start raw))

-- the digits of a number, before what follows
unfoldable pub show_digits : ℕ → ℕ → Text → Text
show_digits zero n rest = rest
show_digits (suc fuel) n rest =
    let longer = show_digits fuel (n / 10) ((b'0' + n % 10) ∷ rest) in
    if ltb n 10 then (b'0' + n) ∷ rest else longer

-- `str(n)`
unfoldable pub text_of_int : ℤ → Text
unfolding show_digits
text_of_int (pos n) = show_digits (suc n) n []
text_of_int (negsuc n) = b'-' ∷ show_digits (suc (suc n)) (suc n) []
