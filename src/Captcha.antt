-- ===== src/Captcha.antt =====
-- The emoji captcha of new members (sophie_bot/modules/welcomesecurity/utils_/emoji_captcha.py):
-- EmojiCaptchaData and generate_data. Emojis are numbered; the draws of `random` are a list.
pub mod Buttons
pub mod Places
pub mod Solvable
mod Tests
use sophie.Prelude.{
  ℕ, zero, suc, ◌-◌, Bool, Option, none, some, List, [], ◌∷◌, ◌++◌, if◌then◌else◌, ◌==◌, length,
  take, drop, ◌>>=◌,
}

pub record EmojiCaptchaData : Type 0 where
  pub base_emoji : ℕ
  pub back_row : List ℕ
  pub front_row : List ℕ

-- `row[-1:] + row[:-1]` and `row[1:] + row[:1]`
abbrev pub turned_right : List ℕ → List ℕ
turned_right row = drop (length row - 1) row ++ take (length row - 1) row

abbrev pub turned_left : List ℕ → List ℕ
turned_left row = drop 1 row ++ take 1 row

abbrev pub with_front : List ℕ → EmojiCaptchaData → EmojiCaptchaData
with_front row c = record { base_emoji = c.base_emoji; back_row = c.back_row; front_row = row }

unfoldable pub move_to_right : EmojiCaptchaData → EmojiCaptchaData
move_to_right c = with_front (turned_right c.front_row) c

unfoldable pub move_to_left : EmojiCaptchaData → EmojiCaptchaData
move_to_left c = with_front (turned_left c.front_row) c

-- `list.index`; `none` is its `ValueError`
abbrev pub index : ℕ → List ℕ → Option ℕ
index x [] = none
index x (y ∷ ys) = if y == x then some 0 else (index x ys >>= λ i. some (suc i))

unfoldable pub is_correct : EmojiCaptchaData → Option Bool
is_correct c = do
  back ← index c.base_emoji c.back_row
  front ← index c.base_emoji c.front_row
  some (back == front)

-- `row[i] = x`
abbrev pub set_item : ℕ → ℕ → List ℕ → List ℕ
set_item i x [] = []
set_item zero x (y ∷ ys) = x ∷ ys
set_item (suc i) x (y ∷ ys) = y ∷ set_item i x ys

-- What `random` draws for one try: the emoji, two samples of the others, and two places.
pub record Draw : Type 0 where
  pub base : ℕ
  pub back_sample : List ℕ
  pub front_sample : List ℕ
  pub back_index : ℕ
  pub front_index : ℕ

abbrev pub drawn : Draw → EmojiCaptchaData
drawn d = record {
  base_emoji = d.base;
  back_row = set_item d.back_index d.base d.back_sample;
  front_row = set_item d.front_index d.base d.front_sample;
}

-- `none` where the draws end before two places differ
unfoldable pub generate_data : List Draw → Option EmojiCaptchaData
generate_data [] = none
generate_data (d ∷ rest) =
    let again = generate_data rest in
    if d.back_index == d.front_index then again else some (drawn d)
