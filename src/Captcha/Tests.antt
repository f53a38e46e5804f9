-- ===== src/Captcha/Tests.antt =====
-- A captcha that is drawn at the second try.
use sophie.Prelude.{ℕ, true, false, some, List, [], ◌∷◌, ◌≡◌, refl}
use sophie.Captcha.{
  EmojiCaptchaData, Draw, drawn, generate_data, move_to_right, move_to_left, is_correct,
}
use sophie.Captcha.Buttons.{move_to_right-move_to_left}
use sophie.Captcha.Places.{lefts}
use sophie.Captcha.Solvable.{AreDraws, generate_data-solvable}

abbrev same_place : Draw
same_place = record {
  base = 3;
  back_sample = 0 ∷ 1 ∷ 2 ∷ 4 ∷ 5 ∷ [];
  front_sample = 8 ∷ 7 ∷ 6 ∷ 5 ∷ 4 ∷ [];
  back_index = 2;
  front_index = 2;
}

abbrev two_places : Draw
two_places = record {
  base = 6;
  back_sample = 0 ∷ 1 ∷ 2 ∷ 4 ∷ 5 ∷ [];
  front_sample = 8 ∷ 7 ∷ 0 ∷ 5 ∷ 4 ∷ [];
  back_index = 3;
  front_index = 1;
}

abbrev draws : List Draw
draws = same_place ∷ two_places ∷ []

valid : AreDraws draws
valid = (
  record {
    back_length = refl;
    back_free = refl;
    front_length = refl;
    front_free = refl;
    back_inside = refl;
    front_inside = refl;
  },
  (
    record {
      back_length = refl;
      back_free = refl;
      front_length = refl;
      front_free = refl;
      back_inside = refl;
      front_inside = refl;
    },
    tt,
  ),
)

abbrev captcha : EmojiCaptchaData
captcha = drawn two_places

is_generated : generate_data draws ≡ some captcha
unfolding generate_data
is_generated = refl

generate_data-solvable_example :
    (is_correct captcha ≡ some false) × ((k : ℕ) × (is_correct (lefts k captcha) ≡ some true))
generate_data-solvable_example = generate_data-solvable draws captcha valid is_generated

move_to_right-move_to_left_example :
    (move_to_right (move_to_left captcha) ≡ captcha)
    × (move_to_left (move_to_right captcha) ≡ captcha)
move_to_right-move_to_left_example = move_to_right-move_to_left captcha
