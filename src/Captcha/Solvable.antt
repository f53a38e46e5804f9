-- ===== src/Captcha/Solvable.antt =====
-- A generated captcha can be solved with one of the buttons.
use mathlib.Core.Path.{subst}
use sophie.Prelude.{
  ℕ, true, false, some, List, [], ◌∷◌, ◌==◌, ltb, length, elem, ◌≡◌, refl, ◌∙◌, ap, arith,
  Bool-cases, inl, inr, ==_refl,
}
use sophie.Captcha.{EmojiCaptchaData, with_front, is_correct, Draw, drawn, generate_data}
use sophie.Captcha.Places.{IsPlaced, lefts_row, lefts_reach, lefts, lefts_lem, is_correct_placed}

-- What `random` is documented to draw: five of the other emojis twice, and two of the five places.
pub record IsDraw (d : Draw) : Type 0 where
  pub back_length : length d.back_sample ≡ 5
  pub back_free : elem d.base d.back_sample ≡ false
  pub front_length : length d.front_sample ≡ 5
  pub front_free : elem d.base d.front_sample ≡ false
  pub back_inside : ltb d.back_index 5 ≡ true
  pub front_inside : ltb d.front_index 5 ≡ true

abbrev pub AreDraws : List Draw → Type 0
AreDraws [] = Unit
AreDraws (d ∷ rest) = IsDraw d × AreDraws rest

tried_again :
    (d : Draw) (rest : List Draw) (c : EmojiCaptchaData)
    → (d.back_index == d.front_index) ≡ true
    → generate_data (d ∷ rest) ≡ some c
    → generate_data rest ≡ some c
unfolding generate_data
tried_again d rest c e h = ground (arith, h)

kept_draw :
    (d : Draw) (rest : List Draw) (c : EmojiCaptchaData)
    → (d.back_index == d.front_index) ≡ false
    → generate_data (d ∷ rest) ≡ some c
    → drawn d ≡ c
unfolding generate_data
kept_draw d rest c e h = ground (arith, h)

generated :
    (draws : List Draw) (c : EmojiCaptchaData)
    → AreDraws draws
    → generate_data draws ≡ some c
    → (d : Draw) × IsDraw d × (drawn d ≡ c) × ((d.back_index == d.front_index) ≡ false)
unfolding generate_data
generated [] c valid h = absurd (ground arith)
generated (d ∷ rest) c valid h = elim (Bool-cases (d.back_index == d.front_index)) [
  | inl e ↦ generated rest c valid.1 (tried_again d rest c e h)
  | inr e ↦ (d, valid.0, kept_draw d rest c e h, e)
]

drawn_back : (d : Draw) → IsDraw d → IsPlaced 5 d.base d.back_index (drawn d).back_row
drawn_back d valid = record {
  sample = d.back_sample;
  has_length = valid.back_length;
  is_free = valid.back_free;
  is_inside = valid.back_inside;
  is_row = refl;
}

drawn_front : (d : Draw) → IsDraw d → IsPlaced 5 d.base d.front_index (drawn d).front_row
drawn_front d valid = record {
  sample = d.front_sample;
  has_length = valid.front_length;
  is_free = valid.front_free;
  is_inside = valid.front_inside;
  is_row = refl;
}

solved_by : (d : Draw) → IsDraw d → (k : ℕ) × (is_correct (lefts k (drawn d)) ≡ some true)
solved_by d valid =
    let reached =
      lefts_reach 4 d.base d.front_index d.back_index (drawn d).front_row (drawn_front d valid)
        valid.back_inside in
    (
      reached.0,
      ap is_correct (lefts_lem reached.0 (drawn d))
          ∙ is_correct_placed 5 d.back_index d.back_index
              (with_front (lefts_row reached.0 (drawn d).front_row) (drawn d)) (drawn_back d valid)
              reached.1
          ∙ ap some (==_refl d.back_index),
    )

-- A captcha that is generated from what `random` is documented to draw is not correct at first, and is
-- made correct by the left button alone, pressed some number of times.
pub generate_data-solvable :
    (draws : List Draw) (c : EmojiCaptchaData)
    → AreDraws draws
    → generate_data draws ≡ some c
    → (is_correct c ≡ some false) × ((k : ℕ) × (is_correct (lefts k c) ≡ some true))
generate_data-solvable draws c valid h =
    let found = generated draws c valid h in
    let d = found.0 in
    subst (λ x. (is_correct x ≡ some false) × ((k : ℕ) × (is_correct (lefts k x) ≡ some true)))
      found.2
      (
        is_correct_placed 5 d.back_index d.front_index (drawn d) (drawn_back d found.1)
              (drawn_front d found.1)
            ∙ ap some found.3,
        solved_by d found.1,
      )
