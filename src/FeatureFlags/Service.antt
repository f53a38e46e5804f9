-- ===== src/FeatureFlags/Service.antt =====
-- The operations that the bot calls (sophie_bot/utils/feature_flags.py): the value of a flag with the
-- rollout that a chat enters on its first access, the overrides, and the rollouts with their
-- validation. `now` is `_utc_now()` for the whole call.
pub mod Overlap
use sophie.Prelude.{ℕ, Bool, true, false, not, Option, none, some, [], ◌∷◌, if◌then◌else◌, ◌==◌}
use sophie.Prelude.Int.{ℤ, pos, negsuc, ◌+ℤ◌, leb_ℤ}
use sophie.FeatureFlags.Numbers.{Text, codes, same_text, text_of_int}
use sophie.FeatureFlags.Flags.{FeatureType}
use sophie.FeatureFlags.Definitions.{get_default_value}
use sophie.FeatureFlags.Values.{
  Floats, FeatureValue, bool_value, int_value, float_value, str_value, Value,
}
use sophie.FeatureFlags.Rollouts.{
  FeatureRollout, Services, get_rollout_percentage, is_chat_in_rollout, in_percent,
}
use sophie.FeatureFlags.Store.{
  FeatureFlagOverrideSource, manual, rollout, FlagState, resolve_cached_override, set_override,
  get_rollout, put_rollout, is_storable, is_storable_rollout,
}

-- the messages of the `ValueError`s, and the `OverflowError` of a value that Mongo does not take
pub data RolloutError : Type 0 where
  bad_percentage bad_days nothing_to_bump too_large : RolloutError

module _ (fl : Floats) where
  -- `bool(value)` and `str(value)`
  abbrev pub truth_of_value : Value fl → Bool
  truth_of_value (bool_value b) = b
  truth_of_value (int_value (pos n)) = not (n == 0)
  truth_of_value (int_value (negsuc n)) = true
  truth_of_value (float_value x) = not (fl.is_zero x)
  truth_of_value (str_value []) = false
  truth_of_value (str_value (c ∷ s)) = true

  abbrev pub text_of_value : Value fl → Text
  text_of_value (bool_value b) = codes (if b then "True" else "False")
  text_of_value (int_value z) = text_of_int z
  text_of_value (float_value x) = fl.text_of_float x
  text_of_value (str_value s) = s

  -- What a call returns, or raises.
  pub data FlagReply : Type 0 where
    done : FlagReply
    answered : Value fl → FlagReply
    bumped : FeatureRollout fl → FlagReply
    raised : RolloutError → FlagReply

  -- the value of a call that writes it and returns it, `none` where the write raises
  abbrev pub value_written : Value fl → Option (Value fl)
  value_written v = if is_storable fl v then some v else none

  -- how a call that writes a value, or a rollout, ends
  abbrev pub reply_written : Value fl → FlagReply
  reply_written v = if is_storable fl v then done else raised too_large

  abbrev pub reply_rollout_written : FeatureRollout fl → FlagReply → FlagReply
  reply_rollout_written r reply = if is_storable_rollout fl r then reply else raised too_large

  abbrev pub set_value : FeatureType → Value fl → FlagState fl → FlagState fl
  set_value f v s = set_override fl f none v manual s

  abbrev pub set_chat_override : FeatureType → ℕ → Value fl → FlagState fl → FlagState fl
  set_chat_override f c v s = set_override fl f (some c) v manual s

  -- without the report to Sentry
  abbrev pub set_enabled : FeatureType → Bool → FlagState fl → FlagState fl
  set_enabled f enabled s = set_value f (bool_value enabled) s

  module _ (sv : Services fl) (now : ℕ) where
    abbrev pub offer_rollout :
        FeatureType
        → ℕ
        → Option (FeatureRollout fl)
        → FlagState fl
        → FlagState fl × Option (Value fl)
    offer_rollout f c none s = (s, some (get_default_value fl f))
    offer_rollout f c (some r) s =
        if is_chat_in_rollout fl sv f c (get_rollout_percentage fl sv r now)
        then (set_override fl f (some c) r.value rollout s, value_written r.value)
        else (s, some (get_default_value fl f))

    abbrev pub rollout_value :
        FeatureType → Option ℕ → FlagState fl → FlagState fl × Option (Value fl)
    rollout_value f none s = (s, some (get_default_value fl f))
    rollout_value f (some c) s = let step = get_rollout fl sv f s in offer_rollout f c step.1 step.0

    abbrev pub value_or :
        (FlagState fl → FlagState fl × Option (Value fl))
        → FlagState fl × Option (Value fl)
        → FlagState fl × Option (Value fl)
    value_or otherwise (s, some v) = (s, some v)
    value_or otherwise (s, none) = otherwise s

    abbrev pub global_value :
        FeatureType → Option ℕ → FlagState fl → FlagState fl × Option (Value fl)
    global_value f chat s = value_or (rollout_value f chat) (resolve_cached_override fl f none s)

    -- `none` where the write of a rollout's value raises
    unfoldable pub get_value :
        FeatureType → Option ℕ → FlagState fl → FlagState fl × Option (Value fl)
    get_value f none s = global_value f none s
    get_value f (some c) s =
        value_or (global_value f (some c)) (resolve_cached_override fl f (some c) s)

    abbrev pub truth_of : Option (Value fl) → Option Bool
    truth_of none = none
    truth_of (some v) = some (truth_of_value v)

    abbrev pub is_enabled : FeatureType → Option ℕ → FlagState fl → FlagState fl × Option Bool
    is_enabled f chat s = let step = get_value f chat s in (step.0, truth_of step.1)

    abbrev pub tier_of : Option (Value fl) → Option (Option Text)
    tier_of none = none
    tier_of (some v) =
        let value = text_of_value v in
        some (if same_text value (codes "none") then none else some value)

    abbrev pub get_service_tier :
        FeatureType → Option ℕ → FlagState fl → FlagState fl × Option (Option Text)
    get_service_tier f chat s = let step = get_value f chat s in (step.0, tier_of step.1)

    -- a rollout that stays at one percentage
    abbrev pub steady : ℤ → Value fl → FeatureRollout fl
    steady percentage value = record {
      start_percentage = percentage;
      target_percentage = percentage;
      started_at = sv.text_of_time now;
      duration_days = none;
      value = value;
    }

    unfoldable pub set_rollout :
        FeatureType → ℤ → Value fl → FlagState fl → FlagState fl × FlagReply
    set_rollout f percentage value s =
        if in_percent fl percentage
        then (
          put_rollout fl sv f (steady percentage value) s,
          reply_rollout_written (steady percentage value) done,
        )
        else (s, raised bad_percentage)

    abbrev pub percentage_so_far : Option (FeatureRollout fl) → ℤ
    percentage_so_far none = pos 0
    percentage_so_far (some r) = get_rollout_percentage fl sv r now

    abbrev pub timed : ℤ → ℤ → Value fl → FeatureRollout fl
    timed start days value = record {
      start_percentage = start;
      target_percentage = pos 100;
      started_at = sv.text_of_time now;
      duration_days = some days;
      value = value;
    }

    unfoldable pub set_timed_rollout :
        FeatureType → ℤ → Value fl → FlagState fl → FlagState fl × FlagReply
    set_timed_rollout f days value s =
        let step = get_rollout fl sv f s in
        if leb_ℤ days (pos 0) then (s, raised bad_days) else (
          put_rollout fl sv f (timed (percentage_so_far step.1) days value) step.0,
          reply_rollout_written (timed (percentage_so_far step.1) days value) done,
        )

    -- `min(100, …)`
    abbrev pub at_most_all : ℤ → ℤ
    at_most_all z = if leb_ℤ z (pos 100) then z else pos 100

    abbrev pub bump_found :
        FeatureType → ℤ → Option (FeatureRollout fl) → FlagState fl → FlagState fl × FlagReply
    bump_found f percentage none s = (s, raised nothing_to_bump)
    bump_found f percentage (some r) s =
        let bumped_rollout =
          steady (at_most_all (get_rollout_percentage fl sv r now +ℤ percentage)) r.value in
        (
          put_rollout fl sv f bumped_rollout s,
          reply_rollout_written bumped_rollout (bumped bumped_rollout),
        )

    unfoldable pub bump_rollout : FeatureType → ℤ → FlagState fl → FlagState fl × FlagReply
    bump_rollout f percentage s =
        let step = get_rollout fl sv f s in
        if in_percent fl percentage
        then bump_found f percentage step.1 step.0
        else (s, raised bad_percentage)
