-- ===== src/FeatureFlags/Rollouts.antt =====
-- Rollouts of a flag to a percentage of the chats (sophie_bot/utils/feature_flags.py: FeatureRollout,
-- the coercions, and the percentage at a time). Times are microseconds since a fixed moment.

use sophie.Prelude.{
  ℕ, zero, suc, ◌>>=◌, ◌-◌, ◌*◌, ◌%◌, Bool, ◌&&◌, not, Option, none, some, if◌then◌else◌, leb,
}
use sophie.Prelude.Int.{ℤ, pos, negsuc, ◌+ℤ◌, leb_ℤ, pos_part}
use sophie.FeatureFlags.Numbers.{Text}
use sophie.FeatureFlags.Flags.{FeatureType}
use sophie.FeatureFlags.Values.{Floats, bool_value, int_value, float_value, str_value, Value, bit}

module _ (fl : Floats) where
  pub record FeatureRollout : Type 0 where
    pub start_percentage : ℤ
    pub target_percentage : ℤ
    pub started_at : Text
    pub duration_days : Option ℤ
    pub value : Value fl

  -- What `dict.get` gives for a key of a stored dictionary: `None`, one of the values of flags, or
  -- something else.
  pub data Field : Type 0 where
    missing : Field
    scalar : Value fl → Field
    compound : Field

  -- the keys of a stored dictionary that the code reads
  pub record RolloutDict : Type 0 where
    pub start_field : Field
    pub target_field : Field
    pub started_field : Field
    pub duration_field : Field
    pub value_field : Field

  -- The `value` of a document: any value that Mongo stores.
  pub data DbValue : Type 0 where
    plain_value : Value fl → DbValue
    dict_value : RolloutDict → DbValue
    other_value : DbValue

  -- What the rollouts use of other packages: `json.dumps`, `json.loads` (`none` is its error),
  -- `datetime.isoformat` of a time in UTC and `datetime.fromisoformat`, and the first eight bytes of
  -- the sha256 digest of "<flag>:<chat>", as a number.
  pub record Services : Type 0 where
    pub dumps : FeatureRollout → Text
    pub loads : Text → Option DbValue
    pub text_of_time : ℕ → Text
    pub time_of_text : Text → Option ℕ
    pub digest : FeatureType → ℕ → ℕ

  abbrev pub coerce_db_value : DbValue → Option (Value fl)
  coerce_db_value (plain_value v) = some v
  coerce_db_value (dict_value d) = none
  coerce_db_value other_value = none

  -- a dictionary's field, read by `_coerce_db_value`
  abbrev pub coerce_field : Field → Option (Value fl)
  coerce_field (scalar v) = some v
  coerce_field missing = none
  coerce_field compound = none

  abbrev pub in_percent : ℤ → Bool
  in_percent z = leb_ℤ (pos 0) z && leb_ℤ z (pos 100)

  -- `isinstance(value, int)` holds for Booleans too
  abbrev pub int_of_field : Field → Option ℤ
  int_of_field (scalar (int_value z)) = some z
  int_of_field (scalar (bool_value b)) = some (pos (bit fl b))
  int_of_field (scalar (float_value x)) = none
  int_of_field (scalar (str_value s)) = none
  int_of_field missing = none
  int_of_field compound = none

  abbrev pub checked_percentage : ℤ → Option ℤ
  checked_percentage z = if in_percent z then some z else none

  abbrev pub coerce_percentage : Field → Option ℤ
  coerce_percentage field = elim (int_of_field field) [
    | none ↦ none
    | some z ↦ checked_percentage z
  ]

  -- The duration of a stored rollout: `none` where the rollout is refused for it.
  abbrev pub checked_duration : ℤ → Option (Option ℤ)
  checked_duration z = if leb_ℤ z (pos 0) then none else some (some z)

  abbrev pub coerce_duration : Field → Option (Option ℤ)
  coerce_duration missing = some none
  coerce_duration (scalar v) = elim (int_of_field (scalar v)) [
    | none ↦ none
    | some z ↦ checked_duration z
  ]
  coerce_duration compound = none

  -- `_serialize_rollout` and `FeatureFlagOverride.set_override` write the same dictionary
  abbrev pub dict_of_rollout : FeatureRollout → RolloutDict
  dict_of_rollout r = record {
    start_field = scalar (int_value r.start_percentage);
    target_field = scalar (int_value r.target_percentage);
    started_field = scalar (str_value r.started_at);
    duration_field = elim r.duration_days [ none ↦ missing | some z ↦ scalar (int_value z) ];
    value_field = scalar r.value;
  }

  module _ (sv : Services) where
    abbrev pub parse_datetime : Field → Option ℕ
    parse_datetime (scalar (str_value s)) = sv.time_of_text s
    parse_datetime (scalar (bool_value b)) = none
    parse_datetime (scalar (int_value z)) = none
    parse_datetime (scalar (float_value x)) = none
    parse_datetime missing = none
    parse_datetime compound = none

    unfoldable pub coerce_dict : RolloutDict → Option FeatureRollout
    coerce_dict d = do
      value ← coerce_field d.value_field
      duration ← coerce_duration d.duration_field
      start ← coerce_percentage d.start_field
      target ← coerce_percentage d.target_field
      started ← parse_datetime d.started_field
      some (record {
        start_percentage = start;
        target_percentage = target;
        started_at = sv.text_of_time started;
        duration_days = duration;
        value = value;
      })

    -- what `json.loads` gave, if it is a dictionary
    abbrev pub coerce_loaded : Option DbValue → Option FeatureRollout
    coerce_loaded (some (dict_value d)) = coerce_dict d
    coerce_loaded (some (plain_value v)) = none
    coerce_loaded (some other_value) = none
    coerce_loaded none = none

    abbrev pub coerce_rollout_text : Text → Option FeatureRollout
    coerce_rollout_text s = coerce_loaded (sv.loads s)

    abbrev pub coerce_rollout : DbValue → Option FeatureRollout
    coerce_rollout (plain_value (str_value s)) = coerce_rollout_text s
    coerce_rollout (plain_value (bool_value b)) = none
    coerce_rollout (plain_value (int_value z)) = none
    coerce_rollout (plain_value (float_value x)) = none
    coerce_rollout (dict_value d) = coerce_dict d
    coerce_rollout other_value = none

    -- the microseconds of `timedelta(days=…)`
    abbrev pub duration_of_days : ℤ → ℕ
    duration_of_days days = pos_part days * 86400000000

    abbrev pub negate : ℤ → ℤ
    negate (pos zero) = pos 0
    negate (pos (suc n)) = negsuc n
    negate (negsuc n) = pos (suc n)

    -- `int(start + (target - start) * (elapsed / duration))`
    abbrev pub percentage_in_progress : FeatureRollout → ℕ → ℕ → ℤ
    percentage_in_progress r elapsed duration = fl.truncate (
        fl.plus r.start_percentage (
          fl.times (r.target_percentage +ℤ negate r.start_percentage)
            (fl.divide (fl.total_seconds elapsed) (fl.total_seconds duration))))

    abbrev pub timed_percentage : FeatureRollout → ℕ → ℕ → ℕ → ℤ
    timed_percentage r duration started now =
        if leb now started
        then r.start_percentage
        else if leb duration (now - started)
        then r.target_percentage
        else percentage_in_progress r (now - started) duration

    abbrev pub running_percentage : FeatureRollout → ℤ → Option ℕ → ℕ → ℤ
    running_percentage r days none now = r.start_percentage
    running_percentage r days (some started) now =
        timed_percentage r (duration_of_days days) started now

    abbrev pub percentage_for : FeatureRollout → Option ℤ → ℕ → ℤ
    percentage_for r none now = r.target_percentage
    percentage_for r (some days) now = running_percentage r days (sv.time_of_text r.started_at) now

    unfoldable pub get_rollout_percentage : FeatureRollout → ℕ → ℤ
    get_rollout_percentage r now = percentage_for r r.duration_days now

    abbrev pub chat_rollout_bucket : FeatureType → ℕ → ℕ
    chat_rollout_bucket feature chat_tid = sv.digest feature chat_tid % 100

    abbrev pub is_chat_in_rollout : FeatureType → ℕ → ℤ → Bool
    is_chat_in_rollout feature chat_tid percentage =
        not (leb_ℤ percentage (pos 0))
        && not (leb_ℤ percentage (pos (chat_rollout_bucket feature chat_tid)))
