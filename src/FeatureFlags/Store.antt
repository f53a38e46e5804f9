-- ===== src/FeatureFlags/Store.antt =====
-- The stored flags (sophie_bot/db/models/feature_flag.py and sophie_bot/utils/feature_flags.py): the
-- collection of overrides, the Redis hashes over it, and the functions that read and write both.
-- `none` for a chat is a document without `chat_tid`, and the hash `sophie:kill_switch`. The rollout
-- of a flag is the document of the feature "__rollout__:<flag>", which is no flag's name.
use sophie.Prelude.{ℕ, leb, Bool, true, false, ◌&&◌, Option, none, some, if◌then◌else◌, ◌==◌}
use sophie.Prelude.Int.{ℤ, pos_part, neg_part}
use sophie.FeatureFlags.Numbers.{Text}
use sophie.FeatureFlags.Flags.{FeatureType, same_feature}
use sophie.FeatureFlags.Definitions.{get_default_value}
use sophie.FeatureFlags.Values.{
  Floats, bool_value, int_value, float_value, str_value, Value, parse_feature_override,
  serialize_feature_value,
}
use sophie.FeatureFlags.Rollouts.{
  FeatureRollout, DbValue, plain_value, dict_value, Services, coerce_db_value, dict_of_rollout,
  coerce_rollout, coerce_rollout_text,
}

pub data FeatureFlagOverrideSource : Type 0 where
  manual rollout : FeatureFlagOverrideSource

abbrev pub same_chat : Option ℕ → Option ℕ → Bool
same_chat none none = true
same_chat (some a) (some b) = a == b
same_chat none (some b) = false
same_chat (some a) none = false

-- the same document, or the same field of the same hash
abbrev pub same_place : FeatureType → Option ℕ → FeatureType → Option ℕ → Bool
same_place f chat g chat' = same_feature f g && same_chat chat chat'

-- Mongo's integers are of 8 bytes.
abbrev pub fits : ℤ → Bool
fits z = leb (pos_part z) 9223372036854775807 && leb (neg_part z) 9223372036854775808

abbrev pub days_fit : Option ℤ → Bool
days_fit none = true
days_fit (some z) = fits z

module _ (fl : Floats) where
  -- Does Mongo take the value? If not, the write of the document raises `OverflowError`, and what
  -- follows it in a call does not happen.
  abbrev pub is_storable : Value fl → Bool
  is_storable (bool_value b) = true
  is_storable (int_value z) = fits z
  is_storable (float_value x) = true
  is_storable (str_value s) = true

  abbrev pub is_storable_rollout : FeatureRollout fl → Bool
  is_storable_rollout r =
      is_storable r.value
      && (fits r.start_percentage && (fits r.target_percentage && days_fit r.duration_days))

  pub record FeatureFlagOverride : Type 0 where
    pub value : DbValue fl
    pub source : FeatureFlagOverrideSource

  pub record Collection : Type 0 where
    pub overrides : FeatureType → Option ℕ → Option FeatureFlagOverride
    pub rollouts : FeatureType → Option FeatureFlagOverride

  pub record Redis : Type 0 where
    pub cached : FeatureType → Option ℕ → Option Text
    pub cached_rollouts : FeatureType → Option Text

  pub record FlagState : Type 0 where
    pub db : Collection
    pub redis : Redis

  -- what `FeatureFlagOverride.set_override` does to the collection when Mongo takes the document, of
  -- a flag and of a rollout
  abbrev pub put_document :
      FeatureType → Value fl → Option ℕ → FeatureFlagOverrideSource → Collection → Collection
  put_document f v chat source db = record {
    overrides = λ g chat'.
        if same_place f chat g chat'
        then some (record { value = plain_value v; source = source })
        else db.overrides g chat';
    rollouts = db.rollouts;
  }

  abbrev pub put_rollout_document : FeatureType → FeatureRollout fl → Collection → Collection
  put_rollout_document f r db = record {
    overrides = db.overrides;
    rollouts = λ g.
        if same_feature f g
        then some (record { value = dict_value (dict_of_rollout fl r); source = manual })
        else db.rollouts g;
  }

  -- `FeatureFlagOverride.set_override` of a flag, and of a rollout; it raises for a document that Mongo
  -- does not take
  abbrev pub set_document :
      FeatureType → Value fl → Option ℕ → FeatureFlagOverrideSource → Collection → Collection
  set_document f v chat source db = if is_storable v then put_document f v chat source db else db

  abbrev pub set_rollout_document : FeatureType → FeatureRollout fl → Collection → Collection
  set_rollout_document f r db = if is_storable_rollout r then put_rollout_document f r db else db

  -- `FeatureFlagOverride.delete_override`
  abbrev pub delete_document : FeatureType → Option ℕ → Collection → Collection
  delete_document f chat db = record {
    overrides = λ g chat'. if same_place f chat g chat' then none else db.overrides g chat';
    rollouts = db.rollouts;
  }

  abbrev pub delete_rollout_document : FeatureType → Collection → Collection
  delete_rollout_document f db = record {
    overrides = db.overrides;
    rollouts = λ g. if same_feature f g then none else db.rollouts g;
  }

  -- `redis.hset` and `redis.hdel` of a hash of overrides, and of the rollouts
  abbrev pub write_hash : FeatureType → Option ℕ → Option Text → Redis → Redis
  write_hash f chat t redis = record {
    cached = λ g chat'. if same_place f chat g chat' then t else redis.cached g chat';
    cached_rollouts = redis.cached_rollouts;
  }

  abbrev pub write_rollout_hash : FeatureType → Option Text → Redis → Redis
  write_rollout_hash f t redis = record {
    cached = redis.cached;
    cached_rollouts = λ g. if same_feature f g then t else redis.cached_rollouts g;
  }

  -- what Redis and the collection say of a flag's override
  abbrev pub cached_value : FeatureType → Option ℕ → Redis → Option (Value fl)
  cached_value f chat redis =
      parse_feature_override fl (redis.cached f chat) (get_default_value fl f)

  abbrev pub value_of_document : Option FeatureFlagOverride → Option (Value fl)
  value_of_document none = none
  value_of_document (some o) = coerce_db_value fl o.value

  abbrev pub stored_value : FeatureType → Option ℕ → Collection → Option (Value fl)
  stored_value f chat db = value_of_document (db.overrides f chat)

  abbrev pub warm : FeatureType → Option ℕ → Option (Value fl) → FlagState → FlagState
  warm f chat none s = s
  warm f chat (some v) s = record {
    db = s.db;
    redis = write_hash f chat (some (serialize_feature_value fl v)) s.redis;
  }

  -- the value in Redis, if any, and otherwise that of the document, which is cached
  abbrev pub first_found :
      FeatureType → Option ℕ → Option (Value fl) → FlagState → FlagState × Option (Value fl)
  first_found f chat (some v) s = (s, some v)
  first_found f chat none s = (warm f chat (stored_value f chat s.db) s, stored_value f chat s.db)

  -- `_resolve_cached_override`, of the flag or of the flag in a chat
  unfoldable pub resolve_cached_override :
      FeatureType → Option ℕ → FlagState → FlagState × Option (Value fl)
  resolve_cached_override f chat s = first_found f chat (cached_value f chat s.redis) s

  -- `_set_override` and `_set_chat_override`; they raise for a value that Mongo does not take
  unfoldable pub set_override :
      FeatureType → Option ℕ → Value fl → FeatureFlagOverrideSource → FlagState → FlagState
  set_override f chat v source s =
      if is_storable v
      then record {
        db = put_document f v chat source s.db;
        redis = write_hash f chat (some (serialize_feature_value fl v)) s.redis;
      }
      else s

  -- `delete_override` and `delete_chat_override`
  unfoldable pub delete_override : FeatureType → Option ℕ → FlagState → FlagState
  delete_override f chat s = record {
    db = delete_document f chat s.db;
    redis = write_hash f chat none s.redis;
  }

  module _ (sv : Services fl) where
    abbrev pub rollout_of_text : Option Text → Option (FeatureRollout fl)
    rollout_of_text none = none
    rollout_of_text (some t) = coerce_rollout_text fl sv t

    abbrev pub rollout_of_document : Option FeatureFlagOverride → Option (FeatureRollout fl)
    rollout_of_document none = none
    rollout_of_document (some o) = coerce_rollout fl sv o.value

    abbrev pub cached_rollout : FeatureType → Redis → Option (FeatureRollout fl)
    cached_rollout f redis = rollout_of_text (redis.cached_rollouts f)

    abbrev pub stored_rollout : FeatureType → Collection → Option (FeatureRollout fl)
    stored_rollout f db = rollout_of_document (db.rollouts f)

    abbrev pub warm_rollout : FeatureType → Option (FeatureRollout fl) → FlagState → FlagState
    warm_rollout f none s = s
    warm_rollout f (some r) s = record {
      db = s.db;
      redis = write_rollout_hash f (some (sv.dumps r)) s.redis;
    }

    abbrev pub first_rollout :
        FeatureType
        → Option (FeatureRollout fl)
        → FlagState
        → FlagState × Option (FeatureRollout fl)
    first_rollout f (some r) s = (s, some r)
    first_rollout f none s = (warm_rollout f (stored_rollout f s.db) s, stored_rollout f s.db)

    unfoldable pub get_rollout : FeatureType → FlagState → FlagState × Option (FeatureRollout fl)
    get_rollout f s = first_rollout f (cached_rollout f s.redis) s

    -- `_set_rollout`; it raises for a rollout that Mongo does not take
    unfoldable pub put_rollout : FeatureType → FeatureRollout fl → FlagState → FlagState
    put_rollout f r s =
        if is_storable_rollout r
        then record {
          db = put_rollout_document f r s.db;
          redis = write_rollout_hash f (some (sv.dumps r)) s.redis;
        }
        else s

    unfoldable pub delete_rollout : FeatureType → FlagState → FlagState
    delete_rollout f s = record {
      db = delete_rollout_document f s.db;
      redis = write_rollout_hash f none s.redis;
    }
