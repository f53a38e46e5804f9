-- ===== src/FeatureFlags/Listing.antt =====
-- The listings of flags (sophie_bot/utils/feature_flags.py: get_all_overrides, list_chat_overrides,
-- list_rollouts, list_all). A dictionary of flags is a function. A document of a feature that is no
-- flag is passed over, so the documents read are those of the flags, in the order of FEATURE_FLAGS.
pub mod Agreement
use sophie.Prelude.{ℕ, Option, none, some, List, [], ◌∷◌}
use sophie.FeatureFlags.Flags.{FeatureType, feature_flags}
use sophie.FeatureFlags.Definitions.{get_default_value}
use sophie.FeatureFlags.Values.{Floats, Value}
use sophie.FeatureFlags.Rollouts.{FeatureRollout, Services}
use sophie.FeatureFlags.Store.{FlagState, stored_value, stored_rollout, warm, warm_rollout}

module _ (fl : Floats) where
  -- `_cache_serialized_values` of the values found
  unfoldable pub warm_all : Option ℕ → List FeatureType → FlagState fl → FlagState fl
  warm_all chat [] s = s
  warm_all chat (f ∷ rest) s = warm_all chat rest (warm fl f chat (stored_value fl f chat s.db) s)

  abbrev pub get_all_overrides : FlagState fl → FlagState fl × (FeatureType → Option (Value fl))
  get_all_overrides s = (warm_all none feature_flags s, λ f. stored_value fl f none s.db)

  abbrev pub list_chat_overrides :
      ℕ → FlagState fl → FlagState fl × (FeatureType → Option (Value fl))
  list_chat_overrides c s =
      (warm_all (some c) feature_flags s, λ f. stored_value fl f (some c) s.db)

  -- `merged.update(…)` over the default of a flag
  abbrev pub merged : FeatureType → Option (Value fl) → Value fl
  merged f none = get_default_value fl f
  merged f (some v) = v

  abbrev pub list_all : FlagState fl → FlagState fl × (FeatureType → Value fl)
  list_all s = let all = get_all_overrides s in (all.0, λ f. merged f (all.1 f))

  module _ (sv : Services fl) where
    unfoldable pub warm_all_rollouts : List FeatureType → FlagState fl → FlagState fl
    warm_all_rollouts [] s = s
    warm_all_rollouts (f ∷ rest) s =
        warm_all_rollouts rest (warm_rollout fl sv f (stored_rollout fl sv f s.db) s)

    abbrev pub list_rollouts :
        FlagState fl → FlagState fl × (FeatureType → Option (FeatureRollout fl))
    list_rollouts s = (warm_all_rollouts feature_flags s, λ f. stored_rollout fl sv f s.db)
