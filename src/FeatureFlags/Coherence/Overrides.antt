-- ===== src/FeatureFlags/Coherence/Overrides.antt =====
-- Reads and writes of the overrides of flags keep Redis in agreement with the collection.
use mathlib.Core.Path.{subst}
use sophie.Prelude.{ℕ, Option, none, some, if◌then◌else◌, ◌≡◌, refl, sym, ◌∙◌, ◌⊎◌, inl, inr}
use sophie.FeatureFlags.Numbers.{Text}
use sophie.FeatureFlags.Flags.{FeatureType}
use sophie.FeatureFlags.Values.{Floats, Value, parse_feature_override, serialize_feature_value}
use sophie.FeatureFlags.Rollouts.{plain_value, Services}
use sophie.FeatureFlags.Store.{
  same_place, FeatureFlagOverride, FlagState, write_hash, set_override, delete_override,
  resolve_cached_override, first_found, warm, FeatureFlagOverrideSource, cached_value,
  value_of_document, stored_value, is_storable,
}
use sophie.FeatureFlags.Coherence.{
  IsReadable, Agrees, IsCoherent, some_injective, same_place_feature, same_place_chat, after_write,
  after_warming,
}

module _ (fl : Floats) (sv : Services fl) where
  -- the state after a write of one override and of its text in Redis
  abbrev written :
      FeatureType
      → Option ℕ
      → Option (FeatureFlagOverride fl)
      → Option Text
      → FlagState fl
      → FlagState fl
  written f chat o t s = record {
    db = record {
      overrides = λ g chat'. if same_place f chat g chat' then o else s.db.overrides g chat';
      rollouts = s.db.rollouts;
    };
    redis = write_hash fl f chat t s.redis;
  }

  written-IsCoherent :
      (f : FeatureType) (chat : Option ℕ) (o : Option (FeatureFlagOverride fl)) (t : Option Text)
      (s : FlagState fl)
      → Agrees fl sv f t o
      → IsCoherent fl sv s
      → IsCoherent fl sv (written f chat o t s)
  written-IsCoherent f chat o t s agree coherent = record {
    agrees = λ g chat'.
        after_write fl sv (Agrees fl sv g) (same_place f chat g chat') t (s.redis.cached g chat') o
          (s.db.overrides g chat')
          (λ e. subst (λ h. Agrees fl sv h t o) (same_place_feature fl sv f g chat chat' e) agree)
          (coherent.agrees g chat');
    agrees_rollout = coherent.agrees_rollout;
  }

  Agrees-unset : (f : FeatureType) → Agrees fl sv f none none
  unfolding parse_feature_override
  Agrees-unset f = record { fresh = inl refl; readable = λ v h. cc }

  Agrees-written :
      (f : FeatureType) (v : Value fl) (source : FeatureFlagOverrideSource)
      → IsReadable fl sv f v
      → Agrees fl sv f
          (some (serialize_feature_value fl v))
          (some (record { value = plain_value v; source = source }))
  Agrees-written f v source good = record {
    fresh = inr good;
    readable = λ w h. subst (IsReadable fl sv f) (some_injective fl sv h) good;
  }

  pub set_override-IsCoherent :
      (f : FeatureType) (chat : Option ℕ) (v : Value fl) (source : FeatureFlagOverrideSource)
      (s : FlagState fl)
      → IsReadable fl sv f v
      → IsCoherent fl sv s
      → IsCoherent fl sv (set_override fl f chat v source s)
  unfolding set_override
  set_override-IsCoherent f chat v source s good coherent =
      let o : Option (FeatureFlagOverride fl) =
        some (record { value = plain_value v; source = source }) in
      let t = some (serialize_feature_value fl v) in
      after_warming fl sv (IsCoherent fl sv) (is_storable fl v) (written f chat o t s) s
        (λ _. written-IsCoherent f chat o t s (Agrees-written f v source good) coherent) coherent

  pub delete_override-IsCoherent :
      (f : FeatureType) (chat : Option ℕ) (s : FlagState fl)
      → IsCoherent fl sv s
      → IsCoherent fl sv (delete_override fl f chat s)
  unfolding delete_override
  delete_override-IsCoherent f chat s = written-IsCoherent f chat none none s (Agrees-unset f)

  abbrev warmed : FeatureType → Option ℕ → Option Text → FlagState fl → FlagState fl
  warmed f chat t s = record { db = s.db; redis = write_hash fl f chat t s.redis }

  Agrees-warmed :
      (f : FeatureType) (v : Value fl) (t : Option Text) (o : Option (FeatureFlagOverride fl))
      → value_of_document fl o ≡ some v
      → Agrees fl sv f t o
      → Agrees fl sv f (some (serialize_feature_value fl v)) o
  Agrees-warmed f v t o h agree = record {
    fresh = inr (agree.readable v h ∙ sym h);
    readable = agree.readable;
  }

  pub warm-IsCoherent :
      (f : FeatureType) (chat : Option ℕ) (o : Option (Value fl)) (s : FlagState fl)
      → stored_value fl f chat s.db ≡ o
      → IsCoherent fl sv s
      → IsCoherent fl sv (warm fl f chat o s)
  warm-IsCoherent f chat none s h coherent = coherent
  warm-IsCoherent f chat (some v) s h coherent = record {
    agrees = λ g chat'.
        after_warming fl sv (λ t. Agrees fl sv g t (s.db.overrides g chat'))
          (same_place f chat g chat') (some (serialize_feature_value fl v)) (s.redis.cached g chat')
          (λ e.
            Agrees-warmed g v (s.redis.cached g chat') (s.db.overrides g chat')
              (subst (λ h'. stored_value fl h' chat' s.db ≡ some v)
                (same_place_feature fl sv f g chat chat' e)
                (subst (λ c. stored_value fl f c s.db ≡ some v)
                  (same_place_chat fl sv f g chat chat' e) h))
              (coherent.agrees g chat'))
          (coherent.agrees g chat');
    agrees_rollout = coherent.agrees_rollout;
  }

  first_found-IsCoherent :
      (f : FeatureType) (chat : Option ℕ) (found : Option (Value fl)) (s : FlagState fl)
      → IsCoherent fl sv s
      → IsCoherent fl sv (first_found fl f chat found s).0
  first_found-IsCoherent f chat none s coherent =
      warm-IsCoherent f chat (stored_value fl f chat s.db) s refl coherent
  first_found-IsCoherent f chat (some v) s coherent = coherent

  pub resolve_cached_override-IsCoherent :
      (f : FeatureType) (chat : Option ℕ) (s : FlagState fl)
      → IsCoherent fl sv s
      → IsCoherent fl sv (resolve_cached_override fl f chat s).0
  unfolding resolve_cached_override
  resolve_cached_override-IsCoherent f chat s =
      first_found-IsCoherent f chat (cached_value fl f chat s.redis) s

  first_found_lem :
      (f : FeatureType) (chat : Option ℕ) (found : Option (Value fl)) (s : FlagState fl)
      → (found ≡ none) ⊎ (found ≡ stored_value fl f chat s.db)
      → (first_found fl f chat found s).1 ≡ stored_value fl f chat s.db
  first_found_lem f chat none s fresh = refl
  first_found_lem f chat (some v) s (inl h) = cc
  first_found_lem f chat (some v) s (inr h) = h

  -- A read through the cache gives the value of the document.
  pub resolve_cached_override_lem :
      (f : FeatureType) (chat : Option ℕ) (s : FlagState fl)
      → IsCoherent fl sv s
      → (resolve_cached_override fl f chat s).1 ≡ stored_value fl f chat s.db
  unfolding resolve_cached_override
  resolve_cached_override_lem f chat s coherent =
      first_found_lem f chat (cached_value fl f chat s.redis) s (coherent.agrees f chat).fresh

  pub warm-db :
      (f : FeatureType) (chat : Option ℕ) (o : Option (Value fl)) (s : FlagState fl)
      → (warm fl f chat o s).db ≡ s.db
  warm-db f chat none s = refl
  warm-db f chat (some v) s = refl

  first_found-db :
      (f : FeatureType) (chat : Option ℕ) (found : Option (Value fl)) (s : FlagState fl)
      → (first_found fl f chat found s).0.db ≡ s.db
  first_found-db f chat none s = warm-db f chat (stored_value fl f chat s.db) s
  first_found-db f chat (some v) s = refl

  pub resolve_cached_override-db :
      (f : FeatureType) (chat : Option ℕ) (s : FlagState fl)
      → (resolve_cached_override fl f chat s).0.db ≡ s.db
  unfolding resolve_cached_override
  resolve_cached_override-db f chat s = first_found-db f chat (cached_value fl f chat s.redis) s
