-- ===== src/FeatureFlags/Coherence/Rollouts.antt =====
-- Reads and writes of rollouts keep Redis in agreement with the collection.
use mathlib.Core.Path.{subst}
use sophie.Prelude.{true, Option, none, some, if◌then◌else◌, ◌≡◌, refl, sym, ◌∙◌, ◌⊎◌, inl, inr}
use sophie.FeatureFlags.Numbers.{Text}
use sophie.FeatureFlags.Flags.{FeatureType, same_feature}
use sophie.FeatureFlags.Flags.Names.{same_feature_sound}
use sophie.FeatureFlags.Values.{Floats}
use sophie.FeatureFlags.Rollouts.{FeatureRollout, dict_value, Services, dict_of_rollout}
use sophie.FeatureFlags.Store.{
  get_rollout, put_rollout, delete_rollout, first_rollout, warm_rollout, cached_rollout,
  stored_rollout, FeatureFlagOverride, FlagState, write_rollout_hash, rollout_of_document, manual,
  is_storable_rollout,
}
use sophie.FeatureFlags.Coherence.{
  IsReadableRollout, AgreesRollout, IsCoherent, some_injective, after_write, after_warming,
}

module _ (fl : Floats) (sv : Services fl) where
  abbrev document_of : FeatureRollout fl → Option (FeatureFlagOverride fl)
  document_of r = some (record { value = dict_value (dict_of_rollout fl r); source = manual })

  -- the state after a write of one rollout and of its text in Redis
  abbrev written :
      FeatureType → Option (FeatureFlagOverride fl) → Option Text → FlagState fl → FlagState fl
  written f o t s = record {
    db = record {
      overrides = s.db.overrides;
      rollouts = λ g. if same_feature f g then o else s.db.rollouts g;
    };
    redis = write_rollout_hash fl f t s.redis;
  }

  written-IsCoherent :
      (f : FeatureType) (o : Option (FeatureFlagOverride fl)) (t : Option Text) (s : FlagState fl)
      → AgreesRollout fl sv f t o
      → IsCoherent fl sv s
      → IsCoherent fl sv (written f o t s)
  written-IsCoherent f o t s agree coherent = record {
    agrees = coherent.agrees;
    agrees_rollout = λ g.
        after_write fl sv (AgreesRollout fl sv g) (same_feature f g) t (s.redis.cached_rollouts g) o
          (s.db.rollouts g)
          (λ e. subst (λ h. AgreesRollout fl sv h t o) (same_feature_sound f g e) agree)
          (coherent.agrees_rollout g);
  }

  Agrees-unset : (f : FeatureType) → AgreesRollout fl sv f none none
  Agrees-unset f = record { fresh_rollout = inl refl; readable_rollout = λ r h. cc }

  Agrees-written :
      (f : FeatureType) (r : FeatureRollout fl)
      → IsReadableRollout fl sv f r
      → AgreesRollout fl sv f (some (sv.dumps r)) (document_of r)
  Agrees-written f r good = record {
    fresh_rollout = inr (good.from_redis ∙ sym good.from_db);
    readable_rollout = λ r' h.
        subst (IsReadableRollout fl sv f) (some_injective fl sv (sym good.from_db ∙ h)) good;
  }

  pub put_rollout-IsCoherent :
      (f : FeatureType) (r : FeatureRollout fl) (s : FlagState fl)
      → (is_storable_rollout fl r ≡ true → IsReadableRollout fl sv f r)
      → IsCoherent fl sv s
      → IsCoherent fl sv (put_rollout fl sv f r s)
  unfolding put_rollout
  put_rollout-IsCoherent f r s good coherent =
      let o = document_of r in
      let t = some (sv.dumps r) in
      after_warming fl sv (IsCoherent fl sv) (is_storable_rollout fl r) (written f o t s) s
        (λ h. written-IsCoherent f o t s (Agrees-written f r (good h)) coherent) coherent

  pub delete_rollout-IsCoherent :
      (f : FeatureType) (s : FlagState fl)
      → IsCoherent fl sv s
      → IsCoherent fl sv (delete_rollout fl sv f s)
  unfolding delete_rollout
  delete_rollout-IsCoherent f s = written-IsCoherent f none none s (Agrees-unset f)

  Agrees-warmed :
      (f : FeatureType) (r : FeatureRollout fl) (t : Option Text)
      (o : Option (FeatureFlagOverride fl))
      → rollout_of_document fl sv o ≡ some r
      → AgreesRollout fl sv f t o
      → AgreesRollout fl sv f (some (sv.dumps r)) o
  Agrees-warmed f r t o h agree = record {
    fresh_rollout = inr ((agree.readable_rollout r h).from_redis ∙ sym h);
    readable_rollout = agree.readable_rollout;
  }

  warm_rollout-IsCoherent :
      (f : FeatureType) (o : Option (FeatureRollout fl)) (s : FlagState fl)
      → stored_rollout fl sv f s.db ≡ o
      → IsCoherent fl sv s
      → IsCoherent fl sv (warm_rollout fl sv f o s)
  warm_rollout-IsCoherent f none s h coherent = coherent
  warm_rollout-IsCoherent f (some r) s h coherent = record {
    agrees = coherent.agrees;
    agrees_rollout = λ g.
        after_warming fl sv (λ t. AgreesRollout fl sv g t (s.db.rollouts g)) (same_feature f g)
          (some (sv.dumps r)) (s.redis.cached_rollouts g)
          (λ e.
            Agrees-warmed g r (s.redis.cached_rollouts g) (s.db.rollouts g)
              (subst (λ h'. stored_rollout fl sv h' s.db ≡ some r) (same_feature_sound f g e) h)
              (coherent.agrees_rollout g))
          (coherent.agrees_rollout g);
  }

  first_rollout-IsCoherent :
      (f : FeatureType) (found : Option (FeatureRollout fl)) (s : FlagState fl)
      → IsCoherent fl sv s
      → IsCoherent fl sv (first_rollout fl sv f found s).0
  first_rollout-IsCoherent f none s coherent =
      warm_rollout-IsCoherent f (stored_rollout fl sv f s.db) s refl coherent
  first_rollout-IsCoherent f (some v) s coherent = coherent

  pub get_rollout-IsCoherent :
      (f : FeatureType) (s : FlagState fl)
      → IsCoherent fl sv s
      → IsCoherent fl sv (get_rollout fl sv f s).0
  unfolding get_rollout
  get_rollout-IsCoherent f s = first_rollout-IsCoherent f (cached_rollout fl sv f s.redis) s

  first_rollout_lem :
      (f : FeatureType) (found : Option (FeatureRollout fl)) (s : FlagState fl)
      → (found ≡ none) ⊎ (found ≡ stored_rollout fl sv f s.db)
      → (first_rollout fl sv f found s).1 ≡ stored_rollout fl sv f s.db
  first_rollout_lem f none s fresh = refl
  first_rollout_lem f (some r) s (inl h) = cc
  first_rollout_lem f (some r) s (inr h) = h

  -- A read of a rollout through the cache gives the rollout of the document.
  pub get_rollout_lem :
      (f : FeatureType) (s : FlagState fl)
      → IsCoherent fl sv s
      → (get_rollout fl sv f s).1 ≡ stored_rollout fl sv f s.db
  unfolding get_rollout
  get_rollout_lem f s coherent =
      first_rollout_lem f (cached_rollout fl sv f s.redis) s
        (coherent.agrees_rollout f).fresh_rollout

  warm_rollout-db :
      (f : FeatureType) (o : Option (FeatureRollout fl)) (s : FlagState fl)
      → (warm_rollout fl sv f o s).db ≡ s.db
  warm_rollout-db f none s = refl
  warm_rollout-db f (some r) s = refl

  first_rollout-db :
      (f : FeatureType) (found : Option (FeatureRollout fl)) (s : FlagState fl)
      → (first_rollout fl sv f found s).0.db ≡ s.db
  first_rollout-db f none s = warm_rollout-db f (stored_rollout fl sv f s.db) s
  first_rollout-db f (some r) s = refl

  pub get_rollout-db : (f : FeatureType) (s : FlagState fl) → (get_rollout fl sv f s).0.db ≡ s.db
  unfolding get_rollout
  get_rollout-db f s = first_rollout-db f (cached_rollout fl sv f s.redis) s
