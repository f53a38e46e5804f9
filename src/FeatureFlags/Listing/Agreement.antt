-- ===== src/FeatureFlags/Listing/Agreement.antt =====
-- The listings agree with the answers of single flags, flag by flag.
use sophie.Prelude.{ℕ, Option, none, some, List, [], ◌∷◌, ◌≡◌, refl, sym, ◌∙◌, ap}
use sophie.FeatureFlags.Flags.{FeatureType, feature_flags}
use sophie.FeatureFlags.Definitions.{get_default_value}
use sophie.FeatureFlags.Values.{Floats, Value}
use sophie.FeatureFlags.Rollouts.{Services}
use sophie.FeatureFlags.Store.{FlagState, Collection, stored_value, warm}
use sophie.FeatureFlags.Service.{get_value}
use sophie.FeatureFlags.Coherence.{IsCoherent}
use sophie.FeatureFlags.Coherence.Overrides.{warm-IsCoherent, warm-db}
use sophie.FeatureFlags.Spec.{effective_value, or_value}
use sophie.FeatureFlags.Spec.Refinement.{get_value-Refines}
use sophie.FeatureFlags.Listing.{warm_all, list_all, merged}

module _ (fl : Floats) (sv : Services fl) where
  warm_all-IsCoherent :
      (chat : Option ℕ) (flags : List FeatureType) (s : FlagState fl)
      → IsCoherent fl sv s
      → IsCoherent fl sv (warm_all fl chat flags s)
  unfolding warm_all
  warm_all-IsCoherent chat [] s coherent = coherent
  warm_all-IsCoherent chat (f ∷ rest) s coherent =
      warm_all-IsCoherent chat rest (warm fl f chat (stored_value fl f chat s.db) s)
        (warm-IsCoherent fl sv f chat (stored_value fl f chat s.db) s refl coherent)

  warm_all-db :
      (chat : Option ℕ) (flags : List FeatureType) (s : FlagState fl)
      → (warm_all fl chat flags s).db ≡ s.db
  unfolding warm_all
  warm_all-db chat [] s = refl
  warm_all-db chat (f ∷ rest) s =
      warm_all-db chat rest (warm fl f chat (stored_value fl f chat s.db) s)
      ∙ warm-db fl sv f chat (stored_value fl f chat s.db) s

  merged_lem :
      (now : ℕ) (f : FeatureType) (db : Collection fl)
      → (effective_value fl sv now f none db).1 ≡ some (merged fl f (stored_value fl f none db))
  merged_lem now f db = found (stored_value fl f none db)
    where
      found :
          (o : Option (Value fl))
          → (or_value fl sv now o db (db, some (get_default_value fl f))).1 ≡ some (merged fl f o)
      found none = refl
      found (some v) = refl

  -- Where Redis agrees with the collection, the list of all flags shows for each the value that the
  -- flag is answered without a chat, then and after the listing.
  pub list_all-get_value :
      (now : ℕ) (f : FeatureType) (s : FlagState fl)
      → IsCoherent fl sv s
      → (some ((list_all fl s).1 f) ≡ (get_value fl sv now f none s).1)
        × (some ((list_all fl s).1 f) ≡ (get_value fl sv now f none (list_all fl s).0).1)
  list_all-get_value now f s coherent =
      let all = (list_all fl s).0 in
      let before = get_value-Refines fl sv now f none s coherent in
      let after =
        get_value-Refines fl sv now f none all
          (warm_all-IsCoherent none feature_flags s coherent) in
      (
        sym (before.same_reply ∙ merged_lem now f s.db),
        sym (
            after.same_reply
            ∙ merged_lem now f all.db
            ∙ ap (λ db. some (merged fl f (stored_value fl f none db)))
                (warm_all-db none feature_flags s)),
      )
