-- ===== src/FeatureFlags/Spec/Runs.antt =====
-- Every request on flags, and every run of requests, keeps its promise.
use mathlib.Core.Path.{subst}
use sophie.Prelude.{
  ℕ, true, Option, none, some, List, [], ◌∷◌, arith, if◌then◌else◌, ◌≡◌, refl, sym, ◌∙◌, ap,
}
use sophie.Prelude.Int.{ℤ, pos, ◌+ℤ◌, leb_ℤ}
use sophie.FeatureFlags.Flags.{FeatureType}
use sophie.FeatureFlags.Values.{Floats}
use sophie.FeatureFlags.Rollouts.{FeatureRollout, Services, get_rollout_percentage, in_percent}
use sophie.FeatureFlags.Store.{
  manual, Collection, FlagState, set_rollout_document, delete_override, delete_rollout, get_rollout,
  put_rollout, is_storable, is_storable_rollout,
}
use sophie.FeatureFlags.Service.{
  done, bumped, reply_written, reply_rollout_written, raised, bad_percentage, bad_days,
  nothing_to_bump, steady, timed, percentage_so_far, at_most_all, set_rollout, set_timed_rollout,
  bump_rollout, bump_found,
}
use sophie.FeatureFlags.Coherence.{IsReadable, IsReadableRollout, IsCoherent}
use sophie.FeatureFlags.Coherence.Overrides.{delete_override-IsCoherent}
use sophie.FeatureFlags.Coherence.Rollouts.{
  delete_rollout-IsCoherent, get_rollout-IsCoherent, get_rollout_lem, get_rollout-db,
}
use sophie.FeatureFlags.Coherence.Percentages.{
  ServiceLaws, steady-IsReadableRollout, timed-IsReadableRollout, percentage_so_far_in,
  at_most_all_in,
}
use sophie.FeatureFlags.Spec.{
  Request, ask, override, clear, roll_out, roll_out_over, bump, end_rollout, bump_stored, promised,
  answer_of, performed, promises, runs,
}
use sophie.FeatureFlags.Spec.Refinement.{
  Refines, set_override-Refines, put_rollout-Refines, kept, either, get_value-Refines,
}

module _ (fl : Floats) (sv : Services fl) where
  module _ (now : ℕ) where
    abbrev pub IsAdmissible : Request fl → Type 0
    IsAdmissible (override f chat v) = IsReadable fl sv f v
    IsAdmissible (roll_out f percentage v) = IsReadable fl sv f v
    IsAdmissible (roll_out_over f days v) = IsReadable fl sv f v
    IsAdmissible (ask f chat) = Unit
    IsAdmissible (clear f chat) = Unit
    IsAdmissible (bump f percentage) = Unit
    IsAdmissible (end_rollout f) = Unit

    value_storable :
        (r : FeatureRollout fl) → is_storable_rollout fl r ≡ true → is_storable fl r.value ≡ true
    value_storable r h = ground arith

    found_readable :
        (f : FeatureType) (s : FlagState fl)
        → IsCoherent fl sv s
        → (r : FeatureRollout fl) → (get_rollout fl sv f s).1 ≡ some r
        → IsReadableRollout fl sv f r
    found_readable f s coherent r h =
        (coherent.agrees_rollout f).readable_rollout r
          (sym (get_rollout_lem fl sv f s coherent) ∙ h)

    module _ (laws : ServiceLaws fl sv) where
      bump_found-Refines :
          (f : FeatureType) (percentage : ℤ) (o : Option (FeatureRollout fl)) (s : FlagState fl)
          (db : Collection fl)
          → s.db ≡ db
          → ((r : FeatureRollout fl) → o ≡ some r → IsReadableRollout fl sv f r)
          → in_percent fl percentage ≡ true
          → IsCoherent fl sv s
          → Refines fl sv
              (bump_found fl sv now f percentage o s)
              (bump_stored fl sv now f percentage o db)
      bump_found-Refines f percentage none s db e good h coherent =
          kept fl sv (raised nothing_to_bump) s db e coherent
      bump_found-Refines f percentage (some r) s db e good h coherent =
          let p = at_most_all fl sv now (get_rollout_percentage fl sv r now +ℤ percentage) in
          put_rollout-Refines fl sv f (steady fl sv now p r.value)
            (reply_rollout_written fl (steady fl sv now p r.value)
              (bumped (steady fl sv now p r.value)))
            s db e
            (λ _.
              steady-IsReadableRollout fl sv laws now f p r.value
                (at_most_all_in fl sv laws now (get_rollout_percentage fl sv r now) percentage
                  (percentage_so_far_in fl sv laws f now (some r) good) h)
                (good r refl).its_value (good r refl).its_storable)
            coherent

      -- A request keeps its promise in any state where Redis agrees with the collection.
      pub performed-Refines :
          (request : Request fl) (s : FlagState fl)
          → IsAdmissible request
          → IsCoherent fl sv s
          → Refines fl sv (performed fl sv now request s) (promised fl sv now request s.db)
      unfolding set_rollout set_timed_rollout bump_rollout delete_override delete_rollout
      performed-Refines (ask f chat) s good coherent =
          let asked = get_value-Refines fl sv now f chat s coherent in
          record {
            same_db = asked.same_db;
            same_reply = ap (answer_of fl sv now) asked.same_reply;
            coherent = asked.coherent;
          }
      performed-Refines (override f chat v) s good coherent =
          set_override-Refines fl sv f chat v manual (reply_written fl v) s s.db refl good coherent
      performed-Refines (clear f chat) s good coherent = record {
        same_db = refl;
        same_reply = refl;
        coherent = delete_override-IsCoherent fl sv f chat s coherent;
      }
      performed-Refines (roll_out f percentage v) s good coherent =
          let ending = reply_rollout_written fl (steady fl sv now percentage v) done in
          either fl sv (in_percent fl percentage)
            (put_rollout fl sv f (steady fl sv now percentage v) s, ending)
            (s, raised bad_percentage)
            (set_rollout_document fl f (steady fl sv now percentage v) s.db, ending)
            (s.db, raised bad_percentage)
            (λ h.
              put_rollout-Refines fl sv f (steady fl sv now percentage v) ending s s.db refl
                (λ taken.
                  steady-IsReadableRollout fl sv laws now f percentage v h good
                    (value_storable (steady fl sv now percentage v) taken))
                coherent)
            (λ _. kept fl sv (raised bad_percentage) s s.db refl coherent)
      performed-Refines (roll_out_over f days v) s good coherent =
          let found = get_rollout fl sv f s in
          let rolled = timed fl sv now (percentage_so_far fl sv now found.1) days v in
          let ending = reply_rollout_written fl rolled done in
          subst
            (λ o. Refines fl sv (set_timed_rollout fl sv now f days v s) (
              if leb_ℤ days (pos 0) then (s.db, raised bad_days) else (
                set_rollout_document fl f (timed fl sv now (percentage_so_far fl sv now o) days v)
                    s.db,
                reply_rollout_written fl (timed fl sv now (percentage_so_far fl sv now o) days v)
                    done,
              )))
            (get_rollout_lem fl sv f s coherent)
            (either fl sv (leb_ℤ days (pos 0)) (s, raised bad_days)
              (put_rollout fl sv f rolled found.0, ending) (s.db, raised bad_days)
              (set_rollout_document fl f rolled s.db, ending)
              (λ _. kept fl sv (raised bad_days) s s.db refl coherent)
              (λ h.
                put_rollout-Refines fl sv f rolled ending found.0 s.db (get_rollout-db fl sv f s)
                  (λ taken.
                    timed-IsReadableRollout fl sv laws now f (percentage_so_far fl sv now found.1)
                      days v
                      (percentage_so_far_in fl sv laws f now found.1 (found_readable f s coherent))
                      h good (value_storable rolled taken))
                  (get_rollout-IsCoherent fl sv f s coherent)))
      performed-Refines (bump f percentage) s good coherent =
          let found = get_rollout fl sv f s in
          subst
            (λ o. Refines fl sv (bump_rollout fl sv now f percentage s) (
              if in_percent fl percentage
              then bump_stored fl sv now f percentage o s.db
              else (s.db, raised bad_percentage)))
            (get_rollout_lem fl sv f s coherent)
            (either fl sv (in_percent fl percentage)
              (bump_found fl sv now f percentage found.1 found.0) (s, raised bad_percentage)
              (bump_stored fl sv now f percentage found.1 s.db) (s.db, raised bad_percentage)
              (λ h.
                bump_found-Refines f percentage found.1 found.0 s.db (get_rollout-db fl sv f s)
                  (found_readable f s coherent) h (get_rollout-IsCoherent fl sv f s coherent))
              (λ _. kept fl sv (raised bad_percentage) s s.db refl coherent))
      performed-Refines (end_rollout f) s good coherent = record {
        same_db = refl;
        same_reply = refl;
        coherent = delete_rollout-IsCoherent fl sv f s coherent;
      }

  abbrev pub AreAdmissible : List (ℕ × Request fl) → Type 0
  AreAdmissible [] = Unit
  AreAdmissible ((now, request) ∷ rest) = IsAdmissible now request × AreAdmissible rest

  -- From a state where Redis agrees with the collection, any run of requests with values that are read
  -- back as written answers, and leaves the collection, as its description without Redis does; and
  -- Redis agrees with the collection at its end. JSON, times and the float arithmetic of a rollout are
  -- as documented.
  pub runs-Refines :
      (laws : ServiceLaws fl sv) (requests : List (ℕ × Request fl)) (s : FlagState fl)
      → AreAdmissible requests
      → IsCoherent fl sv s
      → Refines fl sv (runs fl sv requests s) (promises fl sv requests s.db)
  runs-Refines laws [] s good coherent = kept fl sv [] s s.db refl coherent
  runs-Refines laws ((now, request) ∷ rest) s good coherent =
      let first = performed-Refines now laws request s good.0 coherent in
      let later = runs-Refines laws rest (performed fl sv now request s).0 good.1 first.coherent in
      record {
        same_db = later.same_db ∙ ap (λ db. (promises fl sv rest db).0) first.same_db;
        same_reply = cc (first.same_reply, later.same_reply, first.same_db);
        coherent = later.coherent;
      }
