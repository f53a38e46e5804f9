-- ===== src/FeatureFlags/Spec/Refinement.antt =====
-- The operations on flags keep the promises of their description.
use mathlib.Core.Path.{subst}
use sophie.Prelude.{
  ℕ, Bool, true, false, Option, none, some, if◌then◌else◌, ◌≡◌, refl, sym, ◌∙◌, ap,
}
use sophie.FeatureFlags.Flags.{FeatureType}
use sophie.FeatureFlags.Definitions.{get_default_value}
use sophie.FeatureFlags.Values.{Floats, Value, serialize_feature_value}
use sophie.FeatureFlags.Rollouts.{
  FeatureRollout, Services, get_rollout_percentage, is_chat_in_rollout,
}
use sophie.FeatureFlags.Store.{
  FeatureFlagOverrideSource, rollout, Collection, FlagState, set_document, set_rollout_document,
  is_storable, is_storable_rollout, put_document, put_rollout_document, write_hash,
  write_rollout_hash, stored_value, stored_rollout, set_override, get_rollout, put_rollout,
  resolve_cached_override,
}
use sophie.FeatureFlags.Service.{
  value_written, get_value, offer_rollout, rollout_value, value_or, global_value,
}
use sophie.FeatureFlags.Coherence.{IsReadable, IsReadableRollout, IsCoherent}
use sophie.FeatureFlags.Coherence.Overrides.{
  set_override-IsCoherent, resolve_cached_override-IsCoherent, resolve_cached_override_lem,
  resolve_cached_override-db,
}
use sophie.FeatureFlags.Coherence.Rollouts.{
  put_rollout-IsCoherent, get_rollout-IsCoherent, get_rollout_lem, get_rollout-db,
}
use sophie.FeatureFlags.Spec.{or_value, entered, rolled_out, effective_global, effective_value}

module _ (fl : Floats) (sv : Services fl) where
  -- The result of a call and its description agree, and Redis agrees with the collection after it.
  pub record Refines {X : Type 0} (out : FlagState fl × X) (promise : Collection fl × X)
      : Type 0 where
    pub same_db : out.0.db ≡ promise.0
    pub same_reply : out.1 ≡ promise.1
    pub coherent : IsCoherent fl sv out.0

  db_of_either :
      (b : Bool) (s s' : FlagState fl) → (if b then s else s').db ≡ (if b then s.db else s'.db)
  db_of_either true s s' = refl
  db_of_either false s s' = refl

  set_override-db :
      (f : FeatureType) (chat : Option ℕ) (v : Value fl) (source : FeatureFlagOverrideSource)
      (s : FlagState fl)
      → (set_override fl f chat v source s).db ≡ set_document fl f v chat source s.db
  unfolding set_override
  set_override-db f chat v source s =
      db_of_either (is_storable fl v)
        (record {
          db = put_document fl f v chat source s.db;
          redis = write_hash fl f chat (some (serialize_feature_value fl v)) s.redis;
        })
        s

  put_rollout-db :
      (f : FeatureType) (r : FeatureRollout fl) (s : FlagState fl)
      → (put_rollout fl sv f r s).db ≡ set_rollout_document fl f r s.db
  unfolding put_rollout
  put_rollout-db f r s =
      db_of_either (is_storable_rollout fl r)
        (record {
          db = put_rollout_document fl f r s.db;
          redis = write_rollout_hash fl f (some (sv.dumps r)) s.redis;
        })
        s

  -- What the call of an operation that writes and then answers `x` must show.
  pub set_override-Refines :
      {X : Type 0} (f : FeatureType) (chat : Option ℕ) (v : Value fl)
      (source : FeatureFlagOverrideSource) (x : X) (s : FlagState fl) (db : Collection fl)
      → s.db ≡ db
      → IsReadable fl sv f v
      → IsCoherent fl sv s
      → Refines (set_override fl f chat v source s, x) (set_document fl f v chat source db, x)
  set_override-Refines f chat v source x s db e good coherent = record {
    same_db = set_override-db f chat v source s ∙ ap (set_document fl f v chat source) e;
    same_reply = refl;
    coherent = set_override-IsCoherent fl sv f chat v source s good coherent;
  }

  pub put_rollout-Refines :
      {X : Type 0} (f : FeatureType) (r : FeatureRollout fl) (x : X) (s : FlagState fl)
      (db : Collection fl)
      → s.db ≡ db
      → (is_storable_rollout fl r ≡ true → IsReadableRollout fl sv f r)
      → IsCoherent fl sv s
      → Refines (put_rollout fl sv f r s, x) (set_rollout_document fl f r db, x)
  put_rollout-Refines f r x s db e good coherent = record {
    same_db = put_rollout-db f r s ∙ ap (set_rollout_document fl f r) e;
    same_reply = refl;
    coherent = put_rollout-IsCoherent fl sv f r s good coherent;
  }

  pub kept :
      {X : Type 0} (x : X) (s : FlagState fl) (db : Collection fl)
      → s.db ≡ db
      → IsCoherent fl sv s
      → Refines (s, x) (db, x)
  kept x s db e coherent = record { same_db = e; same_reply = refl; coherent = coherent }

  pub either :
      {X : Type 0} (b : Bool) (out out' : FlagState fl × X) (promise promise' : Collection fl × X)
      → (b ≡ true → Refines out promise)
      → (b ≡ false → Refines out' promise')
      → Refines (if b then out else out') (if b then promise else promise')
  either true out out' promise promise' on_true on_false = on_true refl
  either false out out' promise promise' on_true on_false = on_false refl

  module _ (now : ℕ) where
    value_or-Refines :
        (otherwise : FlagState fl → FlagState fl × Option (Value fl))
        (found : FlagState fl × Option (Value fl)) (o : Option (Value fl)) (db : Collection fl)
        (promise : Collection fl × Option (Value fl))
        → found.1 ≡ o
        → found.0.db ≡ db
        → IsCoherent fl sv found.0
        → ((s : FlagState fl) → s.db ≡ db → IsCoherent fl sv s → Refines (otherwise s) promise)
        → Refines (value_or fl sv now otherwise found) (or_value fl sv now o db promise)
    value_or-Refines otherwise (s, some v) none db promise h e coherent rest = cc
    value_or-Refines otherwise (s, none) (some v) db promise h e coherent rest = cc
    value_or-Refines otherwise (s, some v) (some w) db promise h e coherent rest = record {
      same_db = e;
      same_reply = cc;
      coherent = coherent;
    }
    value_or-Refines otherwise (s, none) none db promise h e coherent rest = rest s e coherent

    readable_at :
        (f : FeatureType) (s : FlagState fl) (db : Collection fl) (r : FeatureRollout fl)
        → s.db ≡ db
        → IsCoherent fl sv s
        → stored_rollout fl sv f db ≡ some r
        → IsReadableRollout fl sv f r
    readable_at f s db r e coherent h =
        (coherent.agrees_rollout f).readable_rollout r (ap (stored_rollout fl sv f) e ∙ h)

    offer_rollout-Refines :
        (f : FeatureType) (c : ℕ) (o : Option (FeatureRollout fl)) (s : FlagState fl)
        (db : Collection fl)
        → s.db ≡ db
        → ((r : FeatureRollout fl) → o ≡ some r → IsReadableRollout fl sv f r)
        → IsCoherent fl sv s
        → Refines (offer_rollout fl sv now f c o s) (entered fl sv now f c o db)
    offer_rollout-Refines f c none s db e good coherent =
        kept (some (get_default_value fl f)) s db e coherent
    offer_rollout-Refines f c (some r) s db e good coherent =
        either (is_chat_in_rollout fl sv f c (get_rollout_percentage fl sv r now))
          (set_override fl f (some c) r.value rollout s, value_written fl r.value)
          (s, some (get_default_value fl f))
          (set_document fl f r.value (some c) rollout db, value_written fl r.value)
          (db, some (get_default_value fl f))
          (λ _.
            set_override-Refines f (some c) r.value rollout (value_written fl r.value) s db e
              (good r refl).its_value coherent)
          (λ _. kept (some (get_default_value fl f)) s db e coherent)

    rollout_value-Refines :
        (f : FeatureType) (chat : Option ℕ) (s : FlagState fl) (db : Collection fl)
        → s.db ≡ db
        → IsCoherent fl sv s
        → Refines (rollout_value fl sv now f chat s) (rolled_out fl sv now f chat db)
    rollout_value-Refines f none s db e coherent =
        kept (some (get_default_value fl f)) s db e coherent
    rollout_value-Refines f (some c) s db e coherent =
        let found : (get_rollout fl sv f s).1 ≡ stored_rollout fl sv f db =
          get_rollout_lem fl sv f s coherent ∙ ap (stored_rollout fl sv f) e in
        subst
          (λ o.
            Refines
              (offer_rollout fl sv now f c (get_rollout fl sv f s).1 (get_rollout fl sv f s).0)
              (entered fl sv now f c o db))
          found
          (offer_rollout-Refines f c (get_rollout fl sv f s).1 (get_rollout fl sv f s).0 db
            (get_rollout-db fl sv f s ∙ e) (λ r h. readable_at f s db r e coherent (sym found ∙ h))
            (get_rollout-IsCoherent fl sv f s coherent))

    global_value-Refines :
        (f : FeatureType) (chat : Option ℕ) (s : FlagState fl) (db : Collection fl)
        → s.db ≡ db
        → IsCoherent fl sv s
        → Refines (global_value fl sv now f chat s) (effective_global fl sv now f chat db)
    global_value-Refines f chat s db e coherent =
        value_or-Refines (rollout_value fl sv now f chat) (resolve_cached_override fl f none s)
          (stored_value fl f none db) db (rolled_out fl sv now f chat db)
          (resolve_cached_override_lem fl sv f none s coherent ∙ ap (stored_value fl f none) e)
          (resolve_cached_override-db fl sv f none s ∙ e)
          (resolve_cached_override-IsCoherent fl sv f none s coherent)
          (λ s' e' coherent'. rollout_value-Refines f chat s' db e' coherent')

    pub get_value-Refines :
        (f : FeatureType) (chat : Option ℕ) (s : FlagState fl)
        → IsCoherent fl sv s
        → Refines (get_value fl sv now f chat s) (effective_value fl sv now f chat s.db)
    unfolding get_value
    get_value-Refines f none s coherent = global_value-Refines f none s s.db refl coherent
    get_value-Refines f (some c) s coherent =
        value_or-Refines (global_value fl sv now f (some c))
          (resolve_cached_override fl f (some c) s) (stored_value fl f (some c) s.db) s.db
          (effective_global fl sv now f (some c) s.db)
          (resolve_cached_override_lem fl sv f (some c) s coherent)
          (resolve_cached_override-db fl sv f (some c) s)
          (resolve_cached_override-IsCoherent fl sv f (some c) s coherent)
          (λ s' e' coherent'. global_value-Refines f (some c) s' s.db e' coherent')
