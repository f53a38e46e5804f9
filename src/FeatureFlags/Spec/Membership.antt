-- ===== src/FeatureFlags/Spec/Membership.antt =====
-- Chats that entered a rollout, and who enters it.
use sophie.Prelude.{
  ℕ, Bool, true, false, Option, none, some, List, [], ◌∷◌, if◌then◌else◌, ◌≡◌, refl, ◌∙◌, ap,
  Bool-cases, inl, inr,
}
use sophie.Prelude.Int.{ℤ, pos, leb_ℤ, ◌+ℤ◌}
use sophie.FeatureFlags.Flags.{FeatureType}
use sophie.FeatureFlags.Values.{Floats, Value}
use sophie.FeatureFlags.Rollouts.{
  FeatureRollout, Services, get_rollout_percentage, is_chat_in_rollout, in_percent,
}
use sophie.FeatureFlags.Store.{
  FeatureFlagOverrideSource, manual, set_rollout_document, Collection, FlagState, same_place,
  set_document, stored_value, stored_rollout, rollout, is_storable, is_storable_rollout,
}
use sophie.FeatureFlags.Service.{
  at_most_all, value_written, reply_rollout_written, get_value, steady, timed, percentage_so_far,
  done, raised, bad_percentage, bad_days,
}
use sophie.FeatureFlags.Coherence.{IsCoherent, same_place_refl, same_place_feature, same_place_chat}
use sophie.FeatureFlags.Coherence.Percentages.{ServiceLaws}
use sophie.FeatureFlags.Spec.{
  Request, ask, override, clear, roll_out, roll_out_over, bump, end_rollout, effective_value,
  effective_global, rolled_out, entered, or_value, promised, promises, runs, bump_stored,
}
use sophie.FeatureFlags.Spec.Refinement.{get_value-Refines}
use sophie.FeatureFlags.Spec.Runs.{AreAdmissible, runs-Refines}

module _ (fl : Floats) (sv : Services fl) where
  -- Does a request leave the override of a chat alone?
  abbrev pub Spares : FeatureType → ℕ → Request fl → Type 0
  Spares f c (override g chat v) = same_place g chat f (some c) ≡ false
  Spares f c (clear g chat) = same_place g chat f (some c) ≡ false
  Spares f c (ask g chat) = Unit
  Spares f c (roll_out g percentage v) = Unit
  Spares f c (roll_out_over g days v) = Unit
  Spares f c (bump g percentage) = Unit
  Spares f c (end_rollout g) = Unit

  abbrev pub AllSpare : FeatureType → ℕ → List (ℕ × Request fl) → Type 0
  AllSpare f c [] = Unit
  AllSpare f c ((now, request) ∷ rest) = Spares f c request × AllSpare f c rest

  module _ (now : ℕ) (f : FeatureType) (c : ℕ) (v : Value fl) where
    apart :
        (g : FeatureType) (d : ℕ) (db : Collection fl)
        → stored_value fl g (some d) db ≡ none
        → stored_value fl f (some c) db ≡ some v
        → same_place g (some d) f (some c) ≡ false
    apart g d db empty h = elim (Bool-cases (same_place g (some d) f (some c))) [
      | inr e ↦ e
      | inl e ↦ cc (
        empty,
        h,
        same_place_feature fl sv g f (some d) (some c) e,
        same_place_chat fl sv g f (some d) (some c) e,
      )
    ]

    set_elsewhere :
        (g : FeatureType) (w : Value fl) (chat : Option ℕ) (source : FeatureFlagOverrideSource)
        (db : Collection fl)
        → same_place g chat f (some c) ≡ false
        → stored_value fl f (some c) db ≡ some v
        → stored_value fl f (some c) (set_document fl g w chat source db) ≡ some v
    set_elsewhere g w chat source db e h = elim (Bool-cases (is_storable fl w)) [
      | inl taken ↦ rw (taken, e) h
      | inr refused ↦ rw refused h
    ]

    set_rollout_keeps :
        (g : FeatureType) (r : FeatureRollout fl) (db : Collection fl)
        → stored_value fl f (some c) db ≡ some v
        → stored_value fl f (some c) (set_rollout_document fl g r db) ≡ some v
    set_rollout_keeps g r db h = elim (Bool-cases (is_storable_rollout fl r)) [
      | inl taken ↦ rw taken h
      | inr refused ↦ rw refused h
    ]

    entered_keeps :
        (g : FeatureType) (d : ℕ) (o : Option (FeatureRollout fl)) (db : Collection fl)
        → stored_value fl g (some d) db ≡ none
        → stored_value fl f (some c) db ≡ some v
        → stored_value fl f (some c) (entered fl sv now g d o db).0 ≡ some v
    entered_keeps g d none db empty h = h
    entered_keeps g d (some r) db empty h =
        elim (Bool-cases (is_chat_in_rollout fl sv g d (get_rollout_percentage fl sv r now))) [
          | inr out ↦ rw out h
          | inl inside ↦
              rw inside (set_elsewhere g r.value (some d) rollout db (apart g d db empty h) h)
        ]

    or_value_keeps :
        (o : Option (Value fl)) (db : Collection fl) (otherwise : Collection fl × Option (Value fl))
        → stored_value fl f (some c) db ≡ some v
        → (o ≡ none → stored_value fl f (some c) otherwise.0 ≡ some v)
        → stored_value fl f (some c) (or_value fl sv now o db otherwise).0 ≡ some v
    or_value_keeps none db otherwise h rest = rest refl
    or_value_keeps (some w) db otherwise h rest = h

    effective_value_keeps :
        (g : FeatureType) (chat : Option ℕ) (db : Collection fl)
        → stored_value fl f (some c) db ≡ some v
        → stored_value fl f (some c) (effective_value fl sv now g chat db).0 ≡ some v
    effective_value_keeps g none db h =
        or_value_keeps (stored_value fl g none db) db (rolled_out fl sv now g none db) h (λ _. h)
    effective_value_keeps g (some d) db h =
        or_value_keeps (stored_value fl g (some d) db) db (effective_global fl sv now g (some d) db)
          h
          (λ empty.
            or_value_keeps (stored_value fl g none db) db (rolled_out fl sv now g (some d) db) h
              (λ _. entered_keeps g d (stored_rollout fl sv g db) db empty h))

    either_keeps :
        {X : Type 0} (b : Bool) (x y : Collection fl × X)
        → stored_value fl f (some c) x.0 ≡ some v
        → stored_value fl f (some c) y.0 ≡ some v
        → stored_value fl f (some c) (if b then x else y).0 ≡ some v
    either_keeps true x y hx hy = hx
    either_keeps false x y hx hy = hy

    bump_stored_keeps :
        (g : FeatureType) (percentage : ℤ) (o : Option (FeatureRollout fl)) (db : Collection fl)
        → stored_value fl f (some c) db ≡ some v
        → stored_value fl f (some c) (bump_stored fl sv now g percentage o db).0 ≡ some v
    bump_stored_keeps g percentage none db h = h
    bump_stored_keeps g percentage (some r) db h =
        set_rollout_keeps g
          (steady fl sv now
            (at_most_all fl sv now (get_rollout_percentage fl sv r now +ℤ percentage)) r.value)
          db h

    promised_keeps :
        (request : Request fl) (db : Collection fl)
        → Spares f c request
        → stored_value fl f (some c) db ≡ some v
        → stored_value fl f (some c) (promised fl sv now request db).0 ≡ some v
    promised_keeps (ask g chat) db spared h = effective_value_keeps g chat db h
    promised_keeps (override g chat w) db spared h = set_elsewhere g w chat manual db spared h
    promised_keeps (clear g chat) db spared h = rw spared h
    promised_keeps (roll_out g percentage w) db spared h =
        either_keeps (in_percent fl percentage)
          (
            set_rollout_document fl g (steady fl sv now percentage w) db,
            reply_rollout_written fl (steady fl sv now percentage w) done,
          )
          (db, raised bad_percentage) (set_rollout_keeps g (steady fl sv now percentage w) db h) h
    promised_keeps (roll_out_over g days w) db spared h =
        let start = percentage_so_far fl sv now (stored_rollout fl sv g db) in
        either_keeps (leb_ℤ days (pos 0)) (db, raised bad_days)
          (
            set_rollout_document fl g (timed fl sv now start days w) db,
            reply_rollout_written fl (timed fl sv now start days w) done,
          )
          h (set_rollout_keeps g (timed fl sv now start days w) db h)
    promised_keeps (bump g percentage) db spared h =
        either_keeps (in_percent fl percentage)
          (bump_stored fl sv now g percentage (stored_rollout fl sv g db) db)
          (db, raised bad_percentage)
          (bump_stored_keeps g percentage (stored_rollout fl sv g db) db h) h
    promised_keeps (end_rollout g) db spared h = h

  promises_keep :
      (f : FeatureType) (c : ℕ) (v : Value fl) (requests : List (ℕ × Request fl))
      (db : Collection fl)
      → AllSpare f c requests
      → stored_value fl f (some c) db ≡ some v
      → stored_value fl f (some c) (promises fl sv requests db).0 ≡ some v
  promises_keep f c v [] db spared h = h
  promises_keep f c v ((now, request) ∷ rest) db spared h =
      promises_keep f c v rest (promised fl sv now request db).0 spared.1
        (promised_keeps now f c v request db spared.0 h)

  set_here :
      (f : FeatureType) (c : ℕ) (v : Value fl) (db : Collection fl)
      → is_storable fl v ≡ true
      → stored_value fl f (some c) (set_document fl f v (some c) rollout db) ≡ some v
  set_here f c v db taken = rw (taken, same_place_refl fl sv f (some c)) refl

  -- the first access of a chat in a rollout, to a flag without overrides
  entering :
      (now : ℕ) (f : FeatureType) (c : ℕ) (r : FeatureRollout fl) (db : Collection fl)
      → stored_value fl f (some c) db ≡ none
      → stored_value fl f none db ≡ none
      → stored_rollout fl sv f db ≡ some r
      → is_chat_in_rollout fl sv f c (get_rollout_percentage fl sv r now) ≡ true
      → effective_value fl sv now f (some c) db
        ≡ (set_document fl f r.value (some c) rollout db, value_written fl r.value)
  entering now f c r db h h' hr inside = rw (h, h', hr, inside) refl

  written_value : (v : Value fl) → is_storable fl v ≡ true → value_written fl v ≡ some v
  written_value v taken = rw taken refl

  answered_with_override :
      (now : ℕ) (f : FeatureType) (c : ℕ) (v : Value fl) (db : Collection fl)
      → stored_value fl f (some c) db ≡ some v
      → (effective_value fl sv now f (some c) db).1 ≡ some v
  answered_with_override now f c v db h = rw h refl

  -- Where Redis agrees with the collection, a chat that is in a rollout of a flag is answered the
  -- rollout's value, if neither the chat nor the flag has an override; and it is answered that value
  -- after any requests with values that are read back, whatever they do to the rollouts, to the flag
  -- itself and to other chats, as long as none sets or clears the override of this flag in this chat.
  -- JSON, times and the float arithmetic of a rollout are as documented.
  pub membership_lasts :
      (laws : ServiceLaws fl sv) (now : ℕ) (f : FeatureType) (c : ℕ) (r : FeatureRollout fl)
      (s : FlagState fl) (requests : List (ℕ × Request fl)) (later : ℕ)
      → IsCoherent fl sv s
      → stored_value fl f (some c) s.db ≡ none
      → stored_value fl f none s.db ≡ none
      → stored_rollout fl sv f s.db ≡ some r
      → is_chat_in_rollout fl sv f c (get_rollout_percentage fl sv r now) ≡ true
      → AreAdmissible fl sv requests
      → AllSpare f c requests
      → ((get_value fl sv now f (some c) s).1 ≡ some r.value)
        × ((get_value fl sv later f
              (some c)
              (runs fl sv requests (get_value fl sv now f (some c) s).0).0).1
            ≡ some r.value)
  membership_lasts laws now f c r s requests later coherent h h' hr inside good spared =
      let taken = ((coherent.agrees_rollout f).readable_rollout r hr).its_storable in
      let first = get_value-Refines fl sv now f (some c) s coherent in
      let seen = entering now f c r s.db h h' hr inside in
      let entry = (get_value fl sv now f (some c) s).0 in
      let run = runs-Refines fl sv laws requests entry good first.coherent in
      let last =
        get_value-Refines fl sv later f (some c) (runs fl sv requests entry).0 run.coherent in
      let frozen : stored_value fl f (some c) entry.db ≡ some r.value =
        ap (stored_value fl f (some c)) (first.same_db ∙ ap (λ x. x.0) seen)
        ∙ set_here f c r.value s.db taken in
      let still : stored_value fl f (some c) (runs fl sv requests entry).0.db ≡ some r.value =
        ap (stored_value fl f (some c)) run.same_db
        ∙ promises_keep f c r.value requests entry.db spared frozen in
      (
        first.same_reply ∙ ap (λ x. x.1) seen ∙ written_value r.value taken,
        last.same_reply
            ∙ answered_with_override later f c r.value (runs fl sv requests entry).0.db still,
      )
