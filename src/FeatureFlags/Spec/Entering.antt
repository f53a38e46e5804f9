-- ===== src/FeatureFlags/Spec/Entering.antt =====
-- Which chats a rollout takes in.
use sophie.Prelude.{
  ℕ, true, false, not, none, some, Option, Bool-cases, inl, inr, ◌≡◌, refl, ◌∙◌, ap, arith, ◌&&◌,
  ◌+◌, ◌-◌, ◌*◌, ◌≤◌, suc, leb,
}
use sophie.Prelude.Int.{ℤ, pos, negsuc, ◌+ℤ◌, leb_ℤ}
use sophie.FeatureFlags.Flags.{FeatureType, feature_name}
use sophie.FeatureFlags.Flags.Names.{same_text_refl}
use sophie.FeatureFlags.Values.{Floats, Value}
use sophie.FeatureFlags.Rollouts.{
  FeatureRollout, Services, get_rollout_percentage, is_chat_in_rollout, chat_rollout_bucket,
  in_percent,
}
use sophie.FeatureFlags.Store.{
  Collection, FlagState, stored_value, stored_rollout, set_rollout_document, is_storable,
  is_storable_rollout, fits,
}
use sophie.FeatureFlags.Service.{
  get_value, set_timed_rollout, bump_rollout, steady, timed, percentage_so_far, at_most_all,
}
use sophie.FeatureFlags.Coherence.{IsCoherent, IsReadable, IsReadableRollout}
use sophie.FeatureFlags.Coherence.Percentages.{
  ServiceLaws, steady-IsReadableRollout, timed-IsReadableRollout, percentage_so_far_in,
  at_most_all_in, get_rollout_percentage_in,
}
use sophie.FeatureFlags.Spec.{roll_out_over, bump, effective_value, promised}
use sophie.FeatureFlags.Spec.Refinement.{get_value-Refines}
use sophie.FeatureFlags.Spec.Runs.{performed-Refines}

above :
    (b : ℕ) (p q : ℤ)
    → leb_ℤ p q ≡ true
    → (not (leb_ℤ p (pos 0)) && not (leb_ℤ p (pos b))) ≡ true
    → (not (leb_ℤ q (pos 0)) && not (leb_ℤ q (pos b))) ≡ true
above b (pos m) (pos n) h inside = ground arith
above b (pos m) (negsuc n) h inside = ground arith
above b (negsuc m) q h inside = ground arith

ended : (now later d : ℕ) → now + d ≤ later → 1 ≤ d → leb later now ≡ false
ended now later d h one = ground arith

passed : (now later d : ℕ) → now + d ≤ later → leb d (later - now) ≡ true
passed now later d h = ground arith

module _ (fl : Floats) (sv : Services fl) where
  in_full : (f : FeatureType) (c : ℕ) → is_chat_in_rollout fl sv f c (pos 100) ≡ true
  in_full f c = ground arith

  stored_after :
      (f : FeatureType) (r : FeatureRollout fl) (db : Collection fl)
      → IsReadableRollout fl sv f r
      → is_storable_rollout fl r ≡ true
      → stored_rollout fl sv f (set_rollout_document fl f r db) ≡ some r
  stored_after f r db good taken = rw (taken, same_text_refl (feature_name f)) good.from_db

  not_overridden :
      (f : FeatureType) (chat : Option ℕ) (r : FeatureRollout fl) (db : Collection fl)
      → stored_value fl f chat db ≡ none
      → stored_value fl f chat (set_rollout_document fl f r db) ≡ none
  not_overridden f chat r db h = elim (Bool-cases (is_storable_rollout fl r)) [
    | inl taken ↦ rw taken h
    | inr refused ↦ rw refused h
  ]

  entering_in :
      (now : ℕ) (f : FeatureType) (c : ℕ) (r : FeatureRollout fl) (db : Collection fl)
      → stored_value fl f (some c) db ≡ none
      → stored_value fl f none db ≡ none
      → stored_rollout fl sv f db ≡ some r
      → is_chat_in_rollout fl sv f c (get_rollout_percentage fl sv r now) ≡ true
      → is_storable fl r.value ≡ true
      → (effective_value fl sv now f (some c) db).1 ≡ some r.value
  entering_in now f c r db h h' hr inside taken = rw (h, h', hr, inside, taken) refl

  answer_in_full :
      (now : ℕ) (f : FeatureType) (c : ℕ) (r : FeatureRollout fl) (db : Collection fl)
      → IsReadableRollout fl sv f r
      → get_rollout_percentage fl sv r now ≡ pos 100
      → is_storable_rollout fl r ≡ true
      → stored_value fl f (some c) db ≡ none
      → stored_value fl f none db ≡ none
      → (effective_value fl sv now f (some c) (set_rollout_document fl f r db)).1 ≡ some r.value
  answer_in_full now f c r db good full taken h h' =
      entering_in now f c r (set_rollout_document fl f r db) (not_overridden f (some c) r db h)
        (not_overridden f none r db h') (stored_after f r db good taken) (rw full (in_full f c))
        good.its_storable

  -- A chat that is in a rollout at a percentage is in it at every higher one.
  higher :
      (f : FeatureType) (c : ℕ) (p q : ℤ)
      → leb_ℤ p q ≡ true
      → is_chat_in_rollout fl sv f c p ≡ true
      → is_chat_in_rollout fl sv f c q ≡ true
  higher f c p q h inside = above (chat_rollout_bucket fl sv f c) p q h inside

  after_rollout :
      (later : ℕ) (f : FeatureType) (c : ℕ) (r : FeatureRollout fl) (s : FlagState fl)
      (db : Collection fl)
      → IsCoherent fl sv s
      → s.db ≡ set_rollout_document fl f r db
      → IsReadableRollout fl sv f r
      → get_rollout_percentage fl sv r later ≡ pos 100
      → is_storable_rollout fl r ≡ true
      → stored_value fl f (some c) db ≡ none
      → stored_value fl f none db ≡ none
      → (get_value fl sv later f (some c) s).1 ≡ some r.value
  after_rollout later f c r s db coherent e good full taken h h' =
      (get_value-Refines fl sv later f (some c) s coherent).same_reply
      ∙ ap (λ x. (effective_value fl sv later f (some c) x).1) e
      ∙ answer_in_full later f c r db good full taken h h'

  steady_percentage :
      (now later : ℕ) (p : ℤ) (v : Value fl)
      → get_rollout_percentage fl sv (steady fl sv now p v) later ≡ p
  unfolding get_rollout_percentage
  steady_percentage now later p v = refl

  timed_percentage_at_end :
      (laws : ServiceLaws fl sv) (now later : ℕ) (start : ℤ) (n : ℕ) (v : Value fl)
      → now + suc n * 86400000000 ≤ later
      → get_rollout_percentage fl sv (timed fl sv now start (pos (suc n)) v) later ≡ pos 100
  unfolding get_rollout_percentage
  timed_percentage_at_end laws now later start n v h = rw (laws.times_read now) (
      rw
        (
          ended now later (suc n * 86400000000) h (ground arith),
          passed now later (suc n * 86400000000) h,
        )
        refl)

  fits_percent : (p : ℤ) → in_percent fl p ≡ true → fits p ≡ true
  fits_percent (pos n) h = ground arith
  fits_percent (negsuc n) h = absurd (ground arith)

  timed_fits :
      (now : ℕ) (start : ℤ) (n : ℕ) (v : Value fl)
      → is_storable fl v ≡ true
      → suc n ≤ 999999999
      → in_percent fl start ≡ true
      → is_storable_rollout fl (timed fl sv now start (pos (suc n)) v) ≡ true
  timed_fits now start n v taken few h =
      let days : fits (pos (suc n)) ≡ true = ground arith in
      rw (taken, fits_percent start h, days) refl

  steady_fits :
      (now : ℕ) (p : ℤ) (v : Value fl)
      → is_storable fl v ≡ true
      → in_percent fl p ≡ true
      → is_storable_rollout fl (steady fl sv now p v) ≡ true
  steady_fits now p v taken h = rw (taken, fits_percent p h) refl

  positive : (n : ℕ) → leb_ℤ (pos (suc n)) (pos 0) ≡ false
  positive n = ground arith

  promised-timed :
      (now : ℕ) (f : FeatureType) (n : ℕ) (v : Value fl) (db : Collection fl)
      → (promised fl sv now (roll_out_over f (pos (suc n)) v) db).0
        ≡ set_rollout_document fl f
            (timed fl sv now
              (percentage_so_far fl sv now (stored_rollout fl sv f db))
              (pos (suc n))
              v)
            db
  promised-timed now f n v db = rw (positive n) refl

  -- Where Redis agrees with the collection, a rollout over some days, at most the 999999999 of a
  -- `timedelta`, with a value that Mongo takes and that is read back, answers its value to every chat
  -- when they are over, if neither the chat nor the flag has an override, whatever the percentage that
  -- it started from. JSON, times and the float arithmetic of a rollout are as documented.
  pub set_timed_rollout_completes :
      (laws : ServiceLaws fl sv) (now later : ℕ) (f : FeatureType) (c : ℕ) (n : ℕ) (v : Value fl)
      (s : FlagState fl)
      → IsCoherent fl sv s
      → IsReadable fl sv f v
      → is_storable fl v ≡ true
      → suc n ≤ 999999999
      → stored_value fl f (some c) s.db ≡ none
      → stored_value fl f none s.db ≡ none
      → now + suc n * 86400000000 ≤ later
      → (get_value fl sv later f (some c) (set_timed_rollout fl sv now f (pos (suc n)) v s).0).1
        ≡ some v
  set_timed_rollout_completes laws now later f c n v s coherent good taken few h h' over =
      let start = percentage_so_far fl sv now (stored_rollout fl sv f s.db) in
      let set =
        performed-Refines fl sv now laws (roll_out_over f (pos (suc n)) v) s good coherent in
      after_rollout later f c (timed fl sv now start (pos (suc n)) v)
        (set_timed_rollout fl sv now f (pos (suc n)) v s).0 s.db set.coherent
        (set.same_db ∙ promised-timed now f n v s.db)
        (timed-IsReadableRollout fl sv laws now f start (pos (suc n)) v
          (percentage_so_far_in fl sv laws f now (stored_rollout fl sv f s.db)
            (λ r e. (coherent.agrees_rollout f).readable_rollout r e))
          (positive n) good taken)
        (timed_percentage_at_end laws now later start n v over)
        (timed_fits now start n v taken few (
          percentage_so_far_in fl sv laws f now (stored_rollout fl sv f s.db)
            (λ r e. (coherent.agrees_rollout f).readable_rollout r e)))
        h h'

  promised-bump :
      (now : ℕ) (f : FeatureType) (percentage : ℤ) (r : FeatureRollout fl) (db : Collection fl)
      → stored_rollout fl sv f db ≡ some r
      → in_percent fl percentage ≡ true
      → (promised fl sv now (bump f percentage) db).0
        ≡ set_rollout_document fl f
            (steady fl sv now
              (at_most_all fl sv now (get_rollout_percentage fl sv r now +ℤ percentage))
              r.value)
            db
  promised-bump now f percentage r db hr h = rw (h, hr) refl

  bump_goes_up :
      (p q : ℤ)
      → in_percent fl p ≡ true
      → in_percent fl q ≡ true
      → leb_ℤ p (at_most_all fl sv 0 (p +ℤ q)) ≡ true
  unfolding ◌+ℤ◌
  bump_goes_up (pos m) (pos n) hp hq = ground arith
  bump_goes_up (pos m) (negsuc n) hp hq = ground arith
  bump_goes_up (negsuc m) q hp hq = ground arith

  -- Where Redis agrees with the collection, a bump of a rollout by a percentage keeps every chat in it:
  -- it stores a rollout that a chat which was in the rollout is in at any time. JSON, times and the
  -- float arithmetic of a rollout are as documented.
  pub bump_rollout_keeps :
      (laws : ServiceLaws fl sv) (now later : ℕ) (f : FeatureType) (c : ℕ) (percentage : ℤ)
      (r : FeatureRollout fl) (s : FlagState fl)
      → IsCoherent fl sv s
      → stored_rollout fl sv f s.db ≡ some r
      → in_percent fl percentage ≡ true
      → is_chat_in_rollout fl sv f c (get_rollout_percentage fl sv r now) ≡ true
      → (r' : FeatureRollout fl) × (stored_rollout fl sv f
            (bump_rollout fl sv now f percentage s).0.db
          ≡ some r')
        × (is_chat_in_rollout fl sv f c (get_rollout_percentage fl sv r' later) ≡ true)
  bump_rollout_keeps laws now later f c percentage r s coherent hr h inside =
      let good = (coherent.agrees_rollout f).readable_rollout r hr in
      let p = get_rollout_percentage fl sv r now in
      let hp = get_rollout_percentage_in fl sv laws r now good.its_start good.its_target in
      let p' = at_most_all fl sv now (p +ℤ percentage) in
      let bumped = performed-Refines fl sv now laws (bump f percentage) s tt coherent in
      let r' = steady fl sv now p' r.value in
      let hp' = at_most_all_in fl sv laws now p percentage hp h in
      (
        r',
        ap (stored_rollout fl sv f) (bumped.same_db ∙ promised-bump now f percentage r s.db hr h)
            ∙ stored_after f r' s.db
                (steady-IsReadableRollout fl sv laws now f p' r.value hp' good.its_value
                  good.its_storable)
                (steady_fits now p' r.value good.its_storable hp'),
        rw (steady_percentage now later p' r.value)
            (higher f c p p' (bump_goes_up p percentage hp h) inside),
      )
