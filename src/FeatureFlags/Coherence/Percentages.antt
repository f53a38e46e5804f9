-- ===== src/FeatureFlags/Coherence/Percentages.antt =====
-- The percentages of rollouts, and the rollouts that the operations write.
use sophie.Prelude.{
  ℕ, zero, suc, Bool, ◌&&◌, true, false, Option, none, some, ◌≡◌, ◌∙◌, ap, refl, arith, Bool-cases,
  inl, inr, leb, ◌-◌,
}
use sophie.Prelude.Int.{ℤ, pos, negsuc, ◌+ℤ◌, leb_ℤ}
use sophie.FeatureFlags.Flags.{FeatureType}
use sophie.FeatureFlags.Values.{Floats, Value}
use sophie.FeatureFlags.Rollouts.{
  FeatureRollout, Services, dict_value, dict_of_rollout, coerce_dict, coerce_rollout_text,
  coerce_loaded, percentage_for, negate, in_percent, duration_of_days, percentage_in_progress,
  timed_percentage, running_percentage, get_rollout_percentage,
}
use sophie.FeatureFlags.Service.{steady, timed, at_most_all, percentage_so_far}
use sophie.FeatureFlags.Store.{is_storable}
use sophie.FeatureFlags.Coherence.{IsReadable, IsReadableRollout}

-- an integer that is the difference of two percentages
abbrev pub is_small : ℤ → Bool
is_small z = leb_ℤ (negsuc 99) z && leb_ℤ z (pos 100)

-- Is a float between two integers?
abbrev pub is_between : (fl : Floats) → ℤ → fl.Float → ℤ → Bool
is_between fl low x high = fl.at_most (fl.of_int low) x && fl.at_most x (fl.of_int high)

-- What IEEE 754 says of the operations, each of which rounds its exact result to the nearest float,
-- so that none leaves an interval between integers that are floats: a quotient of a lesser time by a
-- greater one is between 0 and 1, an integer times a float of that interval is between 0 and the
-- integer, and a sum with an integer is between the sums with the bounds. `int` drops the fraction.
pub record ArithmeticLaws (fl : Floats) : Type 0 where
  pub quotient :
      (elapsed duration : ℕ)
      → leb duration elapsed ≡ false
      → is_between fl
          (pos 0)
          (fl.divide (fl.total_seconds elapsed) (fl.total_seconds duration))
          (pos 1)
        ≡ true
  pub scaled_up :
      (n : ℕ) (x : fl.Float)
      → is_small (pos n) ≡ true
      → is_between fl (pos 0) x (pos 1) ≡ true
      → is_between fl (pos 0) (fl.times (pos n) x) (pos n) ≡ true
  pub scaled_down :
      (n : ℕ) (x : fl.Float)
      → is_small (negsuc n) ≡ true
      → is_between fl (pos 0) x (pos 1) ≡ true
      → is_between fl (negsuc n) (fl.times (negsuc n) x) (pos 0) ≡ true
  pub added :
      (n : ℕ) (low high : ℤ) (x : fl.Float)
      → is_small (pos n) ≡ true
      → is_small low ≡ true
      → is_small high ≡ true
      → is_between fl low x high ≡ true
      → is_between fl (pos n +ℤ low) (fl.plus (pos n) x) (pos n +ℤ high) ≡ true
  pub truncated :
      (low high : ℤ) (x : fl.Float)
      → is_small low ≡ true
      → is_small high ≡ true
      → is_between fl low x high ≡ true
      → (leb_ℤ low (fl.truncate x) && leb_ℤ (fl.truncate x) high) ≡ true

-- What the other packages are documented to do: JSON and the times in ISO 8601 are read back, and
-- the arithmetic of floats.
pub record ServiceLaws (fl : Floats) (sv : Services fl) : Type 0 where
  pub json :
      (r : FeatureRollout fl) → sv.loads (sv.dumps r) ≡ some (dict_value (dict_of_rollout fl r))
  pub times_read : (t : ℕ) → sv.time_of_text (sv.text_of_time t) ≡ some t
  pub arithmetic : ArithmeticLaws fl

rise_gap : (s t : ℕ) → leb s t ≡ true → pos s +ℤ pos (t - s) ≡ pos t
unfolding ◌+ℤ◌
rise_gap s t h = ground arith

fall_gap : (s t : ℕ) → leb s t ≡ false → pos s +ℤ negsuc (s - t - 1) ≡ pos t
unfolding ◌+ℤ◌
fall_gap s t h = ground arith

no_gap : (s : ℕ) → pos s +ℤ pos 0 ≡ pos s
unfolding ◌+ℤ◌
no_gap s = ground arith

module _ (fl : Floats) (sv : Services fl) (laws : ServiceLaws fl sv) where
  -- The text of a rollout in Redis is read as its dictionary in the collection is.
  same_reading :
      (r : FeatureRollout fl)
      → coerce_dict fl sv (dict_of_rollout fl r) ≡ some r
      → coerce_rollout_text fl sv (sv.dumps r) ≡ some r
  same_reading r h = ap (coerce_loaded fl sv) (laws.json r) ∙ h

  steady_read :
      (now : ℕ) (p : ℤ) (v : Value fl)
      → in_percent fl p ≡ true
      → coerce_dict fl sv (dict_of_rollout fl (steady fl sv now p v)) ≡ some (steady fl sv now p v)
  unfolding coerce_dict
  steady_read now p v h = rw (h, laws.times_read now) refl

  timed_read :
      (now : ℕ) (start days : ℤ) (v : Value fl)
      → in_percent fl start ≡ true
      → leb_ℤ days (pos 0) ≡ false
      → coerce_dict fl sv (dict_of_rollout fl (timed fl sv now start days v))
        ≡ some (timed fl sv now start days v)
  unfolding coerce_dict
  timed_read now start days v h positive = rw (positive, h, laws.times_read now) refl

  pub steady-IsReadableRollout :
      (now : ℕ) (f : FeatureType) (p : ℤ) (v : Value fl)
      → in_percent fl p ≡ true
      → IsReadable fl sv f v
      → is_storable fl v ≡ true
      → IsReadableRollout fl sv f (steady fl sv now p v)
  steady-IsReadableRollout now f p v h good taken = record {
    from_redis = same_reading (steady fl sv now p v) (steady_read now p v h);
    from_db = steady_read now p v h;
    its_value = good;
    its_storable = taken;
    its_start = h;
    its_target = h;
  }

  pub timed-IsReadableRollout :
      (now : ℕ) (f : FeatureType) (start days : ℤ) (v : Value fl)
      → in_percent fl start ≡ true
      → leb_ℤ days (pos 0) ≡ false
      → IsReadable fl sv f v
      → is_storable fl v ≡ true
      → IsReadableRollout fl sv f (timed fl sv now start days v)
  timed-IsReadableRollout now f start days v h positive good taken = record {
    from_redis =
        same_reading (timed fl sv now start days v) (timed_read now start days v h positive);
    from_db = timed_read now start days v h positive;
    its_value = good;
    its_storable = taken;
    its_start = h;
    its_target = refl;
  }

  -- the percentage at a part of the way from the start to the target
  abbrev interpolated : ℤ → ℤ → fl.Float → ℤ
  interpolated start target x =
      fl.truncate (fl.plus start (fl.times (target +ℤ negate fl sv start) x))

  up_to : (s t : ℕ) → leb s t ≡ true → pos t +ℤ negate fl sv (pos s) ≡ pos (t - s)
  unfolding ◌+ℤ◌
  up_to zero t h = ground arith
  up_to (suc s) t h = ground arith

  down_to : (s t : ℕ) → leb s t ≡ false → pos t +ℤ negate fl sv (pos s) ≡ negsuc (s - t - 1)
  unfolding ◌+ℤ◌
  down_to zero t h = ground arith
  down_to (suc s) t h = ground arith

  -- A rise to the target, and a fall to it, from the start.
  rises :
      (s t : ℕ) (x : fl.Float)
      → leb s t ≡ true
      → leb t 100 ≡ true
      → is_between fl (pos 0) x (pos 1) ≡ true
      → (leb_ℤ (pos s) (interpolated (pos s) (pos t) x)
          && leb_ℤ (interpolated (pos s) (pos t) x) (pos t))
        ≡ true
  rises s t x up all unit =
      let y = fl.times (pos (t - s)) x in
      let sum = fl.plus (pos s) y in
      let scaled : is_between fl (pos 0) y (pos (t - s)) ≡ true =
        laws.arithmetic.scaled_up (t - s) x (ground arith) unit in
      let within : is_between fl (pos s) sum (pos t) ≡ true = ground (
        arith,
        rise_gap s t up,
        no_gap s,
        laws.arithmetic.added s (pos 0) (pos (t - s)) y (ground arith) refl (ground arith) scaled,
      ) in
      let same : interpolated (pos s) (pos t) x ≡ fl.truncate sum =
        ap (λ z. fl.truncate (fl.plus (pos s) (fl.times z x))) (up_to s t up) in
      rw same (laws.arithmetic.truncated (pos s) (pos t) sum (ground arith) (ground arith) within)

  falls :
      (s t : ℕ) (x : fl.Float)
      → leb s t ≡ false
      → leb s 100 ≡ true
      → is_between fl (pos 0) x (pos 1) ≡ true
      → (leb_ℤ (pos t) (interpolated (pos s) (pos t) x)
          && leb_ℤ (interpolated (pos s) (pos t) x) (pos s))
        ≡ true
  falls s t x down all unit =
      let y = fl.times (negsuc (s - t - 1)) x in
      let sum = fl.plus (pos s) y in
      let scaled : is_between fl (negsuc (s - t - 1)) y (pos 0) ≡ true =
        laws.arithmetic.scaled_down (s - t - 1) x (ground arith) unit in
      let within : is_between fl (pos t) sum (pos s) ≡ true = ground (
        arith,
        fall_gap s t down,
        no_gap s,
        laws.arithmetic.added s (negsuc (s - t - 1)) (pos 0) y (ground arith) (ground arith) refl
            scaled,
      ) in
      let same : interpolated (pos s) (pos t) x ≡ fl.truncate sum =
        ap (λ z. fl.truncate (fl.plus (pos s) (fl.times z x))) (down_to s t down) in
      rw same (laws.arithmetic.truncated (pos t) (pos s) sum (ground arith) (ground arith) within)

  interpolated_in :
      (start target : ℤ) (x : fl.Float)
      → in_percent fl start ≡ true
      → in_percent fl target ≡ true
      → is_between fl (pos 0) x (pos 1) ≡ true
      → in_percent fl (interpolated start target x) ≡ true
  interpolated_in (pos s) (pos t) x hs ht unit = elim (Bool-cases (leb s t)) [
    | inl up ↦ let inside = rises s t x up (ground arith) unit in ground (arith, inside)
    | inr down ↦ let inside = falls s t x down (ground arith) unit in ground (arith, inside)
  ]
  interpolated_in (negsuc s) target x hs ht unit = absurd (ground arith)
  interpolated_in (pos s) (negsuc t) x hs ht unit = absurd (ground arith)

  percentage_in_progress_in :
      (r : FeatureRollout fl) (elapsed duration : ℕ)
      → in_percent fl r.start_percentage ≡ true
      → in_percent fl r.target_percentage ≡ true
      → leb duration elapsed ≡ false
      → in_percent fl (percentage_in_progress fl sv r elapsed duration) ≡ true
  percentage_in_progress_in r elapsed duration hs ht running =
      interpolated_in r.start_percentage r.target_percentage
        (fl.divide (fl.total_seconds elapsed) (fl.total_seconds duration)) hs ht
        (laws.arithmetic.quotient elapsed duration running)

  timed_percentage_in :
      (r : FeatureRollout fl) (duration started now : ℕ)
      → in_percent fl r.start_percentage ≡ true
      → in_percent fl r.target_percentage ≡ true
      → in_percent fl (timed_percentage fl sv r duration started now) ≡ true
  timed_percentage_in r duration started now hs ht = elim (Bool-cases (leb now started)) [
    | inl early ↦ rw early hs
    | inr later ↦ elim (Bool-cases (leb duration (now - started))) [
      | inl over ↦ rw (later, over) ht
      | inr running ↦
          rw (later, running) (percentage_in_progress_in r (now - started) duration hs ht running)
    ]
  ]

  running_percentage_in :
      (r : FeatureRollout fl) (days : ℤ) (started : Option ℕ) (now : ℕ)
      → in_percent fl r.start_percentage ≡ true
      → in_percent fl r.target_percentage ≡ true
      → in_percent fl (running_percentage fl sv r days started now) ≡ true
  running_percentage_in r days none now hs ht = hs
  running_percentage_in r days (some t) now hs ht =
      timed_percentage_in r (duration_of_days fl sv days) t now hs ht

  percentage_for_in :
      (r : FeatureRollout fl) (duration : Option ℤ) (now : ℕ)
      → in_percent fl r.start_percentage ≡ true
      → in_percent fl r.target_percentage ≡ true
      → in_percent fl (percentage_for fl sv r duration now) ≡ true
  percentage_for_in r none now hs ht = ht
  percentage_for_in r (some days) now hs ht =
      running_percentage_in r days (sv.time_of_text r.started_at) now hs ht

  -- The percentage of a rollout is one at every time, if its two percentages are.
  pub get_rollout_percentage_in :
      (r : FeatureRollout fl) (now : ℕ)
      → in_percent fl r.start_percentage ≡ true
      → in_percent fl r.target_percentage ≡ true
      → in_percent fl (get_rollout_percentage fl sv r now) ≡ true
  unfolding get_rollout_percentage
  get_rollout_percentage_in r now = percentage_for_in r r.duration_days now

  pub percentage_so_far_in :
      (f : FeatureType) (now : ℕ) (o : Option (FeatureRollout fl))
      → ((r : FeatureRollout fl) → o ≡ some r → IsReadableRollout fl sv f r)
      → in_percent fl (percentage_so_far fl sv now o) ≡ true
  percentage_so_far_in f now none good = refl
  percentage_so_far_in f now (some r) good =
      get_rollout_percentage_in r now (good r refl).its_start (good r refl).its_target

  not_negative :
      (p q : ℤ) → in_percent fl p ≡ true → in_percent fl q ≡ true → leb_ℤ (pos 0) (p +ℤ q) ≡ true
  unfolding ◌+ℤ◌
  not_negative (pos m) (pos n) hp hq = ground arith
  not_negative (negsuc m) q hp hq = ground arith
  not_negative (pos m) (negsuc n) hp hq = ground arith

  capped :
      (now : ℕ) (z : ℤ) → leb_ℤ (pos 0) z ≡ true → in_percent fl (at_most_all fl sv now z) ≡ true
  capped now (pos n) h = ground arith
  capped now (negsuc n) h = ground arith

  pub at_most_all_in :
      (now : ℕ) (p q : ℤ)
      → in_percent fl p ≡ true
      → in_percent fl q ≡ true
      → in_percent fl (at_most_all fl sv now (p +ℤ q)) ≡ true
  at_most_all_in now p q hp hq = capped now (p +ℤ q) (not_negative p q hp hq)
