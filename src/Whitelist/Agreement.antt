-- ===== src/Whitelist/Agreement.antt =====
-- The cached membership is the stored one, whatever calls run at once.
use mathlib.Core.Path.{subst}
use sophie.Prelude.{
  ℕ, Bool, true, false, not, ◌||◌, Option, none, some, ◌==◌, ◌≡◌, refl, sym, ◌∙◌, ap, arith,
  Bool-cases, inl, inr, ==_refl,
}
use sophie.Whitelist.{
  Phase, idle, asking, waiting_to_read, waiting_to_add, waiting_to_remove, changed, answered,
  timed_out, Membership, turn, is_writing, is_changed, mid_write, is_writer, begins, waits, Steps,
  start, begin, step, give_up, cache_expires, lease_ends,
}
use sophie.Whitelist.Safety.{same, cache_ok, phase_ok, IsSafe, IsPlain, goes-IsSafe, plainly}
use sophie.Whitelist.Turns.{or_true, turn_from-IsSafe}

-- A membership where no call is under way, and nothing is cached.
abbrev pub fresh : Bool → Membership
fresh entry = record { entry = entry; cache = none; lock = none; phase = λ call. idle }

fresh-IsSafe : (entry : Bool) → IsSafe (fresh entry)
fresh-IsSafe entry = record { agrees = refl; phases = λ call. refl }

waiting_unchanged : (phase : Phase) → waits phase ≡ true → is_changed phase ≡ false
waiting_unchanged waiting_to_read h = refl
waiting_unchanged waiting_to_add h = refl
waiting_unchanged waiting_to_remove h = refl
waiting_unchanged phase h = absurd (ground arith)

begins-IsPlain : (first : Phase) → begins first ≡ true → IsPlain first
begins-IsPlain asking h = plainly refl refl refl
begins-IsPlain waiting_to_add h = plainly refl refl refl
begins-IsPlain waiting_to_remove h = plainly refl refl refl
begins-IsPlain first h = absurd (ground arith)

idle_unchanged : (phase : Phase) → is_writing phase ≡ false → is_changed phase ≡ false
idle_unchanged (changed b) h = absurd (ground arith)
idle_unchanged phase h = refl

unlocked_agrees :
    (lock : Option ℕ) (phase : ℕ → Phase) (cached : Bool)
    → is_writer lock phase ≡ false
    → (mid_write lock phase || cached) ≡ true
    → cached ≡ true
unlocked_agrees none phase cached w agrees = agrees
unlocked_agrees (some o) phase cached w agrees = ground (arith, idle_unchanged (phase o) w)

unlocked_ok :
    (lock : Option ℕ) (entry : Bool) (call : ℕ) (phase : ℕ → Phase)
    → is_writer lock phase ≡ false
    → phase_ok lock entry call (phase call) ≡ true
    → not (is_writing (phase call)) ≡ true
unlocked_ok none entry call phase w ok = ok
unlocked_ok (some o) entry call phase w ok = elim (Bool-cases (o == call)) [
  | inl e ↦
      let here : o ≡ call = ground arith in ap not (ap (λ x. is_writing (phase x)) (sym here) ∙ w)
  | inr e ↦ ground arith
]

turn-IsSafe : (call : ℕ) (s : Membership) → IsSafe s → IsSafe (turn call s)
unfolding turn
turn-IsSafe call s = turn_from-IsSafe call s (s.phase call) refl

-- Every state that any number of calls reach is safe.
pub Steps-IsSafe : (entry : Bool) (s : Membership) → Steps (fresh entry) s → IsSafe s
Steps-IsSafe entry _ start = fresh-IsSafe entry
Steps-IsSafe entry _ (begin {s} call first h e b) =
    goes-IsSafe call first s (Steps-IsSafe entry s h) (ap is_changed e) (begins-IsPlain first b)
Steps-IsSafe entry _ (step {s} call h) = turn-IsSafe call s (Steps-IsSafe entry s h)
Steps-IsSafe entry _ (give_up {s} call h w) =
    goes-IsSafe call timed_out s (Steps-IsSafe entry s h) (waiting_unchanged (s.phase call) w)
      (plainly refl refl refl)
Steps-IsSafe entry _ (cache_expires {s} h) =
    let safe = Steps-IsSafe entry s h in
    record { agrees = or_true (mid_write s.lock s.phase); phases = safe.phases }
Steps-IsSafe entry _ (lease_ends {s} h w) =
    let safe = Steps-IsSafe entry s h in
    record {
      agrees = unlocked_agrees s.lock s.phase (cache_ok s.cache s.entry) w safe.agrees;
      phases = λ call. unlocked_ok s.lock s.entry call s.phase w (safe.phases call);
    }

same_sound : (a b : Bool) → same a b ≡ true → a ≡ b
same_sound true b h = sym h
same_sound false true h = cc
same_sound false false h = refl

-- From a membership with no calls and nothing cached, whatever calls then run at once, locks and cached
-- memberships expire and waits are given up: a call that reads a cached membership, while no call that
-- holds the lock stands between its write and the end of its change, answers the stored membership.
-- Locks are taken not to expire for a call that is changing it.
pub turn-agrees :
    (entry b : Bool) (s : Membership) (call : ℕ)
    → Steps (fresh entry) s
    → mid_write s.lock s.phase ≡ false
    → s.phase call ≡ asking
    → s.cache ≡ some b
    → (turn call s).phase call ≡ answered s.entry
unfolding turn
turn-agrees entry b s call h quiet e c =
    let safe = Steps-IsSafe entry s h in
    let right : cache_ok s.cache s.entry ≡ true = ground (arith, safe.agrees) in
    let stored : b ≡ s.entry =
      same_sound b s.entry (subst (λ x. cache_ok x s.entry ≡ true) c right) in
    rw (e, c, ==_refl call) (ap answered stored)
