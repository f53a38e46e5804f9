-- ===== src/Whitelist/Turns.antt =====
-- Every turn of a call keeps a membership safe.
use mathlib.Core.Path.{subst}
use sophie.Prelude.{
  ℕ, Bool, true, false, not, ◌||◌, Option, none, some, if◌then◌else◌, ◌==◌, ◌≡◌, refl, sym, ap,
  arith, Bool-cases, inl, inr, ==_refl,
}
use sophie.Whitelist.{
  Phase, idle, asking, waiting_to_read, holding, missed, found, waiting_to_add, adding, inserting,
  waiting_to_remove, removing, deleting, changed, releasing, answered, timed_out, Membership, owns,
  moves, goes, read_cache, turn_from, is_writing, is_changed, mid_write,
}
use sophie.Whitelist.Safety.{
  cache_ok, found_value, phase_ok, IsSafe, turned, moves-IsSafe, mid_write-moves, same_refl,
  turned_refl, plain_ok, quiet-IsSafe, goes-IsSafe, read_cache-IsPlain, plainly, acquire_quiet,
}

-- The phase of the call that takes a turn, as it stands in a safe state.
at_turn :
    (call : ℕ) (s : Membership) (phase : Phase)
    → s.phase call ≡ phase
    → IsSafe s
    → phase_ok s.lock s.entry call phase ≡ true
at_turn call s phase e safe =
    subst (λ x. phase_ok s.lock s.entry call x ≡ true) e (safe.phases call)

-- A writer that holds the lock goes on, whatever it does to the entry, until it has changed it.
write-IsSafe :
    (call : ℕ) (b entry : Bool) (s : Membership)
    → owns s.lock call ≡ true
    → IsSafe s
    → IsSafe (moves call (changed b) entry s.cache s.lock s)
write-IsSafe call b entry s h safe =
    moves-IsSafe call (changed b) entry s.cache s.lock s safe (turned_refl call s.lock) (rw h refl)
      (rw h refl) (changed_by s.lock h)
  where
    changed_by :
        (lock : Option ℕ)
        → owns lock call ≡ true
        → (mid_write lock (moves call (changed b) entry s.cache s.lock s).phase
            || cache_ok s.cache entry)
          ≡ true
    changed_by none h' = cc
    changed_by (some o) h' = rw h' refl

-- A writer that holds the lock goes on to a phase where it has not written yet.
prepare-IsSafe :
    (call : ℕ) (next : Phase) (s : Membership)
    → owns s.lock call ≡ true
    → is_changed (s.phase call) ≡ false
    → is_changed next ≡ false
    → found_value next ≡ none
    → IsSafe s
    → IsSafe (goes call next s)
prepare-IsSafe call next s h e e' e'' safe =
    moves-IsSafe call next s.entry s.cache s.lock s safe (turned_refl call s.lock) (rw h refl)
      (rw (h, e'') refl) (rw (mid_write-moves s.lock call next s.phase e e') safe.agrees)

pub owned :
    (call : ℕ) (s : Membership) (phase : Phase)
    → s.phase call ≡ phase
    → is_writing phase ≡ true
    → IsSafe s
    → owns s.lock call ≡ true
owned call s phase e writes safe = ground (arith, at_turn call s phase e safe)

either_goes :
    (call : ℕ) (b : Bool) (next next' : Phase) (s : Membership)
    → IsSafe (goes call next s)
    → IsSafe (goes call next' s)
    → IsSafe (goes call (if b then next else next') s)
either_goes call true next next' s h h' = h
either_goes call false next next' s h h' = h'

pub or_true : (b : Bool) → (b || true) ≡ true
or_true true = refl
or_true false = refl

cached_right :
    (lock : Option ℕ) (call : ℕ) (b entry : Bool) (cache : Option Bool) (writing : Bool)
    → phase_ok lock entry call (found b) ≡ true
    → (writing || cache_ok cache entry) ≡ true
    → (writing || cache_ok (if owns lock call then some b else cache) entry) ≡ true
cached_right lock call b entry cache true ok h = refl
cached_right lock call b entry cache false ok h = elim (Bool-cases (owns lock call)) [
  | inl e ↦ ground (arith, ok)
  | inr e ↦ rw e h
]

released :
    (call : ℕ) (lock : Option ℕ) → turned call lock (if owns lock call then none else lock) ≡ true
released call none = refl
released call (some o) = elim (Bool-cases (o == call)) [ inl e ↦ rw e e | inr e ↦ rw e (==_refl o) ]

released_agrees :
    (call : ℕ) (lock : Option ℕ) (phase : ℕ → Phase) (cached : Bool)
    → is_changed (phase call) ≡ false
    → (mid_write lock phase || cached) ≡ true
    → (mid_write (if owns lock call then none else lock) phase || cached) ≡ true
released_agrees call none phase cached h agrees = agrees
released_agrees call (some o) phase cached h agrees = elim (Bool-cases (o == call)) [
  | inl e ↦
      let here : o ≡ call = ground arith in
      rw e (
        subst (λ x. (is_changed (phase x) || cached) ≡ true → cached ≡ true) (sym here)
          (λ k. ground (arith, h, k)) agrees)
  | inr e ↦ rw e agrees
]

pub turn_from-IsSafe :
    (call : ℕ) (s : Membership) (phase : Phase)
    → s.phase call ≡ phase
    → IsSafe s
    → IsSafe (turn_from call s phase)
turn_from-IsSafe call s idle e safe = safe
turn_from-IsSafe call s asking e safe =
    goes-IsSafe call (read_cache answered waiting_to_read s.cache) s safe (ap is_changed e) (
      read_cache-IsPlain answered waiting_to_read s.cache (λ b. plainly refl refl refl)
        (plainly refl refl refl))
turn_from-IsSafe call s waiting_to_read e safe =
    acquire_quiet call waiting_to_read holding s s.lock refl safe (ap is_changed e)
      (plainly refl refl refl) (rw (==_refl call) refl) refl
turn_from-IsSafe call s holding e safe =
    goes-IsSafe call (read_cache releasing missed s.cache) s safe (ap is_changed e) (
      read_cache-IsPlain releasing missed s.cache (λ b. plainly refl refl refl)
        (plainly refl refl refl))
turn_from-IsSafe call s missed e safe =
    moves-IsSafe call (found s.entry) s.entry s.cache s.lock s safe (turned_refl call s.lock)
      (same_refl (owns s.lock call) s.entry) (ground (arith, same_refl false s.entry))
      (rw (mid_write-moves s.lock call (found s.entry) s.phase (ap is_changed e) refl) safe.agrees)
turn_from-IsSafe call s (found b) e safe =
    quiet-IsSafe call (releasing b) (if owns s.lock call then some b else s.cache) s.lock s safe
      (ap is_changed e) (plainly refl refl refl) (turned_refl call s.lock)
      (cached_right s.lock call b s.entry s.cache (mid_write s.lock s.phase)
        (at_turn call s (found b) e safe) safe.agrees)
turn_from-IsSafe call s waiting_to_add e safe =
    acquire_quiet call waiting_to_add adding s s.lock refl safe (ap is_changed e)
      (plainly refl refl refl) (rw (==_refl call) refl) refl
turn_from-IsSafe call s adding e safe =
    either_goes call s.entry (changed false) inserting s
      (write-IsSafe call false s.entry s (owned call s adding e refl safe) safe)
      (prepare-IsSafe call inserting s (owned call s adding e refl safe) (ap is_changed e) refl refl
        safe)
turn_from-IsSafe call s inserting e safe =
    write-IsSafe call (not s.entry) true s (owned call s inserting e refl safe) safe
turn_from-IsSafe call s waiting_to_remove e safe =
    acquire_quiet call waiting_to_remove removing s s.lock refl safe (ap is_changed e)
      (plainly refl refl refl) (rw (==_refl call) refl) refl
turn_from-IsSafe call s removing e safe =
    either_goes call s.entry deleting (changed false) s
      (prepare-IsSafe call deleting s (owned call s removing e refl safe) (ap is_changed e) refl
        refl safe)
      (write-IsSafe call false s.entry s (owned call s removing e refl safe) safe)
turn_from-IsSafe call s deleting e safe =
    write-IsSafe call true false s (owned call s deleting e refl safe) safe
turn_from-IsSafe call s (changed b) e safe =
    moves-IsSafe call (releasing b) s.entry none s.lock s safe (turned_refl call s.lock)
      (same_refl (owns s.lock call) s.entry)
      (plain_ok s.lock s.entry call (releasing b) (plainly refl refl refl))
      (or_true (mid_write s.lock (moves call (releasing b) s.entry none s.lock s).phase))
turn_from-IsSafe call s (releasing b) e safe =
    quiet-IsSafe call (answered b) s.cache (if owns s.lock call then none else s.lock) s safe
      (ap is_changed e) (plainly refl refl refl) (released call s.lock)
      (released_agrees call s.lock s.phase (cache_ok s.cache s.entry) (ap is_changed e) safe.agrees)
turn_from-IsSafe call s (answered b) e safe = safe
turn_from-IsSafe call s timed_out e safe = safe
