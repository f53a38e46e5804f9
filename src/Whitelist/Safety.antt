-- ===== src/Whitelist/Safety.antt =====
-- When a membership is safe: the cached membership is the stored one, but while a call is between its
-- write and the end of its change. What moves of a call keep it.
use mathlib.Core.Path.{subst}
use sophie.Prelude.{
  ℕ, Bool, true, false, not, ◌||◌, Option, none, some, if◌then◌else◌, ◌==◌, ◌≡◌, refl, sym, ◌∙◌, ap,
  arith, Bool-cases, inl, inr, ==_refl,
}
use sophie.Whitelist.{
  Phase, found, Membership, owns, moves, goes, read_cache, acquire, is_writing, is_changed,
  mid_write,
}

abbrev pub same : Bool → Bool → Bool
same true b = b
same false b = not b

abbrev pub cache_ok : Option Bool → Bool → Bool
cache_ok none entry = true
cache_ok (some b) entry = same b entry

abbrev pub found_value : Phase → Option Bool
found_value (found b) = some b
found_value _ = none

-- The holder of the lock found the stored membership, if it reads, and no other call is writing.
abbrev pub phase_ok : Option ℕ → Bool → ℕ → Phase → Bool
phase_ok lock entry call phase =
    if owns lock call then cache_ok (found_value phase) entry else not (is_writing phase)

pub record IsSafe (s : Membership) : Type 0 where
  pub agrees : (mid_write s.lock s.phase || cache_ok s.cache s.entry) ≡ true
  pub phases : (call : ℕ) → phase_ok s.lock s.entry call (s.phase call) ≡ true

-- The lock before and after the turn of a call that takes it, keeps it or gives it up.
abbrev pub turned : ℕ → Option ℕ → Option ℕ → Bool
turned call none none = true
turned call none (some owner) = owner == call
turned call (some owner) none = owner == call
turned call (some owner) (some owner') = owner == owner'

kept_ok :
    (o o' : ℕ) (entry entry' : Bool) (other : ℕ) (phase : Phase)
    → o ≡ o'
    → same entry entry' ≡ true
    → phase_ok (some o) entry other phase ≡ true
    → phase_ok (some o') entry' other phase ≡ true
kept_ok o o' true true other phase e h ok = ground arith
kept_ok o o' false false other phase e h ok = ground arith
kept_ok o o' true false other phase e h ok = cc
kept_ok o o' false true other phase e h ok = cc

-- What another call knows stays right if the turn writes only under the lock.
others_ok :
    (lock lock' : Option ℕ) (entry entry' : Bool) (call other : ℕ) (phase : Phase)
    → (other == call) ≡ false
    → turned call lock lock' ≡ true
    → (owns lock call || same entry entry') ≡ true
    → phase_ok lock entry other phase ≡ true
    → phase_ok lock' entry' other phase ≡ true
others_ok none none entry entry' call other phase h t w ok = ground arith
others_ok none (some o) entry entry' call other phase h t w ok = ground arith
others_ok (some o) none entry entry' call other phase h t w ok = ground arith
others_ok (some o) (some o') entry entry' call other phase h t w ok =
    elim (Bool-cases (o == call)) [
      | inl e ↦ ground arith
      | inr e ↦ kept_ok o o' entry entry' other phase (ground arith) (ground arith) ok
    ]

pub moves-IsSafe :
    (call : ℕ) (next : Phase) (entry : Bool) (cache : Option Bool) (lock : Option ℕ)
    (s : Membership)
    → IsSafe s
    → turned call s.lock lock ≡ true
    → (owns s.lock call || same s.entry entry) ≡ true
    → phase_ok lock entry call next ≡ true
    → (mid_write lock (moves call next entry cache lock s).phase || cache_ok cache entry) ≡ true
    → IsSafe (moves call next entry cache lock s)
moves-IsSafe call next entry cache lock s safe t w ok agrees = record {
  agrees = agrees;
  phases = λ other. elim (Bool-cases (other == call)) [
    | inl e ↦ here other e
    | inr e ↦
        rw e
          (others_ok s.lock lock s.entry entry call other (s.phase other) e t w (safe.phases other))
  ];
}
  where
    here :
        (other : ℕ)
        → (other == call) ≡ true
        → phase_ok lock entry other (if other == call then next else s.phase other) ≡ true
    here other e = ground (arith, ok)

pub mid_write-moves :
    (lock : Option ℕ) (call : ℕ) (next : Phase) (phase : ℕ → Phase)
    → is_changed (phase call) ≡ false
    → is_changed next ≡ false
    → mid_write lock (λ other. if other == call then next else phase other) ≡ mid_write lock phase
mid_write-moves none call next phase h h' = refl
mid_write-moves (some o) call next phase h h' = elim (Bool-cases (o == call)) [
  | inl e ↦
      let here : o ≡ call = ground arith in
      rw e (h' ∙ sym (ap (λ x. is_changed (phase x)) here ∙ h))
  | inr e ↦ rw e refl
]

pub same_refl : (lock_held entry : Bool) → (lock_held || same entry entry) ≡ true
same_refl true entry = refl
same_refl false true = refl
same_refl false false = refl

pub turned_refl : (call : ℕ) (lock : Option ℕ) → turned call lock lock ≡ true
turned_refl call none = refl
turned_refl call (some o) = ==_refl o

-- a phase that neither writes nor has found anything
pub record IsPlain (phase : Phase) : Type 0 where
  pub no_change : is_changed phase ≡ false
  pub no_write : is_writing phase ≡ false
  pub no_find : found_value phase ≡ none

pub plain_ok :
    (lock : Option ℕ) (entry : Bool) (call : ℕ) (next : Phase)
    → IsPlain next
    → phase_ok lock entry call next ≡ true
plain_ok lock entry call next plain = elim (Bool-cases (owns lock call)) [
  | inl e ↦ rw (e, plain.no_find) refl
  | inr e ↦ rw (e, plain.no_write) refl
]

-- The call goes on to a plain phase, and may take or give up the lock, with the entry as it is, and
-- the cache as it is or right.
pub quiet-IsSafe :
    (call : ℕ) (next : Phase) (cache : Option Bool) (lock : Option ℕ) (s : Membership)
    → IsSafe s
    → is_changed (s.phase call) ≡ false
    → IsPlain next
    → turned call s.lock lock ≡ true
    → (mid_write lock s.phase || cache_ok cache s.entry) ≡ true
    → IsSafe (moves call next s.entry cache lock s)
quiet-IsSafe call next cache lock s safe h plain t agrees =
    moves-IsSafe call next s.entry cache lock s safe t (same_refl (owns s.lock call) s.entry)
      (plain_ok lock s.entry call next plain)
      (rw (mid_write-moves lock call next s.phase h plain.no_change) agrees)

pub goes-IsSafe :
    (call : ℕ) (next : Phase) (s : Membership)
    → IsSafe s
    → is_changed (s.phase call) ≡ false
    → IsPlain next
    → IsSafe (goes call next s)
goes-IsSafe call next s safe h plain =
    quiet-IsSafe call next s.cache s.lock s safe h plain (turned_refl call s.lock) safe.agrees

pub read_cache-IsPlain :
    (hit : Bool → Phase) (miss : Phase) (cache : Option Bool)
    → ((b : Bool) → IsPlain (hit b))
    → IsPlain miss
    → IsPlain (read_cache hit miss cache)
read_cache-IsPlain hit miss none hits misses = misses
read_cache-IsPlain hit miss (some b) hits misses = hits b

pub plainly :
    {phase : Phase}
    → is_changed phase ≡ false
    → is_writing phase ≡ false
    → found_value phase ≡ none
    → IsPlain phase
plainly a b c = record { no_change = a; no_write = b; no_find = c }

pub acquire_quiet :
    (call : ℕ) (waiting next : Phase) (s : Membership) (lock : Option ℕ)
    → s.lock ≡ lock
    → IsSafe s
    → is_changed (s.phase call) ≡ false
    → IsPlain waiting
    → phase_ok (some call) s.entry call next ≡ true
    → is_changed next ≡ false
    → IsSafe (acquire call waiting next s lock)
acquire_quiet call waiting next s none e safe h wait ok no_change =
    moves-IsSafe call next s.entry s.cache (some call) s safe (rw e (==_refl call))
      (same_refl (owns s.lock call) s.entry) ok
      (rw (==_refl call, no_change)
        (subst (λ l. (mid_write l s.phase || cache_ok s.cache s.entry) ≡ true) e safe.agrees))
acquire_quiet call waiting next s (some o) e safe h wait ok no_change =
    goes-IsSafe call waiting s safe h wait
