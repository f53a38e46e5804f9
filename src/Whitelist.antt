-- ===== src/Whitelist.antt =====
-- The membership of one user in the whitelist of one group (sophie_bot/utils/group_whitelist.py and
-- sophie_bot/db/models/group_user_whitelist.py), with any number of calls that run at once. A call is
-- a number, which is also the owner that it writes into the lock. `turn` is what a call does up to its
-- next wait: one command of Redis, one transaction, or one query of the collection.
pub mod Safety
pub mod Turns
pub mod Agreement
mod Tests
use sophie.Prelude.{
  ℕ, Bool, true, false, not, Option, none, some, List, [], ◌∷◌, if◌then◌else◌, ◌==◌, ◌≡◌,
}

-- Where a call of is_user_group_whitelisted, add_user_to_group_whitelist or
-- remove_user_from_group_whitelist stands. A Boolean is what the call found or will answer.
pub data Phase : Type 0 where
  idle : Phase
  asking : Phase
  waiting_to_read : Phase
  holding : Phase
  missed : Phase
  found : Bool → Phase
  waiting_to_add : Phase
  adding : Phase
  inserting : Phase
  waiting_to_remove : Phase
  removing : Phase
  deleting : Phase
  changed : Bool → Phase
  releasing : Bool → Phase
  answered : Bool → Phase
  timed_out : Phase

pub record Membership : Type 0 where
  -- is there a document of the user in the group?
  pub entry : Bool
  pub cache : Option Bool
  pub lock : Option ℕ
  pub phase : ℕ → Phase

abbrev pub owns : Option ℕ → ℕ → Bool
owns none call = false
owns (some owner) call = owner == call

-- the call goes on to a phase, with the entry, the cache and the lock as it leaves them
abbrev pub moves : ℕ → Phase → Bool → Option Bool → Option ℕ → Membership → Membership
moves call next entry cache lock s = record {
  entry = entry;
  cache = cache;
  lock = lock;
  phase = λ other. if other == call then next else s.phase other;
}

abbrev pub goes : ℕ → Phase → Membership → Membership
goes call next s = moves call next s.entry s.cache s.lock s

-- `redis.get(cache_key)`
abbrev pub read_cache : (Bool → Phase) → Phase → Option Bool → Phase
read_cache hit miss none = miss
read_cache hit miss (some b) = hit b

-- `redis.set(lock_key, owner, nx=True, …)`, again and again until it succeeds
abbrev pub acquire : ℕ → Phase → Phase → Membership → Option ℕ → Membership
acquire call waiting next s none = moves call next s.entry s.cache (some call) s
acquire call waiting next s (some owner) = goes call waiting s

-- `_release_group_user_whitelist_lock`
abbrev pub release : ℕ → Bool → Membership → Membership
release call b s =
    moves call (answered b) s.entry s.cache (if owns s.lock call then none else s.lock) s

-- `_cache_membership_if_lock_owned`
abbrev pub cache_if_owned : ℕ → Bool → Membership → Membership
cache_if_owned call b s =
    moves call (releasing b) s.entry (if owns s.lock call then some b else s.cache) s.lock s

-- `add_user`: `find_one`, then `insert`, which a document that is there meanwhile makes fail
abbrev pub look_to_add : ℕ → Membership → Membership
look_to_add call s = goes call (if s.entry then changed false else inserting) s

abbrev pub insert : ℕ → Membership → Membership
insert call s = moves call (changed (not s.entry)) true s.cache s.lock s

-- `remove_user`: `find_one`, then `delete`
abbrev pub look_to_remove : ℕ → Membership → Membership
look_to_remove call s = goes call (if s.entry then deleting else changed false) s

abbrev pub delete : ℕ → Membership → Membership
delete call s = moves call (changed true) false s.cache s.lock s

-- `invalidate_group_user_whitelist_cache`
abbrev pub invalidate : ℕ → Bool → Membership → Membership
invalidate call b s = moves call (releasing b) s.entry none s.lock s

abbrev pub turn_from : ℕ → Membership → Phase → Membership
turn_from call s idle = s
turn_from call s asking = goes call (read_cache answered waiting_to_read s.cache) s
turn_from call s waiting_to_read = acquire call waiting_to_read holding s s.lock
turn_from call s holding = goes call (read_cache releasing missed s.cache) s
turn_from call s missed = goes call (found s.entry) s
turn_from call s (found b) = cache_if_owned call b s
turn_from call s waiting_to_add = acquire call waiting_to_add adding s s.lock
turn_from call s adding = look_to_add call s
turn_from call s inserting = insert call s
turn_from call s waiting_to_remove = acquire call waiting_to_remove removing s s.lock
turn_from call s removing = look_to_remove call s
turn_from call s deleting = delete call s
turn_from call s (changed b) = invalidate call b s
turn_from call s (releasing b) = release call b s
turn_from call s (answered b) = s
turn_from call s timed_out = s

unfoldable pub turn : ℕ → Membership → Membership
turn call s = turn_from call s (s.phase call)

-- Is a call between the lock and the end of its change?
abbrev pub is_writing : Phase → Bool
is_writing adding = true
is_writing inserting = true
is_writing removing = true
is_writing deleting = true
is_writing (changed b) = true
is_writing _ = false

abbrev pub is_changed : Phase → Bool
is_changed (changed b) = true
is_changed _ = false

-- Does a call hold the lock that has written, and not yet dropped the cached membership?
abbrev pub mid_write : Option ℕ → (ℕ → Phase) → Bool
mid_write none phase = false
mid_write (some owner) phase = is_changed (phase owner)

abbrev pub is_writer : Option ℕ → (ℕ → Phase) → Bool
is_writer none phase = false
is_writer (some owner) phase = is_writing (phase owner)

abbrev pub begins : Phase → Bool
begins asking = true
begins waiting_to_add = true
begins waiting_to_remove = true
begins _ = false

abbrev pub waits : Phase → Bool
waits waiting_to_read = true
waits waiting_to_add = true
waits waiting_to_remove = true
waits _ = false

-- What happens to the membership: a call starts, takes a turn or gives up the wait for the lock; a
-- cached membership reaches its time to live; a lock does. The last is taken to happen to no call
-- that is changing the membership, which has ten seconds for it.
pub data Steps (s₀ : Membership) : Membership → Type 0 where
  start : Steps s₀ s₀
  begin :
      {s : Membership} (call : ℕ) (first : Phase)
      → Steps s₀ s
      → s.phase call ≡ idle
      → begins first ≡ true
      → Steps s₀ (goes call first s)
  step : {s : Membership} (call : ℕ) → Steps s₀ s → Steps s₀ (turn call s)
  give_up :
      {s : Membership} (call : ℕ)
      → Steps s₀ s
      → waits (s.phase call) ≡ true
      → Steps s₀ (goes call timed_out s)
  cache_expires :
      {s : Membership}
      → Steps s₀ s
      → Steps s₀ (record { entry = s.entry; cache = none; lock = s.lock; phase = s.phase })
  lease_ends :
      {s : Membership}
      → Steps s₀ s
      → is_writer s.lock s.phase ≡ false
      → Steps s₀ (record { entry = s.entry; cache = s.cache; lock = none; phase = s.phase })
