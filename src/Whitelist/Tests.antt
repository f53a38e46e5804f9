-- ===== src/Whitelist/Tests.antt =====
-- A membership with two calls.
use sophie.Prelude.{true, false, some, ◌≡◌, refl}
use sophie.Whitelist.{
  Membership, asking, waiting_to_add, answered, goes, turn, Steps, start, begin, step, mid_write,
  is_writing,
}
use sophie.Whitelist.Agreement.{fresh, turn-agrees}

-- call 1 asks and caches what it found, then call 2 asks
abbrev cached_once : Membership
cached_once =
    goes 2 asking (turn 1 (turn 1 (turn 1 (turn 1 (turn 1 (turn 1 (goes 1 asking (fresh true))))))))

two_calls : Steps (fresh true) cached_once
unfolding turn
two_calls =
    begin 2 asking
      (step 1 (step 1 (step 1 (step 1 (step 1 (step 1 (begin 1 asking start refl refl))))))) refl
      refl

quiet : mid_write cached_once.lock cached_once.phase ≡ false
unfolding turn
quiet = refl

asks : cached_once.phase 2 ≡ asking
asks = refl

is_cached : cached_once.cache ≡ some true
unfolding turn
is_cached = refl

turn-agrees_example : (turn 2 cached_once).phase 2 ≡ answered cached_once.entry
turn-agrees_example = turn-agrees true true cached_once 2 two_calls quiet asks is_cached

abbrev one_adds : Membership
one_adds = turn 1 (goes 1 waiting_to_add (fresh false))

adds : Steps (fresh false) one_adds
adds = step 1 (begin 1 waiting_to_add start refl refl)

abbrev two_add : Membership
two_add = turn 2 (goes 2 waiting_to_add one_adds)

both_add : Steps (fresh false) two_add
unfolding turn
both_add = step 2 (begin 2 waiting_to_add adds refl refl)

still_adding : is_writing (two_add.phase 1) ≡ true
unfolding turn
still_adding = refl
