-- ===== src/FeatureFlags/Service/Overlap.antt =====
-- A read of a flag and a deletion of its override that overlap: each takes its steps at its calls of
-- Redis and of the collection, in turn with the other's, on one state.
use sophie.Prelude.{ℕ, Option, none, some, List, [], ◌∷◌, ◌≡◌, refl}
use sophie.FeatureFlags.Flags.{FeatureType}
use sophie.FeatureFlags.Values.{Floats, Value}
use sophie.FeatureFlags.Rollouts.{Services}
use sophie.FeatureFlags.Store.{
  FlagState, stored_value, warm, delete_override, delete_document, write_hash, cached_value,
  resolve_cached_override, first_found,
}
use sophie.FeatureFlags.Service.{get_value, value_or, rollout_value}
use sophie.FeatureFlags.Coherence.{IsReadable, same_place_refl}

-- where a call of `delete_override` or `delete_chat_override` stands
pub data Deleting : Type 0 where
  deleting document_deleted deleted : Deleting

-- whose step comes next
pub data Turn : Type 0 where
  reads deletes : Turn

module _ (fl : Floats) where
  -- Where a call of `_resolve_cached_override` stands: before `hget`, after a miss, after the
  -- document is read, at its end.
  pub data Reading : Type 0 where
    looking : Reading
    missed : Reading
    fetched : Option (Value fl) → Reading
    returned : Option (Value fl) → Reading

  -- the early return of a hit
  abbrev pub looked_up : Option (Value fl) → Reading
  looked_up none = missed
  looked_up (some v) = returned (some v)

  -- the part of `_resolve_cached_override` up to its next call of Redis or the collection
  unfoldable pub read_turn :
      FeatureType → Option ℕ → Reading → FlagState fl → Reading × FlagState fl
  read_turn f chat looking s = (looked_up (cached_value fl f chat s.redis), s)
  read_turn f chat missed s = (fetched (stored_value fl f chat s.db), s)
  read_turn f chat (fetched v) s = (returned v, warm fl f chat v s)
  read_turn f chat (returned v) s = (returned v, s)

  -- the two calls of `delete_override` and `delete_chat_override`
  unfoldable pub delete_turn :
      FeatureType → Option ℕ → Deleting → FlagState fl → Deleting × FlagState fl
  delete_turn f chat deleting s =
      (document_deleted, record { db = delete_document fl f chat s.db; redis = s.redis })
  delete_turn f chat document_deleted s =
      (deleted, record { db = s.db; redis = write_hash fl f chat none s.redis })
  delete_turn f chat deleted s = (deleted, s)

  -- both calls, and the state that they share
  pub record Overlap : Type 0 where
    pub reading : Reading
    pub deletion : Deleting
    pub shared : FlagState fl

  unfoldable pub take_turn : FeatureType → Option ℕ → Turn → Overlap → Overlap
  unfolding read_turn delete_turn
  take_turn f chat reads o =
      let step = read_turn f chat o.reading o.shared in
      record { reading = step.0; deletion = o.deletion; shared = step.1 }
  take_turn f chat deletes o =
      let step = delete_turn f chat o.deletion o.shared in
      record { reading = o.reading; deletion = step.0; shared = step.1 }

  unfoldable pub take_turns : FeatureType → Option ℕ → List Turn → Overlap → Overlap
  unfolding take_turn
  take_turns f chat [] o = o
  take_turns f chat (t ∷ ts) o = take_turns f chat ts (take_turn f chat t o)

  -- two calls that begin
  abbrev pub begun : FlagState fl → Overlap
  begun s = record { reading = looking; deletion = deleting; shared = s }

  -- The deletion runs after the read has its document and before it is cached.
  abbrev pub crossed : List Turn
  crossed = reads ∷ reads ∷ deletes ∷ deletes ∷ reads ∷ []

  resolved_turns :
      (f : FeatureType) (chat : Option ℕ) (o : Option (Value fl)) (s : FlagState fl)
      → cached_value fl f chat s.redis ≡ o
      → take_turns f chat (reads ∷ reads ∷ reads ∷ []) (begun s) ≡ record {
        reading = returned (first_found fl f chat o s).1;
        deletion = deleting;
        shared = (first_found fl f chat o s).0;
      }
  unfolding take_turns
  resolved_turns f chat none s h = rw h refl
  resolved_turns f chat (some v) s h = rw h refl

  -- The steps of either call, alone, are the call.
  pub take_turns_alone :
      (f : FeatureType) (chat : Option ℕ) (s : FlagState fl)
      → (take_turns f chat (reads ∷ reads ∷ reads ∷ []) (begun s) ≡ record {
        reading = returned (resolve_cached_override fl f chat s).1;
        deletion = deleting;
        shared = (resolve_cached_override fl f chat s).0;
      })
        × (take_turns f chat (deletes ∷ deletes ∷ []) (begun s) ≡ record {
          reading = looking;
          deletion = deleted;
          shared = delete_override fl f chat s;
        })
  unfolding take_turns resolve_cached_override delete_override
  take_turns_alone f chat s = (resolved_turns f chat (cached_value fl f chat s.redis) s refl, refl)

module _ (fl : Floats) (sv : Services fl) where
  hit_first :
      (now : ℕ) (f : FeatureType) (v : Value fl) (s : FlagState fl) (o : Option (Value fl))
      → o ≡ some v
      → value_or fl sv now (rollout_value fl sv now f none) (first_found fl f none o s)
        ≡ (s, some v)
  hit_first now f v s none h = cc
  hit_first now f v s (some w) h = cc

  crossed_shared :
      (f : FeatureType) (v : Value fl) (s : FlagState fl)
      → cached_value fl f none s.redis ≡ none
      → stored_value fl f none s.db ≡ some v
      → (take_turns fl f none (crossed fl) (begun fl s)).shared
        ≡ warm fl f none (some v) (delete_override fl f none s)
  unfolding take_turns delete_override
  crossed_shared f v s miss h = rw (miss, h) refl

  warmed_deletion :
      (now : ℕ) (f : FeatureType) (v : Value fl) (s : FlagState fl)
      → IsReadable fl sv f v
      → let after = warm fl f none (some v) (delete_override fl f none s) in
        (stored_value fl f none after.db ≡ none)
        × (get_value fl sv now f none after ≡ (after, some v))
  unfolding get_value resolve_cached_override delete_override
  warmed_deletion now f v s good =
      let after = warm fl f none (some v) (delete_override fl f none s) in
      let gone : stored_value fl f none after.db ≡ none = rw (same_place_refl fl sv f none) refl in
      let hit : cached_value fl f none after.redis ≡ some v =
        rw (same_place_refl fl sv f none) good in
      (gone, hit_first now f v after (cached_value fl f none after.redis) hit)

  -- A deletion of a flag's override, with a value that is read back, between the miss and the write of
  -- a read that Redis has no value for, is lost: the document is gone, and the flag is answered the
  -- deleted value from Redis at any time, in a state that the read leaves as it is.
  pub get_value-crossed :
      (now : ℕ) (f : FeatureType) (v : Value fl) (s : FlagState fl)
      → cached_value fl f none s.redis ≡ none
      → stored_value fl f none s.db ≡ some v
      → IsReadable fl sv f v
      → let after = (take_turns fl f none (crossed fl) (begun fl s)).shared in
        (stored_value fl f none after.db ≡ none)
        × (get_value fl sv now f none after ≡ (after, some v))
  get_value-crossed now f v s miss h good =
      rw (crossed_shared f v s miss h) (warmed_deletion now f v s good)
