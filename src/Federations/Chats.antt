-- ===== src/Federations/Chats.antt =====
-- sophie_bot/modules/federations/services/chat.py: the chats of a federation.
pub mod Membership
use sophie.Prelude.{
  ℕ, Bool, Option, none, some, List, [], ◌∷◌, ◌++◌, true, false, ◌==◌, ◌&&◌, elem, length,
  if◌then◌else◌,
}
use sophie.Prelude.Int.{ℤ, pos, negsuc}
use sophie.Federations.Model.{Federation, World, get_by_iid, get_federation_by_id}
use sophie.Federations.Cache.{
  set_fed_id_for_chat, invalidate_federation_for_chat, get_chat_count, set_chat_count,
  incr_chat_count,
}
use sophie.Federations.Lazy.{is_channel}
use sophie.Federations.Manage.{save_federation, remove}

abbrev pub with_chats : Federation → List ℕ → Federation
with_chats federation chats = record federation { chats = chats }

unfoldable pub add_chat_to_federation : Federation → ℕ → World → Bool × World
add_chat_to_federation federation chat_iid w = elim (get_by_iid w chat_iid) [
  | none ↦ (false, w)
  | some chat ↦
      if is_channel chat.type
      then (false, w)
      else if elem chat.iid federation.chats
      then (false, w)
      else (
        true,
        record w {
          feds = save_federation (with_chats federation (federation.chats ++ chat.iid ∷ [])) w.feds;
          cache =
              incr_chat_count (set_fed_id_for_chat w.cache chat.iid federation.fed_id)
                federation.fed_id (pos 1);
        },
      )
]

unfoldable pub remove_chat_from_federation : Federation → ℕ → World → Bool × World
remove_chat_from_federation federation chat_iid w = elim (get_by_iid w chat_iid) [
  | none ↦ (false, w)
  | some chat ↦
      if elem chat_iid federation.chats
      then (
        true,
        record w {
          feds = save_federation (with_chats federation (remove chat_iid federation.chats)) w.feds;
          cache =
              incr_chat_count (invalidate_federation_for_chat w.cache chat.iid) federation.fed_id
                (negsuc 0);
        },
      )
      else (false, w)
]

-- the number of chats of a federation that is found, or 0
abbrev pub chat_count_of : Option Federation → ℕ
chat_count_of none = 0
chat_count_of (some federation) = length federation.chats

unfoldable pub get_federation_chat_count : ℕ → World → ℤ × World
get_federation_chat_count fed_id w = elim (get_chat_count w.cache fed_id) [
  | some cached ↦ (cached, w)
  | none ↦
      let n = pos (chat_count_of (get_federation_by_id w.feds fed_id)) in
      (n, record w { cache = set_chat_count w.cache fed_id n })
]
