-- ===== src/Federations/Resolve.antt =====
-- The rest of FederationManageService, where an empty argument is `none`: which federation a command is about, and the log channel
-- (sophie_bot/modules/federations/services/manage.py).
use sophie.Prelude.{
  ℕ, Bool, Option, none, some, List, [], ◌∷◌, true, false, ◌==◌, not, find, keep, if◌then◌else◌,
}
use sophie.Federations.Model.{Federation, World, get_by_iid, get_by_tid, get_federation_by_id}
use sophie.Federations.Manage.{save_federation, get_federation_for_chat}

-- the errors of `get_federation`
pub data ContextError : Type 0 where
  not_found not_in_federation user_unknown multiple_federations no_federations undetermined :
      ContextError

pub data Resolved : Type 0 where
  found : Federation → Resolved
  context_error : ContextError → Resolved

-- the chat of a connection: its id, whether it is connected, and whether it is private
pub record ChatConnection : Type 0 where
  pub chat_iid : ℕ
  pub is_connected : Bool
  pub is_private : Bool

abbrev pub get_federation_by_creator : World → ℕ → Option Federation
get_federation_by_creator w creator_iid = find (λ f. f.creator == creator_iid) w.feds

abbrev pub get_federations_by_creator : World → ℕ → List Federation
get_federations_by_creator w creator_iid = keep (λ f. f.creator == creator_iid) w.feds

abbrev pub only_one : List Federation → Resolved
only_one [] = context_error no_federations
only_one (f ∷ []) = found f
only_one (f ∷ g ∷ feds) = context_error multiple_federations

abbrev pub applies : Option ChatConnection → Bool
applies none = false
applies (some c) = if c.is_connected then true else not c.is_private

-- by the user, when neither the argument nor the chat says which one
unfoldable pub by_user : World → Option ℕ → Resolved
by_user w none = context_error undetermined
by_user w (some user_id) = elim (get_by_tid w user_id) [
  | none ↦ context_error user_unknown
  | some user ↦ only_one (get_federations_by_creator w user.iid)
]

-- by the chat, where it is connected or no private one
unfoldable pub by_chat : Option ChatConnection → Option ℕ → World → Resolved × World
by_chat none user_id w = (by_user w user_id, w)
by_chat (some c) user_id w =
    if applies (some c)
    then (let (federation, w') = get_federation_for_chat c.chat_iid w in
        (elim federation [ none ↦ context_error not_in_federation | some f ↦ found f ], w'))
    else (by_user w user_id, w)

unfoldable pub get_federation :
    Option ℕ → Option ChatConnection → Option ℕ → World → Resolved × World
unfolding by_chat by_user
get_federation (some fed_id) connection user_id w = (
  elim (get_federation_by_id w.feds fed_id) [ none ↦ context_error not_found | some f ↦ found f ],
  w,
)
get_federation none connection user_id w = by_chat connection user_id w

unfoldable pub set_federation_log_channel : Federation → ℕ → World → World
set_federation_log_channel federation chat_iid w = elim (get_by_iid w chat_iid) [
  | none ↦ w
  | some chat ↦ record w {
    feds = save_federation (record federation { log_chat = some chat.iid }) w.feds;
  }
]

unfoldable pub remove_federation_log_channel : Federation → World → World
remove_federation_log_channel federation w = record w {
  feds = save_federation (record federation { log_chat = none }) w.feds;
}
