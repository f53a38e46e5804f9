-- ===== src/Federations/Enforce.antt =====
-- The part of sophie_bot/modules/federations/services/ban.py that bans and unbans in the chats
-- themselves. `applied` is what `execute_restriction(...).applied` answers for a chat's Telegram
-- id; links to chats are their ids already, so `normalize_chat_iids` keeps them as they are.
pub mod Targets
pub mod Noted
use sophie.Prelude.{
  String, ℕ, suc, Bool, Option, none, some, List, [], ◌∷◌, ◌++◌, true, false, ◌==◌, ◌&&◌, ◌||◌, not,
  any, keep, count, elem, map, is_some, length, update_first, if◌then◌else◌,
}
use sophie.Restrictions.Model.{RestrictionAction, Env, State}
use sophie.Restrictions.Execute.{execute_restriction}
use sophie.Federations.Model.{ChatModel, Federation, FederationBan, World, get_by_tid}
use sophie.Federations.Subscribers.{get_subscribing_federations}
use sophie.Federations.Ban.{is_ban_of}
use sophie.Federations.Lazy.{member_chats}

-- The results that are not `None`, in the order of the chats: the semaphore bounds how many
-- actions run at a time, and `gather` keeps the order.
unfoldable pub run_limited_chat_actions {ℓ} :
    {A : Type ℓ} → List ChatModel → (ChatModel → Option A) → List A
run_limited_chat_actions [] action = []
run_limited_chat_actions (chat ∷ chats) action = elim (action chat) [
  | none ↦ run_limited_chat_actions chats action
  | some result ↦ result ∷ run_limited_chat_actions chats action
]

abbrev pub is_empty {ℓ} : {A : Type ℓ} → List A → Bool
is_empty [] = true
is_empty (x ∷ xs) = false

-- the chats of the federation, and the chat where the command was given
unfoldable pub targets : Federation → Option ℕ → List ℕ
targets federation none = federation.chats
targets federation (some current) =
    if elem current federation.chats then federation.chats else federation.chats ++ current ∷ []

abbrev pub is_current : Option ℕ → ℕ → Bool
is_current none iid = false
is_current (some current) iid = iid == current

-- Is the chat among those where the user was seen, or the current one?
unfoldable pub is_detected : World → ℕ → List ChatModel → Option ℕ → ℕ → Bool
is_detected w user_iid chats current iid =
    any (λ m. m.0 == user_iid && (elem m.1 (map (λ c. c.iid) chats) && m.1 == iid)) w.members
    || is_current current iid

abbrev pub ban_chat : (ℕ → Bool) → World → ℕ → List ChatModel → Option ℕ → ChatModel → Option ℕ
ban_chat applied w user_iid chats current chat =
    if is_detected w user_iid chats current chat.iid
    then (if applied chat.tid then some chat.iid else none)
    else none

-- the loop that notes the chats on the ban
unfoldable pub note_chats : List ChatModel → List ℕ → List ℕ → List ℕ → List ℕ
note_chats [] banned existing noted = noted
note_chats (chat ∷ chats) banned existing noted =
    note_chats chats banned existing (
      if elem chat.iid banned && not (elem chat.iid existing)
      then noted ++ chat.iid ∷ []
      else noted)

abbrev pub with_banned_chats : FederationBan → List ℕ → FederationBan
with_banned_chats ban chats = record ban { banned_chats = chats }

-- `ban.save()`: the document of this ban is replaced, and inserted when it is not there any more
abbrev pub save_ban : FederationBan → World → World
save_ban ban w = record w {
  bans =
      if any (is_ban_of ban.fed_id ban.user_id) w.bans
      then update_first (is_ban_of ban.fed_id ban.user_id) (λ _. ban) w.bans
      else w.bans ++ ban ∷ [];
}

-- Whether `execute_restriction` applies an action in a chat, from Telegram's answers and the stored
-- snapshots of the user, by the chat's Telegram id.
abbrev pub applied_in : List String → (ℕ → Env) → RestrictionAction → (ℕ → State) → ℕ → Bool
applied_in fields envs action snapshots tid =
    (execute_restriction fields (envs tid) action none false (snapshots tid)).0

-- `applied` is `applied_in` with a ban or an unban. The requests of the chats do not depend on each
-- other: each is on its own pair of a chat and the user.
module _ (applied : ℕ → Bool) where
  unfoldable pub ban_user_in_federation_chats :
      Federation → FederationBan → ℕ → Option ℕ → World → ℕ × World
  ban_user_in_federation_chats federation ban user_tid current w =
      if is_empty federation.chats && not (is_some current)
      then (0, w)
      else (let chats = member_chats w (targets federation current) in
          if is_empty chats then (0, w) else elim (get_by_tid w user_tid) [
            | none ↦ (0, w)
            | some user ↦
                let banned =
                  run_limited_chat_actions chats (ban_chat applied w user.iid chats current) in
                if is_empty banned then (0, w) else (
                  length banned,
                  save_ban
                      (with_banned_chats ban
                        (note_chats chats banned ban.banned_chats ban.banned_chats))
                      w,
                )
          ])

  -- every chat is tried, and the successes are counted
  abbrev pub unban_chat : ChatModel → Option Bool
  unban_chat chat = some (applied chat.tid)

  unfoldable pub unban_user_in_chat_iids : List ℕ → World → ℕ
  unfolding member_chats run_limited_chat_actions
  unban_user_in_chat_iids chat_iids w =
      if is_empty chat_iids
      then 0
      else count (λ r. r) (run_limited_chat_actions (member_chats w chat_iids) unban_chat)

  -- the union of the chats of the subscribers
  abbrev pub all_chats : List Federation → List ℕ
  all_chats [] = []
  all_chats (f ∷ feds) = f.chats ++ all_chats feds

  unfoldable pub unban_user_in_federation_chats_with_subscribers : Federation → World → ℕ
  unfolding unban_user_in_chat_iids get_subscribing_federations
  unban_user_in_federation_chats_with_subscribers federation w =
      unban_user_in_chat_iids
        (federation.chats ++ all_chats (get_subscribing_federations w.feds federation.fed_id)) w
