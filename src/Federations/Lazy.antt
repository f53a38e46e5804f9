-- ===== src/Federations/Lazy.antt =====
-- `lazy_ban_in_subscribing_federations` of sophie_bot/modules/federations/services/ban.py.
pub mod Spread
use sophie.Prelude.{
  ℕ, Bool, Option, none, some, String, List, [], ◌∷◌, ◌++◌, true, false, ◌==◌, ◌&&◌, any, keep, map,
  elem, if◌then◌else◌,
}
use sophie.Federations.Model.{ChatType, ChatModel, Federation, FederationBan, World, get_by_tid}
use sophie.Federations.Subscribers.{get_subscribed_by_chain}
use sophie.Federations.Ban.{is_user_banned, new_ban, insert_ban, mark_status}

abbrev pub is_channel : ChatType → Bool
is_channel ChatType.channel = true
is_channel _ = false

-- the chats of these ids that are no channels
unfoldable pub member_chats : World → List ℕ → List ChatModel
member_chats w chat_iids =
    keep (λ c. elem c.iid chat_iids && (if is_channel c.type then false else true)) w.chats

-- Is the user in one of these chats, by `UserInGroupModel`?
unfoldable pub is_present : World → ℕ → List ChatModel → Bool
is_present w user_iid chats =
    any (λ m. m.0 == user_iid && elem m.1 (map (λ c. c.iid) chats)) w.members

module _ (origin user_tid by_user_iid : ℕ) (reason text : Option String) (now : ℕ) where
  abbrev pub lazy_ban : Federation → FederationBan
  lazy_ban sub_fed = new_ban sub_fed.fed_id user_tid by_user_iid reason text (some origin) now

  -- one turn of the loop over the subscribing federations
  unfoldable pub lazy_step :
      ℕ
      → Federation
      → List (Federation × FederationBan)
      → World
      → List (Federation × FederationBan) × World
  unfolding is_user_banned member_chats is_present
  lazy_step user_iid sub_fed results w = elim (is_user_banned w sub_fed.fed_id user_tid) [
    | some _ ↦ (results, w)
    | none ↦
        if is_present w user_iid (member_chats w sub_fed.chats)
        then (
          results ++ (sub_fed, lazy_ban sub_fed) ∷ [],
          mark_status sub_fed.fed_id user_tid true (insert_ban (lazy_ban sub_fed) w),
        )
        else (results, w)
  ]

  unfoldable pub lazy_loop :
      ℕ
      → List Federation
      → List (Federation × FederationBan)
      → World
      → List (Federation × FederationBan) × World
  unfolding lazy_step
  lazy_loop user_iid [] results w = (results, w)
  lazy_loop user_iid (sub_fed ∷ subs) results w =
      let (results', w') = lazy_step user_iid sub_fed results w in
      lazy_loop user_iid subs results' w'

  unfoldable pub lazy_ban_in_subscribing_federations :
      World → List (Federation × FederationBan) × World
  unfolding lazy_loop
  lazy_ban_in_subscribing_federations w = elim (get_by_tid w user_tid) [
    | none ↦ ([], w)
    | some user ↦ lazy_loop user.iid (get_subscribed_by_chain w.feds origin) [] w
  ]
