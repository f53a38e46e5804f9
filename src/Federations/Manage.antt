-- ===== src/Federations/Manage.antt =====
-- sophie_bot/modules/federations/services/manage.py, without the subscription graph (`Chain` and
-- `Subscribers`), the log channel and the posting of logs.
pub mod Create
pub mod Subscription
pub mod Delete
use Prim.Native.String
use text.Mathlib.Text.{◌==◌ as text_eq}
use sophie.Prelude.{
  ℕ, ◌<◌, Bool, Option, none, some, String, List, [], ◌∷◌, ◌++◌, true, false, ◌==◌, ◌&&◌, ◌||◌, not,
  find, count, elem, keep, is_some, update_first, remove_first, ltb, length, if◌then◌else◌,
}
use sophie.Federations.Model.{
  Federation, FederationBan, Config, Cache, World, get_by_iid, get_federation_by_id,
}
use sophie.Federations.Cache.{
  get_fed_id_for_chat, set_fed_id_for_chat, invalidate_federation_for_chat,
}
use sophie.Federations.Subscribers.{get_subscribing_federations}

-- constants.py
abbrev pub max_federation_name_length : ℕ
max_federation_name_length = 60

abbrev pub max_federations_per_user : ℕ
max_federations_per_user = 1

-- `federation.save()`: the document of this federation is replaced
abbrev pub save_federation : Federation → List Federation → List Federation
save_federation fed feds = update_first (λ f. f.fed_id == fed.fed_id) (λ _. fed) feds

abbrev pub is_owner : Config → ℕ → Bool
is_owner cfg tid = elim cfg.owner_id [ none ↦ false | some owner ↦ tid == owner ]

unfoldable pub can_user_create_federation : Config → World → ℕ → Bool
can_user_create_federation cfg w user_iid = elim (get_by_iid w user_iid) [
  | none ↦ false
  | some user ↦
      if is_owner cfg user.tid
      then true
      else ltb (count (λ f. f.creator == user_iid) w.feds) max_federations_per_user
]

pub data CreateError : Type 0 where
  name_too_long limit_exceeded already_exists : CreateError

pub data Created : Type 0 where
  created : Federation → Created
  refused : CreateError → Created

abbrev pub new_federation : String → ℕ → ℕ → Federation
new_federation name creator_iid fed_id = record {
  fed_name = name;
  fed_id = fed_id;
  creator = creator_iid;
  chats = [];
  subscribed = [];
  admins = [];
  log_chat = none;
}

-- `fed_id` is what `uuid.uuid4()` gives
unfoldable pub create_federation : Config → String → ℕ → ℕ → World → Created × World
unfolding can_user_create_federation
create_federation cfg name creator_iid fed_id w =
    if ltb max_federation_name_length (String.count name)
    then (refused name_too_long, w)
    else if not (can_user_create_federation cfg w creator_iid)
    then (refused limit_exceeded, w)
    else if is_some (find (λ f. text_eq f.fed_name name) w.feds)
    then (refused already_exists, w)
    else (
      created (new_federation name creator_iid fed_id),
      record w { feds = w.feds ++ new_federation name creator_iid fed_id ∷ [] },
    )

unfoldable pub subscribe_to_federation : Federation → ℕ → World → Bool × World
subscribe_to_federation federation target_fed_id w =
    if not (is_some (get_federation_by_id w.feds target_fed_id))
    then (false, w)
    else if elem target_fed_id federation.subscribed
    then (false, w)
    else if federation.fed_id == target_fed_id
    then (false, w)
    else (
      true,
      record w {
        feds =
            save_federation
              (record federation { subscribed = federation.subscribed ++ target_fed_id ∷ [] })
              w.feds;
      },
    )

-- `list.remove`
abbrev pub remove : ℕ → List ℕ → List ℕ
remove x xs = remove_first (λ y. y == x) xs

unfoldable pub unsubscribe_from_federation : Federation → ℕ → World → Bool × World
unsubscribe_from_federation federation target_fed_id w =
    if not (elem target_fed_id federation.subscribed) then (false, w) else (
      true,
      record w {
        feds =
            save_federation
              (record federation { subscribed = remove target_fed_id federation.subscribed })
              w.feds;
      },
    )

unfoldable pub drop_subscriptions : ℕ → List Federation → List Federation → List Federation
drop_subscriptions fed_id [] feds = feds
drop_subscriptions fed_id (s ∷ subs) feds =
    drop_subscriptions fed_id subs
      (save_federation (record s { subscribed = remove fed_id s.subscribed }) feds)

unfoldable pub invalidate_chats : List ℕ → Cache → Cache
invalidate_chats [] c = c
invalidate_chats (chat ∷ chats) c = invalidate_chats chats (invalidate_federation_for_chat c chat)

unfoldable pub delete_federation : Federation → World → World
unfolding drop_subscriptions invalidate_chats get_subscribing_federations
delete_federation federation w = record w {
  bans = keep (λ b. not (b.fed_id == federation.fed_id)) w.bans;
  feds =
      remove_first (λ f. f.fed_id == federation.fed_id)
        (drop_subscriptions federation.fed_id (get_subscribing_federations w.feds federation.fed_id)
          w.feds);
  cache = invalidate_chats federation.chats w.cache;
}

-- `Federation.find_one(Federation.chats == DBRef(...))`
abbrev pub find_by_chat : List Federation → ℕ → Option Federation
find_by_chat feds chat_iid = find (λ f. elem chat_iid f.chats) feds

unfoldable pub get_federation_for_chat : ℕ → World → Option Federation × World
get_federation_for_chat chat_iid w = elim (get_fed_id_for_chat w.cache chat_iid) [
  | some fed_id ↦ (get_federation_by_id w.feds fed_id, w)
  | none ↦ elim (find_by_chat w.feds chat_iid) [
    | none ↦ (none, w)
    | some federation ↦ (
      some federation,
      record w { cache = set_fed_id_for_chat w.cache chat_iid federation.fed_id },
    )
  ]
]
