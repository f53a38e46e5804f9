-- ===== src/Federations/Query.antt =====
-- The queries of sophie_bot/modules/federations/services/ban.py, and the cached ones among them.
pub mod Chained
use sophie.Prelude.{
  not, if◌then◌else◌, [], ℕ, Bool, Option, none, some, List, [], ◌∷◌, ◌++◌, true, false, ◌==◌, ◌&&◌,
  ◌||◌, not, find, count, elem, keep, take, drop, length, if◌then◌else◌,
}
use sophie.Prelude.Int.{ℤ, pos}
use sophie.Federations.Model.{Federation, FederationBan, World, get_federation_by_id}
use sophie.Federations.Cache.{get_user_ban_status, get_ban_count, set_ban_count}
use sophie.Federations.Chain.{get_subscription_chain}
use sophie.Federations.Ban.{mark_status}

-- the query on several federations and one user
abbrev pub is_ban_in : List ℕ → ℕ → FederationBan → Bool
is_ban_in fed_ids user_tid b = elem b.fed_id fed_ids && b.user_id == user_tid

-- `is_user_banned_in_chain` after the cache had no answer "not banned"
abbrev pub look_up_chain : ℕ → ℕ → World → Option (FederationBan × Federation) × World
look_up_chain fed_id user_tid w =
    elim (find (is_ban_in (get_subscription_chain w.feds fed_id ++ fed_id ∷ []) user_tid) w.bans) [
      | none ↦ (none, mark_status fed_id user_tid false w)
      | some ban ↦ (
        elim (get_federation_by_id w.feds ban.fed_id) [
          | none ↦ none
          | some banning_fed ↦ some (ban, banning_fed)
        ],
        mark_status fed_id user_tid true w,
      )
    ]

unfoldable pub is_user_banned_in_chain : ℕ → ℕ → World → Option (FederationBan × Federation) × World
is_user_banned_in_chain fed_id user_tid w = elim (get_user_ban_status w.cache fed_id user_tid) [
  | some false ↦ (none, w)
  | some true ↦ look_up_chain fed_id user_tid w
  | none ↦ look_up_chain fed_id user_tid w
]

unfoldable pub get_federation_ban_count : ℕ → World → ℤ × World
get_federation_ban_count fed_id w = elim (get_ban_count w.cache fed_id) [
  | some cached ↦ (cached, w)
  | none ↦
      let n = pos (count (λ b. b.fed_id == fed_id) w.bans) in
      (n, record w { cache = set_ban_count w.cache fed_id n })
]

-- the distinct federations among the bans of a user, as the set collects them
abbrev pub add_to_set : ℕ → List ℕ → List ℕ
add_to_set x xs = if elem x xs then xs else x ∷ xs

unfoldable pub ban_fed_ids : ℕ → List FederationBan → List ℕ
ban_fed_ids user_tid [] = []
ban_fed_ids user_tid (b ∷ bans) =
    let rest = ban_fed_ids user_tid bans in
    if b.user_id == user_tid then add_to_set b.fed_id rest else rest

unfoldable pub count_user_fed_bans : World → ℕ → ℕ
unfolding ban_fed_ids
count_user_fed_bans w user_tid = length (ban_fed_ids user_tid w.bans)

unfoldable pub get_federation_bans : World → ℕ → ℕ → ℕ → List FederationBan
get_federation_bans w fed_id limit offset =
    take limit (drop offset (keep (λ b. b.fed_id == fed_id) w.bans))

abbrev pub has_no_chats : List ℕ → Bool
has_no_chats [] = true
has_no_chats (c ∷ chats) = false

-- The bans of a user with their federations, those that acted in a chat alone where this is asked.
unfoldable pub user_fed_bans :
    List Federation → Bool → ℕ → List FederationBan → List (FederationBan × Federation)
user_fed_bans feds only_with_banned_chats user_tid [] = []
user_fed_bans feds only_with_banned_chats user_tid (b ∷ bans) =
    let rest = user_fed_bans feds only_with_banned_chats user_tid bans in
    if not (b.user_id == user_tid)
    then rest
    else if only_with_banned_chats && has_no_chats b.banned_chats
    then rest
    else elim (get_federation_by_id feds b.fed_id) [
      | none ↦ rest
      | some federation ↦ (b, federation) ∷ rest
    ]

unfoldable pub get_user_fed_bans : World → ℕ → Bool → List (FederationBan × Federation)
unfolding user_fed_bans
get_user_fed_bans w user_tid only_with_banned_chats =
    user_fed_bans w.feds only_with_banned_chats user_tid w.bans
