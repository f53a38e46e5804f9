-- ===== src/Federations/Tests/Management.antt =====
-- Federations, their subscriptions, chats and admins.
use text.Mathlib.Text.{◌==◌ as text_eq}
use text.Mathlib.TextEquality.{eq_iff}
use sophie.Prelude.{
  none, count, ◌==◌, Bool-cases, ◌≤◌, some, [], ◌∷◌, ◌≡◌, inl, inr, refl, true, false, elem, arith,
  count, String,
}
use sophie.Federations.Model.{Federation, World}
use sophie.Federations.Chain.{subscriptions}
use sophie.Federations.Subscribers.{get_subscribing_federations}
use sophie.Federations.Manage.Subscription.{unsubscribe-subscribe}
use sophie.Federations.Manage.Delete.{FollowsOnce, none_left, next_one, delete_federation_lem}
use sophie.Federations.Manage.{delete_federation}
use sophie.Federations.Manage.{
  create_federation, created, subscribe_to_federation, unsubscribe_from_federation,
  get_federation_for_chat, new_federation,
}
use sophie.Federations.Manage.Create.{IsLimited, create_federation-IsLimited}
use sophie.Federations.Chats.{add_chat_to_federation, remove_chat_from_federation}
use sophie.Federations.Chats.Membership.{IsCoherent, add_chat-IsCoherent, remove_chat-IsCoherent}
use sophie.Federations.Admins.{done, promote_admin}
use sophie.Federations.Tests.State.{alpha, beta, feds, calm, config}

-- the second federation follows nobody
abbrev loner : Federation
loner = record beta { subscribed = [] }

abbrev apart : World
apart = record calm { feds = alpha ∷ loner ∷ [] }

calm-IsCoherent : IsCoherent calm
calm-IsCoherent = record { chat_counts = λ f. inl refl; chat_feds = λ c. refl }

add_chat-IsCoherent_example : IsCoherent (add_chat_to_federation alpha 32 calm).1
add_chat-IsCoherent_example = add_chat-IsCoherent alpha 32 calm refl calm-IsCoherent

remove_chat-IsCoherent_example : IsCoherent (remove_chat_from_federation alpha 31 calm).1
remove_chat-IsCoherent_example = remove_chat-IsCoherent alpha 31 calm refl calm-IsCoherent

add_chat_32 : (add_chat_to_federation alpha 32 calm).0 ≡ true
unfolding add_chat_to_federation
add_chat_32 = refl

market_in_beta : (get_federation_for_chat 32 calm).0 ≡ some beta
unfolding get_federation_for_chat
market_in_beta = refl

calm-names : (n : String) → count (λ f. text_eq f.fed_name n) feds ≤ 1
calm-names n = elim (Bool-cases (text_eq "alpha" n)) [
  | inl e ↦ let same : "alpha" ≡ n = (eq_iff "alpha" n).0 e in rw (← same) (omega arith)
  | inr e ↦ ground arith
]

calm-IsLimited : IsLimited config calm
calm-IsLimited = record { creators = λ iid user known plain. ground arith; names = calm-names }

create_federation-IsLimited_example :
    IsLimited config (create_federation config "gamma" 13 3 calm).1
create_federation-IsLimited_example =
    create_federation-IsLimited config "gamma" 13 3 calm calm-IsLimited

gamma_created :
    (create_federation config "gamma" 13 3 calm).0 ≡ created (new_federation "gamma" 13 3)
unfolding create_federation
gamma_created = refl

loner_subscribes : (subscribe_to_federation loner 1 apart).0 ≡ true
unfolding subscribe_to_federation
loner_subscribes = refl

promoted_13 : (promote_admin beta 13 calm).0 ≡ done
unfolding promote_admin
promoted_13 = refl

alpha-FollowsOnce : FollowsOnce 2 (get_subscribing_federations calm.feds 2)
unfolding get_subscribing_federations
alpha-FollowsOnce = next_one (omega arith) none_left

delete_federation_lem_example :
    (count (λ b. b.fed_id == 2) (delete_federation beta calm).bans ≡ 0)
    × ((delete_federation beta calm).cache.chat_fed_id 32 ≡ none)
    × (elem 2 (subscriptions (delete_federation beta calm).feds 1) ≡ false)
delete_federation_lem_example =
    delete_federation_lem beta calm 32 1 alpha-FollowsOnce (λ e. absurd (omega arith))

unsubscribe-subscribe_example :
    unsubscribe_from_federation
      (record loner { subscribed = 1 ∷ [] })
      1
      (subscribe_to_federation loner 1 apart).1
    ≡ (true, apart)
unsubscribe-subscribe_example = unsubscribe-subscribe loner 1 apart refl loner_subscribes
