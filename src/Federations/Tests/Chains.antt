-- ===== src/Federations/Tests/Chains.antt =====
-- The two chains.
use sophie.Prelude.{Distinct, ℕ, some, List, [], ◌∷◌, ◌≡◌, ◌≢◌, ◌↔◌, refl, true, elem, suc}
use sophie.Federations.Chain.{get_subscription_chain, chain_loop, push_all, total_subscribed}
use sophie.Federations.Chain.Fuel.{chain_loop_ends}
use sophie.Federations.Chain.Walk.{Reach, elem-get_subscription_chain}
use sophie.Federations.Subscribers.{
  get_subscribed_by_chain, get_subscribing_federations, offer_all, subscribed_loop, ids,
}
use sophie.Federations.Model.{Federation}
use sophie.Federations.Subscribers.Fuel.{subscribed_loop_ends}
use sophie.Federations.Subscribers.Once.{get_subscribed_by_chain-Distinct}
use sophie.Federations.Subscribers.Closure.{Follows, elem-get_subscribed_by_chain}
use sophie.Federations.Tests.State.{beta, feds}

abbrev missing : ℕ
missing = 9

chain_of_alpha : get_subscription_chain feds 1 ≡ 2 ∷ 9 ∷ []
unfolding get_subscription_chain chain_loop push_all
chain_of_alpha = refl

followers_of_alpha : ids (get_subscribed_by_chain feds 1) ≡ 2 ∷ []
unfolding get_subscribed_by_chain subscribed_loop offer_all get_subscribing_federations
followers_of_alpha = refl

elem-get_subscription_chain_example :
    (elem 9 (get_subscription_chain feds 1) ≡ true) ↔ (Reach feds 1 9 × (missing ≢ 1))
elem-get_subscription_chain_example = elem-get_subscription_chain feds 1 9

chain_loop_ends_example :
    (result : List ℕ) × (chain_loop feds 1 (suc (total_subscribed feds)) [] (1 ∷ []) []
      ≡ some result)
chain_loop_ends_example = chain_loop_ends feds 1

elem-get_subscribed_by_chain_example :
    (elem 2 (ids (get_subscribed_by_chain feds 1)) ≡ true) ↔ (Follows feds 1 2 × (beta.fed_id ≢ 1))
elem-get_subscribed_by_chain_example = elem-get_subscribed_by_chain feds 1 2

subscribed_loop_ends_example :
    (result : List Federation) × (subscribed_loop feds 3 [] (1 ∷ []) (1 ∷ []) ≡ some result)
subscribed_loop_ends_example = subscribed_loop_ends feds 1

get_subscribed_by_chain-Distinct_example : Distinct (ids (get_subscribed_by_chain feds 1))
get_subscribed_by_chain-Distinct_example = get_subscribed_by_chain-Distinct feds 1
