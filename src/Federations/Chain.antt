-- ===== src/Federations/Chain.antt =====
-- The subscription graph of federations: `get_subscription_chain` of
-- sophie_bot/modules/federations/services/manage.py, and its copy in
-- sophie_bot/utils/federation_ban_check.py. The `while` loop takes fuel; the children show that
-- the fuel suffices and what the loop returns.
pub mod Push
pub mod Fuel
pub mod Walk
use sophie.Prelude.{
  ℕ, zero, suc, ◌+◌, Option, none, some, List, [], ◌∷◌, ◌++◌, true, false, ◌==◌, elem, length,
  if◌then◌else◌,
}
use sophie.Federations.Model.{Federation, get_federation_by_id}

-- `fed.subscribed`; a federation that is not found has none
abbrev pub subscribed_of : Option Federation → List ℕ
subscribed_of none = []
subscribed_of (some fed) = fed.subscribed

abbrev pub subscriptions : List Federation → ℕ → List ℕ
subscriptions feds fed_id = subscribed_of (get_federation_by_id feds fed_id)

-- The inner loop, over the subscriptions of the federation that was just visited: the chain and
-- the stack, whose top is its first item.
abbrev pub grow_chain : ℕ → List ℕ → ℕ → List ℕ → List ℕ
grow_chain fed_id visited sub chain =
    if elem sub visited then chain else if sub == fed_id then chain else chain ++ sub ∷ []

abbrev pub grow_stack : List ℕ → ℕ → List ℕ → List ℕ
grow_stack visited sub to_visit = if elem sub visited then to_visit else sub ∷ to_visit

unfoldable pub push_all : ℕ → List ℕ → List ℕ → List ℕ → List ℕ → List ℕ × List ℕ
push_all fed_id visited [] chain to_visit = (chain, to_visit)
push_all fed_id visited (sub ∷ subs) chain to_visit =
    push_all fed_id visited subs (grow_chain fed_id visited sub chain)
      (grow_stack visited sub to_visit)

-- The outer loop, over the chain, the stack and the visited ids; `none` means out of fuel.
unfoldable pub chain_loop : List Federation → ℕ → ℕ → List ℕ → List ℕ → List ℕ → Option (List ℕ)
chain_loop feds fed_id fuel chain [] visited = some chain
chain_loop feds fed_id zero chain (current ∷ rest) visited = none
chain_loop feds fed_id (suc fuel) chain (current ∷ rest) visited = elim (elem current visited) [
  | true ↦ chain_loop feds fed_id fuel chain rest visited
  | false ↦
      let (chain', to_visit') =
        push_all fed_id (current ∷ visited) (subscriptions feds current) chain rest in
      chain_loop feds fed_id fuel chain' to_visit' (current ∷ visited)
]

-- Every subscription is pushed at most once.
abbrev pub total_subscribed : List Federation → ℕ
total_subscribed [] = 0
total_subscribed (fed ∷ feds) = length fed.subscribed + total_subscribed feds

abbrev pub or_empty : Option (List ℕ) → List ℕ
or_empty none = []
or_empty (some chain) = chain

unfoldable pub get_subscription_chain : List Federation → ℕ → List ℕ
get_subscription_chain feds fed_id =
    or_empty (chain_loop feds fed_id (suc (total_subscribed feds)) [] (fed_id ∷ []) [])
