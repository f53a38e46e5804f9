-- ===== src/Federations/Subscribers.antt =====
-- The federations that follow a federation: `get_subscribing_federations` and
-- `get_subscribed_by_chain` of sophie_bot/modules/federations/services/manage.py. The `while`
-- loop takes fuel.
pub mod Offer
pub mod Fuel
pub mod Closure
pub mod Once
use sophie.Prelude.{
  ℕ, zero, suc, Option, none, some, List, [], ◌∷◌, ◌++◌, true, false, elem, keep, length, map,
}
use sophie.Federations.Model.{Federation}

-- `Federation.find(Federation.subscribed == fed_id).to_list()`
unfoldable pub get_subscribing_federations : List Federation → ℕ → List Federation
get_subscribing_federations feds fed_id = keep (λ f. elem fed_id f.subscribed) feds

-- The variables of the loop; the queue's first item leaves first.
pub record Queue : Type 0 where
  pub chain : List Federation
  pub to_visit : List ℕ
  pub visited : List ℕ

-- the inner loop
unfoldable pub offer_all : List Federation → Queue → Queue
offer_all [] q = q
offer_all (sub_fed ∷ subs) q = offer_all subs (elim (elem sub_fed.fed_id q.visited) [
  | true ↦ q
  | false ↦ record {
    chain = q.chain ++ sub_fed ∷ [];
    to_visit = q.to_visit ++ sub_fed.fed_id ∷ [];
    visited = sub_fed.fed_id ∷ q.visited;
  }
])

-- one round: `current` has left the queue
abbrev pub round : List Federation → List Federation → ℕ → List ℕ → List ℕ → Queue
round feds chain current rest visited =
    offer_all (get_subscribing_federations feds current)
      (record { chain = chain; to_visit = rest; visited = visited })

-- the outer loop; `none` means out of fuel
unfoldable pub subscribed_loop :
    List Federation → ℕ → List Federation → List ℕ → List ℕ → Option (List Federation)
subscribed_loop feds fuel chain [] visited = some chain
subscribed_loop feds zero chain (current ∷ rest) visited = none
subscribed_loop feds (suc fuel) chain (current ∷ rest) visited =
    let q = round feds chain current rest visited in
    subscribed_loop feds fuel q.chain q.to_visit q.visited

abbrev pub or_no_feds : Option (List Federation) → List Federation
or_no_feds none = []
or_no_feds (some chain) = chain

unfoldable pub get_subscribed_by_chain : List Federation → ℕ → List Federation
get_subscribed_by_chain feds fed_id =
    or_no_feds (subscribed_loop feds (suc (length feds)) [] (fed_id ∷ []) (fed_id ∷ []))

abbrev pub ids : List Federation → List ℕ
ids feds = map (λ f. f.fed_id) feds
