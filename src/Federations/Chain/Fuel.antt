-- ===== src/Federations/Chain/Fuel.antt =====
-- The loop over the subscription graph ends: each federation is expanded once, so the
-- subscriptions of all federations, and one more round, are fuel enough.
use sophie.Prelude.{
  ℕ, zero, suc, ◌+◌, ◌≤◌, List, [], ◌∷◌, ◌≡◌, refl, false, some, elem, length, arith, if◌then◌else◌,
  Bool-cases, inl, inr,
}
use sophie.Federations.Model.{Federation}
use sophie.Federations.Chain.{push_all, chain_loop, subscriptions, total_subscribed}
use sophie.Federations.Chain.Push.{length-stack}

-- the subscriptions of the federations that are not visited yet
abbrev pub unvisited : List ℕ → List Federation → ℕ
unvisited visited [] = 0
unvisited visited (fed ∷ feds) =
    (if elem fed.fed_id visited then 0 else length fed.subscribed) + unvisited visited feds

unvisited-cons_le :
    (c : ℕ) (visited : List ℕ) (feds : List Federation)
    → unvisited (c ∷ visited) feds ≤ unvisited visited feds
unvisited-cons_le c visited [] = omega arith
unvisited-cons_le c visited (fed ∷ feds) = ground (arith, unvisited-cons_le c visited feds)

-- Visiting a federation takes its subscriptions off the measure.
unvisited-visit :
    (c : ℕ) (visited : List ℕ) (feds : List Federation)
    → elem c visited ≡ false
    → length (subscriptions feds c) + unvisited (c ∷ visited) feds ≤ unvisited visited feds
unvisited-visit c visited [] h = omega arith
unvisited-visit c visited (fed ∷ feds) h =
    ground (arith, unvisited-cons_le c visited feds, unvisited-visit c visited feds h)

unvisited-le-total :
    (visited : List ℕ) (feds : List Federation) → unvisited visited feds ≤ total_subscribed feds
unvisited-le-total visited [] = omega arith
unvisited-le-total visited (fed ∷ feds) = ground (arith, unvisited-le-total visited feds)

pub chain_loop-total :
    (feds : List Federation) (fed_id fuel : ℕ) (chain to_visit visited : List ℕ)
    → length to_visit + unvisited visited feds ≤ fuel
    → (result : List ℕ) × (chain_loop feds fed_id fuel chain to_visit visited ≡ some result)
unfolding chain_loop
chain_loop-total feds fed_id fuel chain [] visited h = (chain, refl)
chain_loop-total feds fed_id zero chain (c ∷ rest) visited h = absurd (omega arith)
chain_loop-total feds fed_id (suc fuel) chain (c ∷ rest) visited h =
    elim (Bool-cases (elem c visited)) [
      | inl old ↦
          rw (old, chain_loop) (chain_loop-total feds fed_id fuel chain rest visited (omega arith))
      | inr new ↦
          rw (new, chain_loop)
            (let (chain', rest') =
                push_all fed_id (c ∷ visited) (subscriptions feds c) chain rest in
              chain_loop-total feds fed_id fuel chain' rest' (c ∷ visited) (
                omega (
                  arith,
                  length-stack fed_id (c ∷ visited) (subscriptions feds c) chain rest,
                  unvisited-visit c visited feds new,
                )))
    ]

-- The loop of `get_subscription_chain` ends with a chain for every collection of federations.
pub chain_loop_ends :
    (feds : List Federation) (fed_id : ℕ)
    → (result : List ℕ) × (chain_loop feds fed_id (suc (total_subscribed feds)) [] (fed_id ∷ []) []
        ≡ some result)
chain_loop_ends feds fed_id =
    chain_loop-total feds fed_id (suc (total_subscribed feds)) [] (fed_id ∷ []) []
      (omega (arith, unvisited-le-total [] feds))
