-- ===== src/Federations/Chain/Push.antt =====
-- What the inner loop adds to the chain and to the stack.
use sophie.Prelude.{
  ℕ, ◌+◌, ◌≤◌, List, [], ◌∷◌, ◌≡◌, ◌==◌, ◌&&◌, ◌||◌, not, elem, length, arith, elem-append,
}
use sophie.Federations.Chain.{push_all, grow_chain, grow_stack}

pub elem-stack :
    (x fed_id : ℕ) (visited subs chain to_visit : List ℕ)
    → elem x (push_all fed_id visited subs chain to_visit).1
      ≡ (elem x to_visit || (elem x subs && not (elem x visited)))
unfolding push_all
elem-stack x fed_id visited [] chain to_visit = ground arith
elem-stack x fed_id visited (sub ∷ subs) chain to_visit = ground (
  arith,
  elem-stack x fed_id visited subs (grow_chain fed_id visited sub chain)
      (grow_stack visited sub to_visit),
)

pub elem-chain :
    (x fed_id : ℕ) (visited subs chain to_visit : List ℕ)
    → elem x (push_all fed_id visited subs chain to_visit).0
      ≡ (elem x chain || (elem x subs && (not (elem x visited) && not (x == fed_id))))
unfolding push_all
elem-chain x fed_id visited [] chain to_visit = ground arith
elem-chain x fed_id visited (sub ∷ subs) chain to_visit = ground (
  arith,
  elem-chain x fed_id visited subs (grow_chain fed_id visited sub chain)
      (grow_stack visited sub to_visit),
  elem-append x chain (sub ∷ []),
)

pub length-stack :
    (fed_id : ℕ) (visited subs chain to_visit : List ℕ)
    → length (push_all fed_id visited subs chain to_visit).1 ≤ length subs + length to_visit
unfolding push_all
length-stack fed_id visited [] chain to_visit = omega arith
length-stack fed_id visited (sub ∷ subs) chain to_visit = ground (
  arith,
  length-stack fed_id visited subs (grow_chain fed_id visited sub chain)
      (grow_stack visited sub to_visit),
)
