-- ===== src/Federations/Chain/Walk.antt =====
-- What `get_subscription_chain` returns: the federations that the subscriptions lead to.
use sophie.Prelude.{
  ℕ, zero, suc, List, [], ◌∷◌, ◌≡◌, ◌≢◌, ◌↔◌, inl, inr, true, false, ◌||◌, some, elem, arith,
  Bool-cases,
}
use sophie.Federations.Model.{Federation}
use sophie.Federations.Chain.{
  push_all, chain_loop, subscriptions, total_subscribed, get_subscription_chain,
}
use sophie.Federations.Chain.Push.{elem-stack, elem-chain}
use sophie.Federations.Chain.Fuel.{chain_loop_ends}

-- The walks along subscriptions from one federation.
pub data Reach (feds : List Federation) (root : ℕ) : ℕ → Type 0 where
  here : Reach feds root root
  next : {a b : ℕ} → Reach feds root a → elem b (subscriptions feds a) ≡ true → Reach feds root b

module _ (feds : List Federation) (root : ℕ) where
  -- the invariant of the loop
  record Inv (chain to_visit visited : List ℕ) : Type 0 where
    reached : (x : ℕ) → (elem x to_visit || elem x visited) ≡ true → Reach feds root x
    listed :
        (x : ℕ)
        → (elem x chain ≡ true) ↔ (((elem x to_visit || elem x visited) ≡ true) × (x ≢ root))
    closed :
        (a b : ℕ)
        → elem a visited ≡ true
        → elem b (subscriptions feds a) ≡ true
        → (elem b to_visit || elem b visited) ≡ true
    rooted : (elem root to_visit || elem root visited) ≡ true

  Inv-start : Inv [] (root ∷ []) []
  Inv-start = record {
    reached = λ x h. let e : x ≡ root = ground arith in rw e here;
    listed = λ x. ground arith;
    closed = λ a b h e. cc;
    rooted = ground arith;
  }

  Inv-skip :
      (c : ℕ) (chain rest visited : List ℕ)
      → elem c visited ≡ true
      → Inv chain (c ∷ rest) visited
      → Inv chain rest visited
  Inv-skip c chain rest visited old inv = record {
    reached = λ x h. inv.reached x (ground arith);
    listed = λ x. ground (arith, inv.listed x);
    closed = λ a b h e. ground (arith, inv.closed a b h e);
    rooted = ground (arith, inv.rooted);
  }

  module _ (c : ℕ) (chain rest visited : List ℕ) (new : elem c visited ≡ false) where
    abbrev pushed : List ℕ × List ℕ
    pushed = push_all root (c ∷ visited) (subscriptions feds c) chain rest

    Inv-visit : Inv chain (c ∷ rest) visited → Inv pushed.0 pushed.1 (c ∷ visited)
    Inv-visit inv = record {
      reached = λ x h. elim (Bool-cases (elem x (subscriptions feds c))) [
        | inl sub ↦ next (inv.reached c (ground arith)) sub
        | inr other ↦
            inv.reached x
              (ground (arith, elem-stack x root (c ∷ visited) (subscriptions feds c) chain rest))
      ];
      listed = λ x. ground (
        arith,
        inv.listed x,
        elem-stack x root (c ∷ visited) (subscriptions feds c) chain rest,
        elem-chain x root (c ∷ visited) (subscriptions feds c) chain rest,
      );
      closed = λ a b h e. ground (
        arith,
        inv.closed a b,
        elem-stack b root (c ∷ visited) (subscriptions feds c) chain rest,
      );
      rooted =
          ground (
            arith,
            inv.rooted,
            elem-stack root root (c ∷ visited) (subscriptions feds c) chain rest,
          );
    }

  -- A loop that ends has visited all that its federation reaches, and nothing else.
  chain_loop-Inv :
      (fuel : ℕ) (chain to_visit visited result : List ℕ)
      → Inv chain to_visit visited
      → chain_loop feds root fuel chain to_visit visited ≡ some result
      → (visited' : List ℕ) × Inv result [] visited'
  unfolding chain_loop
  chain_loop-Inv fuel chain [] visited result inv e =
      (visited, let e' : chain ≡ result = cc in rw (← e') inv)
  chain_loop-Inv zero chain (c ∷ rest) visited result inv e = cc
  chain_loop-Inv (suc fuel) chain (c ∷ rest) visited result inv e =
      elim (Bool-cases (elem c visited)) [
        | inl old ↦
            chain_loop-Inv fuel chain rest visited result (Inv-skip c chain rest visited old inv)
              (rw (old, chain_loop) at e)
        | inr new ↦
            chain_loop-Inv fuel (pushed c chain rest visited new).0
              (pushed c chain rest visited new).1 (c ∷ visited) result
              (Inv-visit c chain rest visited new inv) (rw (new, chain_loop) at e)
      ]

  Reach-visited :
      {chain visited : List ℕ} {x : ℕ}
      → Inv chain [] visited
      → Reach feds root x
      → elem x visited ≡ true
  Reach-visited inv here = inv.rooted
  Reach-visited inv (next {a} {b} r e) = inv.closed a b (Reach-visited inv r) e

-- The chain of a federation lists exactly the other federations' ids that a walk along
-- subscriptions reaches from it, cycles and missing federations included.
pub elem-get_subscription_chain :
    (feds : List Federation) (root x : ℕ)
    → (elem x (get_subscription_chain feds root) ≡ true) ↔ (Reach feds root x × (x ≢ root))
unfolding get_subscription_chain
elem-get_subscription_chain feds root x =
    let (result, e) = chain_loop_ends feds root in
    let (visited, inv) =
      chain_loop-Inv feds root (suc (total_subscribed feds)) [] (root ∷ []) [] result
        (Inv-start feds root) e in
    rw e (
      λ h. (inv.reached x ((inv.listed x).0 h).0, ((inv.listed x).0 h).1),
      λ p. (inv.listed x).1 (Reach-visited feds root inv p.0, p.1),
    )
