-- ===== src/Federations/Subscribers/Closure.antt =====
-- What `get_subscribed_by_chain` returns: every federation that follows, once.
use sophie.Prelude.{
  ℕ, zero, suc, List, [], ◌∷◌, ◌≡◌, ◌≢◌, ◌↔◌, inl, inr, refl, true, false, ◌==◌, ◌&&◌, some, elem,
  length, arith, Bool-cases, any,
}
use sophie.Federations.Model.{Federation}
use sophie.Federations.Subscribers.{
  Queue, get_subscribing_federations, ids, round, subscribed_loop, get_subscribed_by_chain,
}
use sophie.Federations.Subscribers.Offer.{elem-visited, elem-to_visit, elem-chain, elem-subscribing}
use sophie.Federations.Subscribers.Fuel.{subscribed_loop_ends}

-- some federation of the id `b` subscribes to `a`
abbrev pub Subscribes : List Federation → ℕ → ℕ → Type 0
Subscribes feds b a = any (λ f. (b == f.fed_id) && elem a f.subscribed) feds ≡ true

-- The federations that follow one federation, directly or through others.
pub data Follows (feds : List Federation) (root : ℕ) : ℕ → Type 0 where
  here : Follows feds root root
  next : {a b : ℕ} → Follows feds root a → Subscribes feds b a → Follows feds root b

module _ (feds : List Federation) (root : ℕ) where
  record Inv (chain : List Federation) (to_visit visited : List ℕ) : Type 0 where
    reached : (x : ℕ) → elem x visited ≡ true → Follows feds root x
    listed : (x : ℕ) → (elem x (ids chain) ≡ true) ↔ ((elem x visited ≡ true) × (x ≢ root))
    queued : (x : ℕ) → elem x to_visit ≡ true → elem x visited ≡ true
    closed :
        (a b : ℕ)
        → elem a visited ≡ true
        → elem a to_visit ≡ false
        → Subscribes feds b a
        → elem b visited ≡ true
    rooted : elem root visited ≡ true

  Inv-start : Inv [] (root ∷ []) (root ∷ [])
  Inv-start = record {
    reached = λ x h. let e : x ≡ root = ground arith in rw e here;
    listed = λ x. ground arith;
    queued = λ x h. h;
    closed = λ a b h h' e. cc;
    rooted = ground arith;
  }

  module _ (c : ℕ) (chain : List Federation) (rest visited : List ℕ) where
    abbrev subs : List Federation
    subs = get_subscribing_federations feds c

    abbrev before : Queue
    before = record { chain = chain; to_visit = rest; visited = visited }

    Inv-round :
        Inv chain (c ∷ rest) visited
        → let q = round feds chain c rest visited in Inv q.chain q.to_visit q.visited
    Inv-round inv = record {
      reached = λ x h. elim (Bool-cases (elem x visited)) [
        | inl old ↦ inv.reached x old
        | inr new ↦
            next (inv.reached c (inv.queued c (ground arith)))
              (ground (arith, elem-visited x subs before, elem-subscribing c x feds))
      ];
      listed = λ x.
          ground
            (arith, inv.listed x, inv.rooted, elem-visited x subs before, elem-chain x subs before);
      queued = λ x h.
          ground (arith, inv.queued x, elem-visited x subs before, elem-to_visit x subs before);
      closed = λ a b h h' e. ground (
        arith,
        inv.closed a b,
        elem-visited a subs before,
        elem-to_visit a subs before,
        elem-visited b subs before,
        elem-subscribing c b feds,
      );
      rooted = ground (arith, inv.rooted, elem-visited root subs before);
    }

  subscribed_loop-Inv :
      (fuel : ℕ) (chain : List Federation) (to_visit visited : List ℕ) (result : List Federation)
      → Inv chain to_visit visited
      → subscribed_loop feds fuel chain to_visit visited ≡ some result
      → (visited' : List ℕ) × Inv result [] visited'
  unfolding subscribed_loop
  subscribed_loop-Inv fuel chain [] visited result inv e =
      (visited, let e' : chain ≡ result = cc in rw (← e') inv)
  subscribed_loop-Inv zero chain (c ∷ rest) visited result inv e = cc
  subscribed_loop-Inv (suc fuel) chain (c ∷ rest) visited result inv e =
      let q = round feds chain c rest visited in
      subscribed_loop-Inv fuel q.chain q.to_visit q.visited result
        (Inv-round c chain rest visited inv) e

  Follows-visited :
      {chain : List Federation} {visited : List ℕ} {x : ℕ}
      → Inv chain [] visited
      → Follows feds root x
      → elem x visited ≡ true
  Follows-visited inv here = inv.rooted
  Follows-visited inv (next {a} {b} r e) = inv.closed a b (Follows-visited inv r) refl e

-- The chain holds a federation of each id that follows the federation, other than its own id, and
-- of no other id.
pub elem-get_subscribed_by_chain :
    (feds : List Federation) (root x : ℕ)
    → (elem x (ids (get_subscribed_by_chain feds root)) ≡ true) ↔ (Follows feds root x × (x ≢ root))
unfolding get_subscribed_by_chain
elem-get_subscribed_by_chain feds root x =
    let (result, e) = subscribed_loop_ends feds root in
    let (visited, inv) =
      subscribed_loop-Inv feds root (suc (length feds)) [] (root ∷ []) (root ∷ []) result
        (Inv-start feds root) e in
    rw e (
      λ h. (inv.reached x ((inv.listed x).0 h).0, ((inv.listed x).0 h).1),
      λ p. (inv.listed x).1 (Follows-visited feds root inv p.0, p.1),
    )
