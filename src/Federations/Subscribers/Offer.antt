-- ===== src/Federations/Subscribers/Offer.antt =====
-- What one round adds to the queue, and that a round never takes more than the federations that
-- are left.
use sophie.Prelude.{
  ℕ, List, [], ◌∷◌, ◌++◌, ◌≡◌, refl, true, false, ◌==◌, ◌&&◌, ◌||◌, not, elem, arith, elem-append,
  any,
}
use sophie.Federations.Model.{Federation}
use sophie.Federations.Subscribers.{Queue, offer_all, get_subscribing_federations, ids}

-- one turn of the inner loop
abbrev pub offer : Federation → Queue → Queue
offer f q = elim (elem f.fed_id q.visited) [
  | true ↦ q
  | false ↦ record {
    chain = q.chain ++ f ∷ [];
    to_visit = q.to_visit ++ f.fed_id ∷ [];
    visited = f.fed_id ∷ q.visited;
  }
]

pub elem-ids_append :
    (x : ℕ) (fs : List Federation) (f : Federation)
    → elem x (ids (fs ++ f ∷ [])) ≡ (elem x (ids fs) || (x == f.fed_id))
elem-ids_append x [] f = ground arith
elem-ids_append x (g ∷ fs) f = ground (arith, elem-ids_append x fs f)

-- The ids that are new in the subscribers enter the queue, the visited ids and the chain.
pub elem-visited :
    (x : ℕ) (subs : List Federation) (q : Queue)
    → elem x (offer_all subs q).visited ≡ (elem x q.visited || elem x (ids subs))
unfolding offer_all
elem-visited x [] q = ground arith
elem-visited x (f ∷ subs) q = ground (arith, elem-visited x subs (offer f q))

pub elem-to_visit :
    (x : ℕ) (subs : List Federation) (q : Queue)
    → elem x (offer_all subs q).to_visit
      ≡ (elem x q.to_visit || (elem x (ids subs) && not (elem x q.visited)))
unfolding offer_all
elem-to_visit x [] q = ground arith
elem-to_visit x (f ∷ subs) q =
    ground (arith, elem-to_visit x subs (offer f q), elem-append x q.to_visit (f.fed_id ∷ []))

pub elem-chain :
    (x : ℕ) (subs : List Federation) (q : Queue)
    → elem x (ids (offer_all subs q).chain)
      ≡ (elem x (ids q.chain) || (elem x (ids subs) && not (elem x q.visited)))
unfolding offer_all
elem-chain x [] q = ground arith
elem-chain x (f ∷ subs) q =
    ground (arith, elem-chain x subs (offer f q), elem-ids_append x q.chain f)

-- who subscribes to a federation, by id
pub elem-subscribing :
    (c x : ℕ) (feds : List Federation)
    → elem x (ids (get_subscribing_federations feds c))
      ≡ any (λ f. (x == f.fed_id) && elem c f.subscribed) feds
unfolding get_subscribing_federations
elem-subscribing c x [] = refl
elem-subscribing c x (f ∷ feds) = ground (arith, elem-subscribing c x feds)
