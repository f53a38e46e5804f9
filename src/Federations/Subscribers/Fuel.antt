-- ===== src/Federations/Subscribers/Fuel.antt =====
-- The loop over the subscribers ends: a federation enters the queue once.
use sophie.Prelude.{
  ℕ, zero, suc, ◌+◌, ◌≤◌, List, [], ◌∷◌, ◌≡◌, refl, true, false, some, elem, length, arith,
  if◌then◌else◌, length-append,
}
use sophie.Federations.Model.{Federation}
use sophie.Federations.Subscribers.{
  Queue, offer_all, get_subscribing_federations, ids, round, subscribed_loop,
}
use sophie.Federations.Subscribers.Offer.{offer}

-- how many federations are not visited yet
abbrev pub fresh : List ℕ → List Federation → ℕ
fresh visited [] = 0
fresh visited (fed ∷ feds) = (if elem fed.fed_id visited then 0 else 1) + fresh visited feds

fresh-cons_le :
    (c : ℕ) (visited : List ℕ) (feds : List Federation)
    → fresh (c ∷ visited) feds ≤ fresh visited feds
fresh-cons_le c visited [] = omega arith
fresh-cons_le c visited (fed ∷ feds) = ground (arith, fresh-cons_le c visited feds)

fresh-cons_lt :
    (c : ℕ) (visited : List ℕ) (feds : List Federation)
    → elem c visited ≡ false
    → elem c (ids feds) ≡ true
    → suc (fresh (c ∷ visited) feds) ≤ fresh visited feds
fresh-cons_lt c visited [] h m = cc
fresh-cons_lt c visited (fed ∷ feds) h m =
    ground (arith, fresh-cons_le c visited feds, fresh-cons_lt c visited feds h)

fresh-le-length : (visited : List ℕ) (feds : List Federation) → fresh visited feds ≤ length feds
fresh-le-length visited [] = omega arith
fresh-le-length visited (fed ∷ feds) = ground (arith, fresh-le-length visited feds)

subscribing-elem :
    (c x : ℕ) (feds : List Federation)
    → elem x (ids (get_subscribing_federations feds c)) ≡ true
    → elem x (ids feds) ≡ true
unfolding get_subscribing_federations
subscribing-elem c x [] h = h
subscribing-elem c x (f ∷ feds) h = ground (arith, subscribing-elem c x feds)

offer_all_measure :
    (feds subs : List Federation) (q : Queue)
    → ((x : ℕ) → elem x (ids subs) ≡ true → elem x (ids feds) ≡ true)
    → length (offer_all subs q).to_visit + fresh (offer_all subs q).visited feds
      ≤ length q.to_visit + fresh q.visited feds
unfolding offer_all
offer_all_measure feds [] q h = omega arith
offer_all_measure feds (f ∷ subs) q h = ground (
  arith,
  offer_all_measure feds subs (offer f q) (λ x m. h x (ground arith)),
  fresh-cons_lt f.fed_id q.visited feds,
  h f.fed_id,
  length-append q.to_visit (f.fed_id ∷ []),
)

subscribed_loop-total :
    (feds : List Federation) (fuel : ℕ) (chain : List Federation) (to_visit visited : List ℕ)
    → length to_visit + fresh visited feds ≤ fuel
    → (result : List Federation) × (subscribed_loop feds fuel chain to_visit visited ≡ some result)
unfolding subscribed_loop
subscribed_loop-total feds fuel chain [] visited h = (chain, refl)
subscribed_loop-total feds zero chain (c ∷ rest) visited h = absurd (omega arith)
subscribed_loop-total feds (suc fuel) chain (c ∷ rest) visited h =
    let q = round feds chain c rest visited in
    subscribed_loop-total feds fuel q.chain q.to_visit q.visited (
      omega (
        arith,
        offer_all_measure feds (get_subscribing_federations feds c)
            (record { chain = chain; to_visit = rest; visited = visited })
            (λ x. subscribing-elem c x feds),
      ))

-- The loop of `get_subscribed_by_chain` ends for every collection of federations.
pub subscribed_loop_ends :
    (feds : List Federation) (fed_id : ℕ)
    → (result : List Federation) × (subscribed_loop feds
          (suc (length feds))
          []
          (fed_id ∷ [])
          (fed_id ∷ [])
        ≡ some result)
subscribed_loop_ends feds fed_id =
    subscribed_loop-total feds (suc (length feds)) [] (fed_id ∷ []) (fed_id ∷ [])
      (omega (arith, fresh-le-length (fed_id ∷ []) feds))
