-- ===== src/Federations/Subscribers/Once.antt =====
-- No federation is listed twice in `get_subscribed_by_chain`.
use sophie.Prelude.{
  ℕ, zero, suc, List, [], ◌∷◌, ◌++◌, ◌≡◌, refl, ap, true, false, some, elem, length, arith,
  Bool-cases, inl, inr, Distinct, Distinct-snoc,
}
use sophie.Federations.Model.{Federation}
use sophie.Federations.Subscribers.{
  Queue, offer_all, get_subscribing_federations, ids, round, subscribed_loop,
  get_subscribed_by_chain,
}
use sophie.Federations.Subscribers.Offer.{elem-ids_append}
use sophie.Federations.Subscribers.Fuel.{subscribed_loop_ends}

ids-snoc : (fs : List Federation) (f : Federation) → ids (fs ++ f ∷ []) ≡ ids fs ++ f.fed_id ∷ []
ids-snoc [] f = refl
ids-snoc (g ∷ fs) f = ap (λ xs. g.fed_id ∷ xs) (ids-snoc fs f)

-- listed once, and visited
record Once (chain : List Federation) (visited : List ℕ) : Type 0 where
  distinct : Distinct (ids chain)
  seen : (x : ℕ) → elem x (ids chain) ≡ true → elem x visited ≡ true

offer_new :
    (f : Federation) (q : Queue)
    → elem f.fed_id q.visited ≡ false
    → Once q.chain q.visited
    → Once (q.chain ++ f ∷ []) (f.fed_id ∷ q.visited)
offer_new f q new once = record {
  distinct =
      rw (ids-snoc q.chain f)
        (Distinct-snoc f.fed_id (ids q.chain) once.distinct (ground (arith, once.seen f.fed_id)));
  seen = λ x h. ground (arith, elem-ids_append x q.chain f, once.seen x);
}

offer_all-Once :
    (subs : List Federation) (q : Queue)
    → Once q.chain q.visited
    → Once (offer_all subs q).chain (offer_all subs q).visited
unfolding offer_all
offer_all-Once [] q once = once
offer_all-Once (f ∷ subs) q once = elim (Bool-cases (elem f.fed_id q.visited)) [
  | inl old ↦ rw (old, offer_all) (offer_all-Once subs q once)
  | inr new ↦
      rw (new, offer_all)
        (offer_all-Once subs
          (record {
            chain = q.chain ++ f ∷ [];
            to_visit = q.to_visit ++ f.fed_id ∷ [];
            visited = f.fed_id ∷ q.visited;
          })
          (offer_new f q new once))
]

subscribed_loop-Distinct :
    (feds : List Federation) (fuel : ℕ) (chain : List Federation) (to_visit visited : List ℕ)
    (result : List Federation)
    → Once chain visited
    → subscribed_loop feds fuel chain to_visit visited ≡ some result
    → Distinct (ids result)
unfolding subscribed_loop
subscribed_loop-Distinct feds fuel chain [] visited result once e =
    let e' : chain ≡ result = cc in rw (← e') once.distinct
subscribed_loop-Distinct feds zero chain (c ∷ rest) visited result once e = cc
subscribed_loop-Distinct feds (suc fuel) chain (c ∷ rest) visited result once e =
    let q = round feds chain c rest visited in
    subscribed_loop-Distinct feds fuel q.chain q.to_visit q.visited result
      (offer_all-Once (get_subscribing_federations feds c)
        (record { chain = chain; to_visit = rest; visited = visited }) once)
      e

-- The chain of followers lists no federation id twice.
pub get_subscribed_by_chain-Distinct :
    (feds : List Federation) (root : ℕ) → Distinct (ids (get_subscribed_by_chain feds root))
unfolding get_subscribed_by_chain
get_subscribed_by_chain-Distinct feds root =
    let (result, e) = subscribed_loop_ends feds root in
    rw e (
      subscribed_loop-Distinct feds (suc (length feds)) [] (root ∷ []) (root ∷ []) result
        (record { distinct = tt; seen = λ x h. cc }) e)
