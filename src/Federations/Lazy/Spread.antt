-- ===== src/Federations/Lazy/Spread.antt =====
-- Where a lazy ban arrives.
use sophie.Prelude.{
  ℕ, Bool, Option, none, some, String, List, [], ◌∷◌, ◌≡◌, true, false, ◌==◌, ◌&&◌, ◌||◌, any,
  arith, is_some, elem, ◌≢◌, Option-cases, inl, inr,
}
use sophie.Prelude.Search.{find-append, any-ext}
use sophie.Federations.Model.{Federation, FederationBan, World, get_by_tid}
use sophie.Federations.Subscribers.{get_subscribed_by_chain, ids}
use sophie.Federations.Subscribers.Closure.{Follows, elem-get_subscribed_by_chain}
use sophie.Federations.Ban.{is_user_banned, is_ban_of}
use sophie.Federations.Lazy.{
  member_chats, is_present, lazy_ban, lazy_step, lazy_loop, lazy_ban_in_subscribing_federations,
}

-- Does the federation meet the user in one of its chats?
abbrev pub meets : World → ℕ → Federation → Bool
meets w user_iid f = is_present w user_iid (member_chats w f.chats)

any-ids :
    (x : ℕ) (p : Federation → Bool) (fs : List Federation)
    → any (λ s. (s.fed_id == x) && p s) fs ≡ true
    → elem x (ids fs) ≡ true
any-ids x p [] h = h
any-ids x p (f ∷ fs) h = ground (arith, any-ids x p fs)

module _ (origin user by_iid : ℕ) (reason text : Option String) (now : ℕ) where
  -- A step changes bans, cache counts and statuses alone, and bans in its own federation at most.
  lazy_step-meets :
      (iid : ℕ) (s f : Federation) (results : List (Federation × FederationBan)) (w : World)
      → meets (lazy_step origin user by_iid reason text now iid s results w).1 iid f ≡ meets w iid f
  unfolding lazy_step
  lazy_step-meets iid s f results w = ground arith

  lazy_step-banned :
      (iid x u : ℕ) (s : Federation) (results : List (Federation × FederationBan)) (w : World)
      → is_some
          (is_user_banned (lazy_step origin user by_iid reason text now iid s results w).1 x u)
        ≡ (is_some (is_user_banned w x u) || ((u == user) && ((s.fed_id == x) && meets w iid s)))
  unfolding lazy_step
  lazy_step-banned iid x u s results w = ground (
    arith,
    find-append (is_ban_of x u) w.bans (lazy_ban origin user by_iid reason text now s ∷ []),
  )

  lazy_loop-banned :
      (iid x u : ℕ) (subs : List Federation) (results : List (Federation × FederationBan))
      (w : World)
      → is_some
          (is_user_banned (lazy_loop origin user by_iid reason text now iid subs results w).1 x u)
        ≡ (is_some (is_user_banned w x u)
            || ((u == user) && any (λ s. (s.fed_id == x) && meets w iid s) subs))
  unfolding lazy_loop
  lazy_loop-banned iid x u [] results w = ground arith
  lazy_loop-banned iid x u (s ∷ subs) results w =
      let (results', w') = lazy_step origin user by_iid reason text now iid s results w in
      ground (
        arith,
        lazy_loop-banned iid x u subs results' w',
        lazy_step-banned iid x u s results w,
        any-ext (λ f. (f.fed_id == x) && meets w' iid f) (λ f. (f.fed_id == x) && meets w iid f)
            (λ f. ground (arith, lazy_step-meets iid s f results w)) subs,
      )

  -- After a lazy ban, a federation bans a user exactly if it did before, or the user is the one
  -- who is banned, the federation is among the followers of the origin, and one of the group chats
  -- that it lists has the user as a member.
  pub lazy_ban-banned :
      (x u : ℕ) (w : World)
      → is_some (
          is_user_banned
            (lazy_ban_in_subscribing_federations origin user by_iid reason text now w).1
            x
            u)
        ≡ (is_some (is_user_banned w x u) || elim (get_by_tid w user) [
          | none ↦ false
          | some model ↦
              (u == user)
              && any
                  (λ s. (s.fed_id == x) && meets w model.iid s)
                  (get_subscribed_by_chain w.feds origin)
        ])
  unfolding lazy_ban_in_subscribing_federations
  lazy_ban-banned x u w = elim (Option-cases (get_by_tid w user)) [
    | inl unknown ↦ ground arith
    | inr (model, e) ↦
        ground (arith, lazy_loop-banned model.iid x u (get_subscribed_by_chain w.feds origin) [] w)
  ]

  -- A federation that starts to ban follows the origin, and is another federation.
  pub lazy_ban-Follows :
      (x u : ℕ) (w : World)
      → is_some (is_user_banned w x u) ≡ false
      → is_some (
          is_user_banned
            (lazy_ban_in_subscribing_federations origin user by_iid reason text now w).1
            x
            u)
        ≡ true
      → Follows w.feds origin x × (x ≢ origin) × (u ≡ user)
  lazy_ban-Follows x u w before after = elim (Option-cases (get_by_tid w user)) [
    | inl unknown ↦ absurd (ground (arith, lazy_ban-banned x u w))
    | inr (model, e) ↦
        let chain = get_subscribed_by_chain w.feds origin in
        let listed =
          (elem-get_subscribed_by_chain w.feds origin x).0
            (any-ids x (λ s. meets w model.iid s) chain (ground (arith, lazy_ban-banned x u w))) in
        (listed.0, listed.1, ground (arith, lazy_ban-banned x u w))
  ]
