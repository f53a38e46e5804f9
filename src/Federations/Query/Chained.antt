-- ===== src/Federations/Query/Chained.antt =====
-- The check of a user against a federation and those it subscribes to.
use sophie.Prelude.{
  ℕ, none, some, List, [], ◌∷◌, ◌++◌, ◌≡◌, ◌≢◌, ◌↔◌, inl, inr, true, false, ◌==◌, find, elem, arith,
  Bool-cases, Option-cases, elem-append, any, is_some, ==_iff,
}
use sophie.Prelude.Search.{find-passes, is_some-find, any_mono, find-any, find-remove_first_other}
use sophie.Federations.Model.{Federation, FederationBan, World, get_federation_by_id}
use sophie.Federations.Ban.{is_user_banned, is_ban_of, unban_user, inherited}
use sophie.Federations.Ban.Lookup.{is_ban_of-apart}
use sophie.Federations.Query.{is_ban_in, is_user_banned_in_chain}
use sophie.Federations.Chain.{get_subscription_chain}
use sophie.Federations.Chain.Walk.{Reach, here, elem-get_subscription_chain}

abbrev chain_ids : World → ℕ → List ℕ
chain_ids w fed_id = get_subscription_chain w.feds fed_id ++ fed_id ∷ []

-- The ids that are searched are those that the federation reaches.
elem-chain_ids :
    (w : World) (fed_id x : ℕ) → (elem x (chain_ids w fed_id) ≡ true) ↔ Reach w.feds fed_id x
elem-chain_ids w fed_id x = (
  λ h. elim (Bool-cases (x == fed_id)) [
    | inl e ↦ let e' : x ≡ fed_id = (==_iff x fed_id).0 e in rw e' here
    | inr e ↦
        ((elem-get_subscription_chain w.feds fed_id x).0
          (ground (arith, elem-append x (get_subscription_chain w.feds fed_id) (fed_id ∷ [])))).0
  ],
  λ r. elim (Bool-cases (x == fed_id)) [
    | inl e ↦ ground (arith, elem-append x (get_subscription_chain w.feds fed_id) (fed_id ∷ []))
    | inr e ↦ ground (
      arith,
      elem-append x (get_subscription_chain w.feds fed_id) (fed_id ∷ []),
      (elem-get_subscription_chain w.feds fed_id x).1 (r, ground arith),
    )
  ],
)

-- A ban that the check reports is a ban of the user, by a federation that the checked one reaches
-- along subscriptions, and the federation reported with it is the one that banned.
pub is_user_banned_in_chain_sound :
    (fed_id user : ℕ) (w : World) (b : FederationBan) (f : Federation)
    → (is_user_banned_in_chain fed_id user w).0 ≡ some (b, f)
    → Reach w.feds fed_id b.fed_id × (b.user_id ≡ user) × (f.fed_id ≡ b.fed_id)
unfolding is_user_banned_in_chain
is_user_banned_in_chain_sound fed_id user w b f h =
    elim (Option-cases (find (is_ban_in (chain_ids w fed_id) user) w.bans)) [
      | inl nothing ↦ absurd (ground arith)
      | inr (b', e) ↦
          let same : b' ≡ b = ground arith in
          let passes = find-passes (is_ban_in (chain_ids w fed_id) user) w.bans b' e in
          let known : get_federation_by_id w.feds b'.fed_id ≡ some f = ground arith in
          let passes' = find-passes (λ g. g.fed_id == b'.fed_id) w.feds f known in
          rw (← same)
            ((elem-chain_ids w fed_id b'.fed_id).0 (ground arith), ground arith, ground arith)
    ]

-- With no cached "not banned", the check reports a ban whenever a federation that it reaches has
-- banned the user, if the federations of all bans exist.
pub is_user_banned_in_chain_complete :
    (fed_id user x : ℕ) (w : World)
    → w.cache.ban_status fed_id user ≢ some false
    → ((b : FederationBan)
        → any (is_ban_of b.fed_id b.user_id) w.bans ≡ true
        → get_federation_by_id w.feds b.fed_id ≢ none)
    → Reach w.feds fed_id x
    → is_some (is_user_banned w x user) ≡ true
    → is_some (is_user_banned_in_chain fed_id user w).0 ≡ true
unfolding is_user_banned_in_chain is_user_banned
is_user_banned_in_chain_complete fed_id user x w cached known r banned =
    let found : any (is_ban_in (chain_ids w fed_id) user) w.bans ≡ true =
      any_mono (is_ban_of x user) (is_ban_in (chain_ids w fed_id) user)
        (λ b e. ground (arith, (elem-chain_ids w fed_id x).1 r)) w.bans
        (ground (arith, is_some-find (is_ban_of x user) w.bans)) in
    elim (Option-cases (find (is_ban_in (chain_ids w fed_id) user) w.bans)) [
      | inl nothing ↦
          absurd (ground (arith, is_some-find (is_ban_in (chain_ids w fed_id) user) w.bans))
      | inr (b, e) ↦ ground (
        arith,
        known b (
            find-any (is_ban_in (chain_ids w fed_id) user) (is_ban_of b.fed_id b.user_id) w.bans b e
              (ground arith)),
      )
    ]

-- The cache answer "not banned" is final until it expires: the check then reports nothing and
-- reads no ban.
pub is_user_banned_in_chain_cached :
    (fed_id user : ℕ) (w : World)
    → w.cache.ban_status fed_id user ≡ some false
    → is_user_banned_in_chain fed_id user w ≡ (none, w)
unfolding is_user_banned_in_chain
is_user_banned_in_chain_cached fed_id user w h = ground arith

-- Lifting a federation's own ban hides the bans of the federations that it subscribes to: until
-- the cached answer expires, the check of the federation reports nothing, even though a
-- federation that it reaches still bans the user.
pub unban_user-hides_chain :
    (fed_id user now x : ℕ) (w : World) (b : FederationBan)
    → is_user_banned w fed_id user ≡ some b
    → inherited w fed_id user b ≡ false
    → Reach w.feds fed_id x
    → x ≢ fed_id
    → is_some (is_user_banned w x user) ≡ true
    → (is_some (is_user_banned (unban_user fed_id user now w).1 x user) ≡ true)
      × ((is_user_banned_in_chain fed_id user (unban_user fed_id user now w).1).0 ≡ none)
unfolding is_user_banned_in_chain unban_user
unban_user-hides_chain fed_id user now x w b found own r ne banned = ground (
  arith,
  find-remove_first_other (is_ban_of x user) (is_ban_of fed_id user)
      (λ y. λ e. is_ban_of-apart fed_id user x user y (ground arith) e) w.bans,
)
