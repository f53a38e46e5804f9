-- ===== src/Federations/Ban/Lookup.antt =====
-- What the ban operations do to the bans that `is_user_banned` finds.
use sophie.Prelude.{
  ℕ, Option, none, some, String, [], ◌∷◌, ◌≡◌, inl, inr, refl, true, false, ◌==◌, ◌&&◌, any, elem,
  opt_text_eq→eq, remove_first, count, arith, ◌≤◌, Option-cases,
}
use sophie.Prelude.Search.{
  find-append, find-update_first_self, find-update_first_other, count-remove_first, count_zero-find,
}
use sophie.Federations.Model.{Federation, FederationBan, Config, World}
use sophie.Federations.Ban.{
  ok, err, BanError, is_ban_of, is_user_banned, ban_user, amend, has_tid, unban_user, fresh_ban,
  inherited,
}

-- Tests for two different pairs never both pass.
pub is_ban_of-apart :
    (f u f' u' : ℕ) (b : FederationBan)
    → (f == f' && u == u') ≡ false
    → is_ban_of f u b ≡ true
    → is_ban_of f' u' b ≡ false
is_ban_of-apart f u f' u' b h e = ground arith

module _ (cfg : Config) (fed : Federation) (user by_iid : ℕ) (reason text : Option String)
    (now : ℕ) where
  -- A call that succeeds leaves a ban of the user in the federation, with the reason and the text
  -- of this call, and it is the ban that is returned.
  pub ban_user-is_user_banned :
      (w : World) (b : FederationBan)
      → (ban_user cfg fed user by_iid reason text now w).0 ≡ ok b
      → (is_user_banned (ban_user cfg fed user by_iid reason text now w).1 fed.fed_id user ≡ some b)
        × (b.reason ≡ reason)
        × (b.original_message_text ≡ text)
  unfolding ban_user
  ban_user-is_user_banned w b h = elim (Option-cases (is_user_banned w fed.fed_id user)) [
    | inl free ↦ ground (
      arith,
      free,
      find-append (is_ban_of fed.fed_id user) w.bans
          (fresh_ban cfg fed user by_iid reason text now ∷ []),
    )
    | inr (old, found) ↦ ground (
      arith,
      found,
      find-update_first_self (is_ban_of fed.fed_id user) (amend reason text) (λ x. refl) w.bans old,
      opt_text_eq→eq old.reason reason,
      opt_text_eq→eq old.original_message_text text,
    )
  ]

  -- No other pair of a federation and a user is touched.
  pub ban_user-others :
      (w : World) (f u : ℕ)
      → (fed.fed_id == f && user == u) ≡ false
      → is_user_banned (ban_user cfg fed user by_iid reason text now w).1 f u ≡ is_user_banned w f u
  unfolding ban_user
  ban_user-others w f u apart = ground (
    arith,
    find-append (is_ban_of f u) w.bans (fresh_ban cfg fed user by_iid reason text now ∷ []),
    find-update_first_other (is_ban_of f u) (is_ban_of fed.fed_id user) (amend reason text)
        (λ x. refl) (λ x. is_ban_of-apart fed.fed_id user f u x apart) w.bans,
  )

  -- A refused ban changes nothing.
  pub ban_user-err :
      (w : World) (e : BanError)
      → (ban_user cfg fed user by_iid reason text now w).0 ≡ err e
      → (ban_user cfg fed user by_iid reason text now w).1 ≡ w
  unfolding ban_user
  ban_user-err w e h = ground arith

  -- A user who is newly banned is no operator, not the bot, not the one who bans, and neither the
  -- owner nor an admin of the federation.
  pub ban_user-eligible :
      (w : World) (b : FederationBan)
      → is_user_banned w fed.fed_id user ≡ none
      → (ban_user cfg fed user by_iid reason text now w).0 ≡ ok b
      → (elem user cfg.operators ≡ false)
        × ((user == cfg.bot_id) ≡ false)
        × (has_tid w user by_iid ≡ false)
        × (has_tid w user fed.creator ≡ false)
        × (any (has_tid w user) fed.admins ≡ false)
  unfolding ban_user
  ban_user-eligible w b free h = ground arith

-- Lifting a ban that is not inherited removes it, when the federation and the user had one record.
pub unban_user-is_user_banned :
    (fed_id user now : ℕ) (w : World) (b : FederationBan)
    → is_user_banned w fed_id user ≡ some b
    → inherited w fed_id user b ≡ false
    → count (is_ban_of fed_id user) w.bans ≤ 1
    → ((unban_user fed_id user now w).0 ≡ (true, none))
      × (is_user_banned (unban_user fed_id user now w).1 fed_id user ≡ none)
unfolding unban_user
unban_user-is_user_banned fed_id user now w b found own single = ground (
  arith,
  found,
  count-remove_first (is_ban_of fed_id user) (is_ban_of fed_id user) (λ x h. h) w.bans b,
  count_zero-find (is_ban_of fed_id user) (remove_first (is_ban_of fed_id user) w.bans),
)
