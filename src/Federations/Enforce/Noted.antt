-- ===== src/Federations/Enforce/Noted.antt =====
-- What `ban_user_in_federation_chats` leaves on the ban, from its guards to the saved document.
use sophie.Prelude.{
  ℕ, Bool, Option, none, some, List, [], ◌∷◌, ◌≡◌, refl, true, false, ◌==◌, ◌&&◌, ◌||◌, not, any,
  keep, elem, map, is_some, arith, Option-cases, inl, inr, if◌then◌else◌,
}
use sophie.Prelude.Search.{find-replace_first, is_some-find}
use sophie.Federations.Model.{ChatModel, Federation, FederationBan, World, get_by_tid}
use sophie.Federations.Ban.{is_user_banned, is_ban_of}
use sophie.Federations.Lazy.{member_chats, is_channel}
use sophie.Federations.Enforce.{
  run_limited_chat_actions, targets, is_detected, ban_chat, note_chats, is_empty, with_banned_chats,
  ban_user_in_federation_chats,
}
use sophie.Federations.Enforce.Targets.{elem-run, elem-note_chats}

abbrev pub noted_of : Option FederationBan → List ℕ
noted_of none = []
noted_of (some b) = b.banned_chats

keep_none :
    (chats : List ChatModel)
    → keep (λ c. elem c.iid [] && (if is_channel c.type then false else true)) chats ≡ []
keep_none [] = refl
keep_none (c ∷ chats) = keep_none chats

no_targets :
    (fed : Federation) (current : Option ℕ) (w : World)
    → (is_empty fed.chats && not (is_some current)) ≡ true
    → member_chats w (targets fed current) ≡ []
unfolding member_chats targets
no_targets fed none w h = let e : fed.chats ≡ [] = ground arith in rw e (keep_none w.chats)
no_targets fed (some current) w h = absurd (ground arith)

any_empty {ℓ} : {A : Type ℓ} (q : A → Bool) (xs : List A) → is_empty xs ≡ true → any q xs ≡ false
any_empty q [] h = refl
any_empty q (x ∷ xs) h = cc

elem_empty : (x : ℕ) (xs : List ℕ) → is_empty xs ≡ true → elem x xs ≡ false
elem_empty x [] h = refl
elem_empty x (y ∷ xs) h = cc

any-listed :
    (x : ℕ) (p : ChatModel → Bool) (chats : List ChatModel)
    → any (λ c. (x == c.iid) && p c) chats ≡ true
    → elem x (map (λ c. c.iid) chats) ≡ true
any-listed x p [] h = h
any-listed x p (c ∷ chats) h = ground (arith, any-listed x p chats)

module _ (applied : ℕ → Bool) (fed : Federation) (ban : FederationBan) (user_tid : ℕ)
    (current : Option ℕ) (w : World) where
  abbrev chats : List ChatModel
  chats = member_chats w (targets fed current)

  -- Did the ban act in a chat of this id?
  abbrev pub acted : ℕ → Bool
  acted x = elim (get_by_tid w user_tid) [
    | none ↦ false
    | some user ↦
        any (λ c. (x == c.iid) && (is_detected w user.iid chats current c.iid && applied c.tid))
          chats
  ]

  -- Of a ban that is stored, the call leaves a record that notes the chats which it noted before
  -- and those group chats, of the federation or the current one, where the user was detected and
  -- Telegram applied the ban; and no other chat.
  pub ban_user_in_federation_chats-noted :
      (x : ℕ)
      → is_user_banned w ban.fed_id ban.user_id ≡ some ban
      → elem x (
          noted_of (
            is_user_banned
              (ban_user_in_federation_chats applied fed ban user_tid current w).1
              ban.fed_id
              ban.user_id))
        ≡ (elem x ban.banned_chats || acted x)
  unfolding ban_user_in_federation_chats is_user_banned
  ban_user_in_federation_chats-noted x stored = elim (Option-cases (get_by_tid w user_tid)) [
    | inl unknown ↦ ground arith
    | inr (user, e) ↦
        let q : ChatModel → Bool =
          λ c. (x == c.iid) && (is_detected w user.iid chats current c.iid && applied c.tid) in
        let banned = run_limited_chat_actions chats (ban_chat applied w user.iid chats current) in
        let noted = note_chats chats banned ban.banned_chats ban.banned_chats in
        ground (
          arith,
          e,
          stored,
          is_some-find (is_ban_of ban.fed_id ban.user_id) w.bans,
          no_targets fed current w,
          any_empty q chats,
          elem_empty x banned,
          any-listed x (λ c. is_detected w user.iid chats current c.iid && applied c.tid) chats,
          elem-run applied w user.iid x chats chats current,
          elem-note_chats x chats banned ban.banned_chats ban.banned_chats,
          find-replace_first (is_ban_of ban.fed_id ban.user_id) (with_banned_chats ban noted) w.bans
              ban (ground arith),
        )
  ]
