-- ===== src/Restrictions/RoundTrip.antt =====
-- A mute and the unmute that follows it.
use sophie.Prelude.{
  ℕ, zero, suc, ◌+◌, Option, none, some, String, List, [], ◌∷◌, ◌++◌, ◌≡◌, refl, true, false, ltb,
  leb, arith, Bool-cases, inl, inr, if◌then◌else◌,
}
use sophie.Restrictions.Model.{
  mute, ChatPermissions, Member, restricted, plain, other, answer, Env, restrict_call, State,
  Snapshot, returns, mute_permissions, all_permissions, owns_restriction, deadline,
}
use sophie.Restrictions.Apply.{apply, apply_to, choose_snapshot, fresh_snapshot, intended, expiry}
use sophie.Restrictions.Restore.{
  restore, both, is_over, restore_until, restoration_permissions, send_restoration,
}
use sophie.Restrictions.Ownership.{same_permissions_refl}

-- the deadline of the restriction that a member was under, if there was one
abbrev pub deadline_of : Member → Option ℕ
deadline_of (restricted saved until) = deadline until
deadline_of plain = none
deadline_of other = none

-- the rights that are due to a member at the time of the unmute: what a restriction that is not over
-- left of the group's rights, and else all of them
abbrev pub rights_due : Env → ChatPermissions → Member → ChatPermissions
rights_due env defaults (restricted saved until) =
    if is_over (deadline until) env.now then all_permissions else both saved defaults
rights_due env defaults plain = all_permissions
rights_due env defaults other = all_permissions

-- the deadline of a restriction that is not over
abbrev pub still_due : Env → Option ℕ → Option ℕ
still_due env none = none
still_due env (some t) = if leb t env.now then none else some t

-- a deadline that a request cannot carry, as it is less than a minute away
abbrev pub too_near : Env → Option ℕ → Option ℕ
too_near env none = none
too_near env (some t) = if ltb t (env.later + 60) then some t else none

-- when the snapshot that is stored is to be restored at last
abbrev pub end_of : Option Snapshot → Option (Option ℕ)
end_of none = none
end_of (some s) = some s.expires_at

abbrev pub one_more : Option ℕ → Option (Option ℕ)
one_more none = none
one_more (some t) = some (some t)

module _ (fields : List String) (env env' : Env) (duration : Option ℕ) (st : State) where
  -- the snapshot of a mute that Telegram applied
  abbrev taken : Member → Snapshot
  taken m = record (intended mute_permissions (expiry env duration) (fresh_snapshot m)) {
    pending_permissions = none;
  }

  -- A mute of a member whose restriction is not Sophie's.
  apply-fresh :
      (m : Member)
      → (choose_snapshot fields m st.snapshot) ≡ (fresh_snapshot m, true)
      → env.get_chat_member ≡ answer m
      → env.restrict_chat_member mute_permissions none ≡ answer true
      → (apply fields env mute duration st).1 ≡ record {
        snapshot = some (taken m);
        calls = st.calls ++ restrict_call mute_permissions none ∷ [];
      }
  unfolding apply apply_to
  apply-fresh m fresh was muted = ground (arith, fresh, was, muted)

  -- what the mute saved decides which rights are given back, and until when
  rights-taken :
      (m : Member) (defaults : ChatPermissions)
      → env'.get_chat ≡ answer (some defaults)
      → restoration_permissions env' (taken m)
        ≡ returns (some (rights_due env' defaults m), still_due env' (deadline_of m))
  unfolding restoration_permissions
  rights-taken (restricted saved zero) defaults grants = ground (arith, grants)
  rights-taken (restricted saved (suc t)) defaults grants =
      elim (Bool-cases (leb (suc t) env'.now)) [
        | inl over ↦ ground arith
        | inr lasts ↦ ground (arith, grants)
      ]
  rights-taken plain defaults grants = refl
  rights-taken other defaults grants = refl

  -- A request of a restoration that Telegram applies.
  send_restoration-applied :
      (s : Snapshot) (seen p : ChatPermissions) (due : Option ℕ) (now : State)
      → ((q : ChatPermissions) (until : Option ℕ) → env'.restrict_chat_member q until ≡ answer true)
      → ((send_restoration env' s seen p due now).0 ≡ returns true)
        × ((send_restoration env' s seen p due now).1.calls
            ≡ now.calls ++ restrict_call p (restore_until env' due) ∷ [])
        × (end_of (send_restoration env' s seen p due now).1.snapshot
            ≡ one_more (too_near env' due))
  unfolding send_restoration
  send_restoration-applied s seen p none now applies = ground (arith, applies p none)
  send_restoration-applied s seen p (some t) now applies =
      elim (Bool-cases (ltb t (env'.later + 60))) [
        | inl near ↦ ground (arith, applies p none)
        | inr far ↦ ground (arith, applies p (some t))
      ]

  muted_state : Member → State
  muted_state m = record {
    snapshot = some (taken m);
    calls = st.calls ++ restrict_call mute_permissions none ∷ [];
  }

  restore-muted :
      (m : Member) (defaults : ChatPermissions)
      → env'.get_chat_member ≡ answer (restricted mute_permissions 0)
      → env'.get_chat ≡ answer (some defaults)
      → restore fields env' false (muted_state m)
        ≡ send_restoration env'
            (taken m)
            mute_permissions
            (rights_due env' defaults m)
            (still_due env' (deadline_of m))
            (muted_state m)
  unfolding restore owns_restriction muted_state
  restore-muted m defaults shows grants =
      rw (shows, rights-taken m defaults grants, same_permissions_refl fields mute_permissions) refl

  -- A mute of a member whose restriction, if any, is not Sophie's, and the unmute after it, when
  -- Telegram applies the requests and shows the mute in between. A member who was under no
  -- restriction gets all rights; one whose restriction is over by then, too; any other one gets the
  -- rights that the restriction left and that the group grants at the time of the unmute, until the
  -- restriction's own deadline. No snapshot is left, but for a deadline that is less than a minute
  -- away: the request leaves it out, and a snapshot that is due then stays.
  pub restore-apply :
      (m : Member) (defaults : ChatPermissions)
      → choose_snapshot fields m st.snapshot ≡ (fresh_snapshot m, true)
      → env.get_chat_member ≡ answer m
      → env.restrict_chat_member mute_permissions none ≡ answer true
      → env'.get_chat_member ≡ answer (restricted mute_permissions 0)
      → env'.get_chat ≡ answer (some defaults)
      → ((p : ChatPermissions) (until : Option ℕ) → env'.restrict_chat_member p until ≡ answer true)
      → let after = restore fields env' false (apply fields env mute duration st).1 in
        (after.0 ≡ returns true)
        × (after.1.calls ≡ (
            (st.calls ++ restrict_call mute_permissions none ∷ [])
            ++ restrict_call
                (rights_due env' defaults m)
                (restore_until env' (still_due env' (deadline_of m)))
              ∷ []))
        × (end_of after.1.snapshot ≡ one_more (too_near env' (still_due env' (deadline_of m))))
  unfolding muted_state
  restore-apply m defaults fresh was muted shows grants applies =
      rw (apply-fresh m fresh was muted, restore-muted m defaults shows grants)
        (send_restoration-applied (taken m) mute_permissions (rights_due env' defaults m)
          (still_due env' (deadline_of m)) (muted_state m) applies)
