-- ===== src/Restrictions/Ownership.antt =====
-- What a mute remembers, and what an unmute gives back.
use sophie.Prelude.{
  ℕ, Bool, Option, none, some, String, List, [], ◌∷◌, ◌++◌, ◌≡◌, ◌≢◌, ◌⊎◌, refl, true, false, ◌&&◌,
  ◌||◌, arith, if◌then◌else◌,
}
use sophie.Restrictions.Model.{
  RestrictionAction, ban, kick, unban, mute, restrict, unmute, ChatPermissions, Snapshot, Member,
  restricted, plain, other, answer, transient, Env, restrict_call, State, returns, mute_permissions,
  same_permissions, owns_restriction,
}
use sophie.Restrictions.Apply.{
  choose_snapshot, take_snapshot, refresh, apply, apply_to, send_restriction, intended, expiry,
}
use sophie.Restrictions.Restore.{restore, is_over, is_not_due, both, restore_until, is_plain}
use sophie.Restrictions.Execute.{execute_restriction}

pub same_permissions_refl :
    (fields : List String) (p : ChatPermissions) → same_permissions fields p p ≡ true
same_permissions_refl [] p = refl
same_permissions_refl (f ∷ fields) p = ground (arith, same_permissions_refl fields p)

-- Is the stored snapshot one that remembers the same earlier rights?
abbrev pub Remembers : Snapshot → Option Snapshot → Type 0
Remembers s none = ⊥
Remembers s (some s') =
    (s'.permissions ≡ s.permissions)
    × (s'.restore_group_defaults ≡ s.restore_group_defaults)
    × (s'.previous_until ≡ s.previous_until)

module _ (fields : List String) (env : Env) where
  send_restriction-Remembers :
      (p : ChatPermissions) (expires : Option ℕ) (s : Snapshot) (st : State)
      → Remembers s (send_restriction env p expires s false st).1.snapshot
  unfolding send_restriction
  send_restriction-Remembers p expires s st = ground arith

  apply_to-Remembers :
      (action : RestrictionAction) (duration : Option ℕ) (s s' : Snapshot) (st : State)
      → st.snapshot ≡ some s
      → Remembers s (some s')
      → Remembers s (apply_to env action duration s' false st).1.snapshot
  unfolding apply_to
  apply_to-Remembers restrict duration s s' st stored same = ground arith
  apply_to-Remembers _ duration s s' st stored same = ground arith

  take_owned :
      (st : State) (s : Snapshot) (m : Member)
      → st.snapshot ≡ some s
      → env.get_chat_member ≡ answer m
      → owns_restriction fields s m ≡ true
      → take_snapshot fields env st ≡ (returns (refresh m s, false), st)
  unfolding take_snapshot
  take_owned st s m stored seen own = ground arith

  -- Muting or restricting a user again, while the restriction is still the one that Sophie
  -- applied, never forgets the rights from before the first mute, whatever Telegram answers.
  pub apply-Remembers :
      (action : RestrictionAction) (duration : Option ℕ) (st : State) (s : Snapshot) (m : Member)
      → st.snapshot ≡ some s
      → env.get_chat_member ≡ answer m
      → owns_restriction fields s m ≡ true
      → Remembers s (apply fields env action duration st).1.snapshot
  unfolding apply
  apply-Remembers action duration st s m stored seen own =
      rw (take_owned st s m stored seen own, apply)
        (apply_to-Remembers action duration s (refresh m s) st stored (same_after m))
    where
      same_after : (m : Member) → Remembers s (some (refresh m s))
      same_after (restricted p until) = (refl, refl, refl)
      same_after plain = (refl, refl, refl)
      same_after other = (refl, refl, refl)

  -- An unmute that finds another restriction than the one that Sophie applied sends no request
  -- and drops the snapshot.
  pub restore_superseded :
      (expired_only : Bool) (st : State) (s : Snapshot) (m : Member)
      → st.snapshot ≡ some s
      → (expired_only && is_not_due s.expires_at env.now) ≡ false
      → env.get_chat_member ≡ answer m
      → owns_restriction fields s m ≡ false
      → restore fields env expired_only st
        ≡ (returns (is_plain m), record { snapshot = none; calls = st.calls })
  unfolding restore
  restore_superseded expired_only st s m stored due seen foreign = ground arith

  -- An unmute of a user who was restricted before gives back exactly the rights that the user had
  -- and that the group still grants, with the earlier deadline if it is a minute away or more.
  pub restore_least :
      (expired_only : Bool) (st : State) (s : Snapshot) (seen saved defaults : ChatPermissions)
      (until : ℕ)
      → st.snapshot ≡ some s
      → (expired_only && is_not_due s.expires_at env.now) ≡ false
      → env.get_chat_member ≡ answer (restricted seen until)
      → owns_restriction fields s (restricted seen until) ≡ true
      → (s.restore_group_defaults || is_over s.previous_until env.now) ≡ false
      → s.permissions ≡ some saved
      → env.get_chat ≡ answer (some defaults)
      → (restore fields env expired_only st).1.calls
        ≡ st.calls ++ restrict_call (both saved defaults) (restore_until env s.previous_until) ∷ []
  unfolding restore
  restore_least expired_only st s seen saved defaults until stored due shows own kept had grants =
      ground (arith, stored, due, shows, own, kept, had, grants)

  -- Nothing happens in a sweep to a snapshot that has no expiry or one in the future.
  pub restore_not_due :
      (st : State) (s : Snapshot)
      → st.snapshot ≡ some s
      → is_not_due s.expires_at env.now ≡ true
      → restore fields env true st ≡ (returns false, st)
  unfolding restore
  restore_not_due st s stored early = ground arith

  -- A first mute that Telegram refuses or declines leaves no snapshot behind.
  pub apply_refused :
      (duration : Option ℕ) (st : State) (m : Member)
      → st.snapshot ≡ none
      → env.get_chat_member ≡ answer m
      → env.restrict_chat_member mute_permissions none ≢ answer true
      → env.restrict_chat_member mute_permissions none ≢ transient
      → (apply fields env mute duration st).1.snapshot ≡ none
  unfolding apply apply_to choose_snapshot
  apply_refused duration st m stored seen declined arrived = ground arith

  -- When the answer to a mute is lost, the stored snapshot owns the restriction that Telegram may
  -- have applied, so that a later unmute restores it.
  pub apply_transient-owns :
      (duration : Option ℕ) (st : State) (m : Member)
      → env.get_chat_member ≡ answer m
      → env.restrict_chat_member mute_permissions none ≡ transient
      → (s : Snapshot) × ((apply fields env mute duration st).1.snapshot ≡ some s)
        × (owns_restriction fields s (restricted mute_permissions 0) ≡ true)
  unfolding apply apply_to owns_restriction
  apply_transient-owns duration st m seen lost =
      let (s, created) = choose_snapshot fields m st.snapshot in
      (
        intended mute_permissions (expiry env duration) s,
        ground arith,
        ground (arith, same_permissions_refl fields mute_permissions),
      )

  -- A ban, a kick and an unban drop the snapshot exactly when they were applied.
  pub execute_restriction-drops :
      (action : RestrictionAction) (until_date : Option ℕ) (expired_only : Bool) (st : State)
      → (action ≡ ban) ⊎ (action ≡ kick) ⊎ (action ≡ unban)
      → (execute_restriction fields env action until_date expired_only st).1 ≡ (
          if (execute_restriction fields env action until_date expired_only st).0
          then record { snapshot = none; calls = st.calls }
          else st)
  unfolding execute_restriction
  execute_restriction-drops ban until_date expired_only st h = ground arith
  execute_restriction-drops kick until_date expired_only st h = ground arith
  execute_restriction-drops unban until_date expired_only st h = ground arith
  execute_restriction-drops mute until_date expired_only st h = absurd (ground arith)
  execute_restriction-drops unmute until_date expired_only st h = absurd (ground arith)
  execute_restriction-drops restrict until_date expired_only st h = absurd (ground arith)
