-- ===== src/Restrictions/Restore.antt =====
-- `_restore`, `_restoration_permissions` and `_restore_owned_snapshot`: giving the rights back.
use sophie.Prelude.{
  ℕ, ◌+◌, Bool, Option, none, some, String, List, true, false, ◌&&◌, ◌||◌, not, is_some, ltb, leb,
  if◌then◌else◌,
}
use sophie.Restrictions.Model.{
  ChatPermissions, Snapshot, Member, restricted, plain, other, answer, refused, transient, Env,
  State, Outcome, returns, raises_refused, raises_transient, save, delete, call, all_permissions,
  owns_restriction,
}

-- `previous_until is not None and previous_until <= now`
abbrev pub is_over : Option ℕ → ℕ → Bool
is_over none now = false
is_over (some t) now = leb t now

-- the rights of both
abbrev pub both : ChatPermissions → ChatPermissions → ChatPermissions
both p q f = p f && q f

unfoldable pub restoration_permissions :
    Env → Snapshot → Outcome (Option ChatPermissions × Option ℕ)
restoration_permissions env s =
    if s.restore_group_defaults || is_over s.previous_until env.now
    then returns (some all_permissions, none)
    else elim s.permissions [
      | none ↦ returns (none, s.previous_until)
      | some p ↦ elim env.get_chat [
        | refused ↦ raises_refused
        | transient ↦ raises_transient
        | answer chat ↦ elim chat [
          | none ↦ returns (none, s.previous_until)
          | some defaults ↦ returns (some (both p defaults), s.previous_until)
        ]
      ]
    ]

-- a deadline that is less than a minute away is left out of the request
abbrev pub restore_until : Env → Option ℕ → Option ℕ
restore_until env none = none
restore_until env (some t) = if ltb t (env.later + 60) then none else some t

-- what is stored before a request without the deadline
abbrev pub releasing : ChatPermissions → ChatPermissions → Option ℕ → Snapshot → Snapshot
releasing seen p previous_until s = record s {
  pending_permissions = some seen;
  applied_permissions = some p;
  applied_until = none;
  expires_at = previous_until;
}

-- `_restore_owned_snapshot` from the choice of the deadline on; `seen` is what the member shows
unfoldable pub send_restoration :
    Env → Snapshot → ChatPermissions → ChatPermissions → Option ℕ → State → Outcome Bool × State
send_restoration env s seen p previous_until st =
    let until = restore_until env previous_until in
    let pending = is_some previous_until && not (is_some until) in
    let st' = call p until (if pending then save (releasing seen p previous_until s) st else st) in
    elim (env.restrict_chat_member p until) [
      | refused ↦ (raises_refused, if pending then save s st' else st')
      | transient ↦ (raises_transient, st')
      | answer b ↦ (
        returns b,
        if b
            then (if pending
                then save
                    (record (releasing seen p previous_until s) { pending_permissions = none }) st'
                else delete st')
            else if pending
            then save s st'
            else st',
      )
    ]

unfoldable pub restore_owned_snapshot :
    Env → Snapshot → ChatPermissions → State → Outcome Bool × State
unfolding restoration_permissions send_restoration
restore_owned_snapshot env s seen st = elim (restoration_permissions env s) [
  | raises_refused ↦ (raises_refused, st)
  | raises_transient ↦ (raises_transient, st)
  | returns (wanted, previous_until) ↦ elim wanted [
    | none ↦ (returns false, st)
    | some p ↦ send_restoration env s seen p previous_until st
  ]
]

-- `snapshot.expires_at is None or snapshot.expires_at > now`
abbrev pub is_not_due : Option ℕ → ℕ → Bool
is_not_due none now = true
is_not_due (some t) now = ltb now t

abbrev pub is_plain : Member → Bool
is_plain plain = true
is_plain _ = false

-- the rights that a member shows; asked only of a restricted one
abbrev pub shown : Member → ChatPermissions
shown (restricted p until) = p
shown plain = all_permissions
shown other = all_permissions

unfoldable pub restore : List String → Env → Bool → State → Outcome Bool × State
unfolding restore_owned_snapshot
restore fields env expired_only st = elim st.snapshot [
  | none ↦ (returns false, st)
  | some s ↦
      if expired_only && is_not_due s.expires_at env.now
      then (returns false, st)
      else elim env.get_chat_member [
        | refused ↦ (raises_refused, st)
        | transient ↦ (raises_transient, st)
        | answer m ↦
            if owns_restriction fields s m
            then restore_owned_snapshot env s (shown m) st
            else (returns (is_plain m), delete st)
      ]
]
