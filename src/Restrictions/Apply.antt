-- ===== src/Restrictions/Apply.antt =====
-- `_snapshot` and `_apply`: taking the snapshot, and sending the restriction.
use text.Mathlib.Text.{◌==◌ as text_eq}
use sophie.Prelude.{
  ℕ, ◌+◌, Bool, Option, none, some, String, List, [], ◌∷◌, true, false, ◌&&◌, ◌||◌, if◌then◌else◌,
}
use sophie.Restrictions.Model.{
  RestrictionAction, ChatPermissions, Snapshot, Member, restricted, plain, other, answer, refused,
  transient, Env, State, Outcome, returns, raises_refused, raises_transient, save, delete, call,
  mute_permissions, deadline, owns_restriction,
}

-- the snapshot of a member whose restriction is not Sophie's
abbrev pub fresh_snapshot : Member → Snapshot
fresh_snapshot m = record {
  permissions = elim m [ restricted p until ↦ some p | plain ↦ none | other ↦ none ];
  restore_group_defaults = elim m [ restricted p until ↦ false | plain ↦ true | other ↦ true ];
  applied_permissions = none;
  pending_permissions = none;
  applied = false;
  previous_until = elim m [ restricted p until ↦ deadline until | plain ↦ none | other ↦ none ];
  applied_until = none;
  expires_at = none;
}

-- the stored snapshot of a restriction that is Sophie's, as the member shows it
abbrev pub refresh : Member → Snapshot → Snapshot
refresh (restricted p until) s = record s {
  applied_permissions = some p;
  pending_permissions = none;
}
refresh plain s = s
refresh other s = s

-- the snapshot to go on with, and whether it was created; the stored one is replaced only then
unfoldable pub choose_snapshot : List String → Member → Option Snapshot → Snapshot × Bool
choose_snapshot fields m none = (fresh_snapshot m, true)
choose_snapshot fields m (some existing) =
    if owns_restriction fields existing m
    then (refresh m existing, false)
    else (fresh_snapshot m, true)

unfoldable pub take_snapshot : List String → Env → State → Outcome (Snapshot × Bool) × State
unfolding choose_snapshot
take_snapshot fields env st = elim env.get_chat_member [
  | refused ↦ (raises_refused, st)
  | transient ↦ (raises_transient, st)
  | answer m ↦
      let (s, created) = choose_snapshot fields m st.snapshot in
      (returns (s, created), if created then save s st else st)
]

-- the rights that a `RESTRICT` keeps, where the member and the group have them
abbrev pub kept_fields : List String
kept_fields =
    "can_send_messages" ∷ "can_invite_users" ∷ "can_change_info" ∷ "can_pin_messages"
    ∷ "can_manage_topics" ∷ []

abbrev pub is_kept : List String → String → Bool
is_kept [] f = false
is_kept (k ∷ ks) f = text_eq f k || is_kept ks f

unfoldable pub restrict_permissions : Snapshot → ChatPermissions → ChatPermissions
restrict_permissions s defaults f =
    is_kept kept_fields f
    && ((elim s.permissions [ none ↦ defaults f | some p ↦ p f ]) && defaults f)

-- what is stored before the request
abbrev pub intended : ChatPermissions → Option ℕ → Snapshot → Snapshot
intended p expires s = record s {
  pending_permissions = s.applied_permissions;
  applied_permissions = some p;
  applied_until = none;
  expires_at = expires;
  applied = true;
}

abbrev pub roll_back : Bool → Snapshot → State → State
roll_back created before st = if created then delete st else save before st

-- the part of `_apply` from the deep copy on
unfoldable pub send_restriction :
    Env → ChatPermissions → Option ℕ → Snapshot → Bool → State → Outcome Bool × State
send_restriction env p expires s created st =
    let st' = call p none (save (intended p expires s) st) in
    elim (env.restrict_chat_member p none) [
      | refused ↦ (raises_refused, roll_back created s st')
      | transient ↦ (raises_transient, st')
      | answer b ↦
          if b
          then (
            returns true,
            save (record (intended p expires s) { pending_permissions = none }) st',
          )
          else (returns false, roll_back created s st')
    ]

abbrev pub expiry : Env → Option ℕ → Option ℕ
expiry env none = none
expiry env (some duration) = some (env.now + duration)

-- `_apply` with its snapshot taken
unfoldable pub apply_to :
    Env → RestrictionAction → Option ℕ → Snapshot → Bool → State → Outcome Bool × State
unfolding send_restriction
apply_to env RestrictionAction.restrict duration s created st = elim env.get_chat [
  | refused ↦ (raises_refused, st)
  | transient ↦ (raises_transient, st)
  | answer defaults ↦ elim defaults [
    | none ↦ (returns false, if created then delete st else st)
    | some d ↦ send_restriction env (restrict_permissions s d) (expiry env duration) s created st
  ]
]
apply_to env action duration s created st =
    send_restriction env mute_permissions (expiry env duration) s created st

-- `_apply` after `_snapshot`
unfoldable pub apply_taken :
    Env → RestrictionAction → Option ℕ → Outcome (Snapshot × Bool) × State → Outcome Bool × State
apply_taken env action duration (raises_refused, st) = (raises_refused, st)
apply_taken env action duration (raises_transient, st) = (raises_transient, st)
apply_taken env action duration (returns (s, created), st) =
    apply_to env action duration s created st

unfoldable pub apply :
    List String → Env → RestrictionAction → Option ℕ → State → Outcome Bool × State
unfolding take_snapshot apply_taken
apply fields env action duration st = apply_taken env action duration (take_snapshot fields env st)
