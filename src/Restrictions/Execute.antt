-- ===== src/Restrictions/Execute.antt =====
-- `execute_restriction`, and the sweep `restore_expired_permissions` over the stored snapshots, each with
-- what Telegram answers for its user.
use sophie.Prelude.{
  true, leb, ◌∷◌, [], none, some, ℕ, Bool, Option, String, List, false, if◌then◌else◌,
}
use sophie.Restrictions.Model.{
  RestrictionAction, ban, kick, unban, mute, restrict, unmute, Reply, answer, refused, transient,
  Env, State, Outcome, returns, raises_refused, raises_transient, delete,
}
use sophie.Restrictions.Apply.{apply}
use sophie.Restrictions.Restore.{restore}

-- A request that answers; a ban, a kick or an unban that was applied drops the snapshot.
abbrev pub ask : Reply Bool → State → Outcome Bool × State
ask refused st = (raises_refused, st)
ask transient st = (raises_transient, st)
ask (answer b) st = (returns b, if b then delete st else st)

-- the operation inside the lock
unfoldable pub perform :
    List String → Env → RestrictionAction → Option ℕ → Bool → State → Outcome Bool × State
unfolding apply restore
perform fields env ban until_date expired_only st = ask env.ban_chat_member st
perform fields env kick until_date expired_only st = ask env.unban_chat_member st
perform fields env unban until_date expired_only st = ask env.unban_chat_member st
perform fields env mute until_date expired_only st = apply fields env mute until_date st
perform fields env restrict until_date expired_only st = apply fields env restrict until_date st
perform fields env unmute until_date expired_only st = restore fields env expired_only st

-- `RestrictionResult.applied`: every exception that is caught counts as not applied
abbrev pub applied_of : Outcome Bool → Bool
applied_of (returns b) = b
applied_of raises_refused = false
applied_of raises_transient = false

unfoldable pub execute_restriction :
    List String → Env → RestrictionAction → Option ℕ → Bool → State → Bool × State
unfolding perform
execute_restriction fields env action until_date expired_only st =
    if env.locked
    then (let (outcome, st') = perform fields env action until_date expired_only st in
        (applied_of outcome, st'))
    else (false, st)

-- `{"expires_at": {"$lte": now}}`
abbrev pub is_due : Env → State → Bool
is_due env st = elim st.snapshot [
  | none ↦ false
  | some s ↦ elim s.expires_at [ none ↦ false | some t ↦ leb t env.now ]
]

unfoldable pub restore_expired_permissions : List String → List (Env × State) → List State
restore_expired_permissions fields [] = []
restore_expired_permissions fields ((env, st) ∷ rest) =
    (if is_due env st then (execute_restriction fields env unmute none true st).1 else st)
    ∷ restore_expired_permissions fields rest
