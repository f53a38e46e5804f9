-- ===== src/Restrictions/Model.antt =====
-- The snapshot of one user in one chat, what Telegram says and answers, and the tests on them.
-- `ChatPermissions` is aiogram's: a value for each name of `model_fields`, which is a parameter.
-- The lock admits one operation at a time on a pair of a chat and a user, so the state is that of
-- one pair. Times are seconds.
use sophie.Prelude.{
  ℕ, Bool, Option, none, some, String, List, [], ◌∷◌, ◌++◌, true, false, ◌==◌, ◌&&◌, ◌||◌, is_some,
  if◌then◌else◌,
}

-- `RestrictionAction`
pub data RestrictionAction : Type 0 where
  ban kick mute unban unmute restrict : RestrictionAction

abbrev pub ChatPermissions : Type 0
ChatPermissions = String → Bool

-- `MutePermissionsModel`
pub record Snapshot : Type 0 where
  pub permissions : Option ChatPermissions
  pub restore_group_defaults : Bool
  pub applied_permissions : Option ChatPermissions
  pub pending_permissions : Option ChatPermissions
  pub applied : Bool
  pub previous_until : Option ℕ
  pub applied_until : Option ℕ
  pub expires_at : Option ℕ

-- The kinds of chat members that the code tells apart; `until_date` 0 is no deadline.
pub data Member : Type 0 where
  restricted : ChatPermissions → ℕ → Member
  plain : Member
  other : Member

-- What a request to Telegram comes back with: `refused` is one of `_RESTRICTION_EXCEPTIONS`,
-- `transient` one of `_TRANSIENT_EXCEPTIONS`.
pub data Reply (A : Type 0) : Type 0 where
  answer : A → Reply A
  refused transient : Reply A

-- The replies of one operation, the two readings of the clock, and whether the lock was acquired
-- in time.
pub record Env : Type 0 where
  pub get_chat_member : Reply Member
  pub get_chat : Reply (Option ChatPermissions)
  pub restrict_chat_member : ChatPermissions → Option ℕ → Reply Bool
  pub ban_chat_member : Reply Bool
  pub unban_chat_member : Reply Bool
  pub now : ℕ
  pub later : ℕ
  pub locked : Bool

-- a `restrict_chat_member` request: the permissions and the deadline
pub data Call : Type 0 where
  restrict_call : ChatPermissions → Option ℕ → Call

-- The stored snapshot, and the restrict requests that were sent.
pub record State : Type 0 where
  pub snapshot : Option Snapshot
  pub calls : List Call

-- How a part of an operation ends: with a value, or by one of the two kinds of exceptions.
pub data Outcome (A : Type 0) : Type 0 where
  returns : A → Outcome A
  raises_refused raises_transient : Outcome A

abbrev pub save : Snapshot → State → State
save s st = record st { snapshot = some s }

abbrev pub delete : State → State
delete st = record st { snapshot = none }

abbrev pub call : ChatPermissions → Option ℕ → State → State
call p until st = record st { calls = st.calls ++ restrict_call p until ∷ [] }

-- `_MUTE_PERMISSIONS` and `_ALL_PERMISSIONS`
abbrev pub mute_permissions : ChatPermissions
mute_permissions f = false

abbrev pub all_permissions : ChatPermissions
all_permissions f = true

abbrev pub bool_eq : Bool → Bool → Bool
bool_eq true b = b
bool_eq false true = false
bool_eq false false = true

-- `==` of two permissions, field by field
abbrev pub same_permissions : List String → ChatPermissions → ChatPermissions → Bool
same_permissions [] p q = true
same_permissions (f ∷ fields) p q = bool_eq (p f) (q f) && same_permissions fields p q

-- `==` with a value that may be `None`
abbrev pub same_as : List String → ChatPermissions → Option ChatPermissions → Bool
same_as fields p none = false
same_as fields p (some q) = same_permissions fields p q

abbrev pub opt_eq : Option ℕ → Option ℕ → Bool
opt_eq none none = true
opt_eq none (some b) = false
opt_eq (some a) none = false
opt_eq (some a) (some b) = a == b

-- `_deadline`
abbrev pub deadline : ℕ → Option ℕ
deadline until = if until == 0 then none else some until

-- `_owns_restriction`
unfoldable pub owns_restriction : List String → Snapshot → Member → Bool
owns_restriction fields s plain = false
owns_restriction fields s other = false
owns_restriction fields s (restricted p until) =
    is_some s.applied_permissions
    && ((same_as fields p s.applied_permissions || same_as fields p s.pending_permissions)
        && opt_eq (deadline until) s.applied_until)
