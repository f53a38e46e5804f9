-- ===== src/Warns/Warn.antt =====
-- sophie_bot/modules/warns/utils.py and `WarnModel` of sophie_bot/db/models/warns.py.
use text.Mathlib.Text.{◌==◌ as text_eq}
use sophie.Prelude.{
  ℕ, suc, Bool, Option, none, some, String, List, [], ◌∷◌, ◌++◌, true, false, ◌==◌, ◌&&◌, not,
  is_some, leb, count, keep, find, remove_first, length, if◌then◌else◌,
}
use sophie.Federations.Model.{ChatModel}
use sophie.Restrictions.Model.{RestrictionAction, ban, kick, mute, Env, State}
use sophie.Restrictions.Execute.{execute_restriction}
use sophie.Shared.Actions.{StoredAction}
use sophie.Warns.Settings.{WarnSettingsModel}

pub record WarnModel : Type 0 where
  pub iid : ℕ
  pub chat : ℕ
  pub user : ℕ
  pub admin : Option ℕ
  pub reason : Option String

-- The warns, the restrictions of a user in a chat by their Telegram ids, and the actions that were
-- handed to their handlers.
pub record Store (D : Type 0) : Type 0 where
  pub warns : List WarnModel
  pub restrictions : ℕ → ℕ → State
  pub handled : List (StoredAction D)

abbrev pub is_warn_of : ℕ → ℕ → WarnModel → Bool
is_warn_of chat_iid user_iid w = w.chat == chat_iid && w.user == user_iid

abbrev pub count_user_warns : List WarnModel → ℕ → ℕ → ℕ
count_user_warns warns chat_iid user_iid = count (is_warn_of chat_iid user_iid) warns

-- the restriction that the name of an action stands for
abbrev pub warn_restriction_of : String → Option RestrictionAction
warn_restriction_of name =
    if text_eq name "ban_user"
    then some ban
    else if text_eq name "kick_user"
    then some kick
    else if text_eq name "mute_user"
    then some mute
    else if text_eq name "tmute_user"
    then some mute
    else none

abbrev pub punishment_text : RestrictionAction → String
punishment_text ban = "banned"
punishment_text kick = "kicked"
punishment_text _ = "muted"

-- The parameters: the fields of permissions, Telegram's answers to the n-th action, how a duration
-- is read from the data of an action, the actions that have a handler and are allowed on a warn, and
-- whether there is a message that triggered the warn.
module _ {D : Type 0} (fields : List String) (envs : ℕ → Env) (resolve : String → D → Option ℕ)
    (is_allowed : String → Bool) (has_trigger : Bool) where
  -- `execute_restriction` on the stored restriction of the pair
  abbrev pub restrict_pair :
      ℕ → RestrictionAction → Option ℕ → ChatModel → ChatModel → Store D → Bool × Store D
  restrict_pair n action duration chat user store =
      let (applied, st) =
        execute_restriction fields (envs n) action duration false
          (store.restrictions chat.tid user.tid) in
      (
        applied,
        record store {
          restrictions =
              λ c u. if c == chat.tid && u == user.tid then st else store.restrictions c u;
        },
      )

  unfoldable pub execute_restriction_action :
      ℕ → StoredAction D → ChatModel → ChatModel → Store D → Option String × Store D
  execute_restriction_action n a chat user store = elim (warn_restriction_of a.name) [
    | none ↦ (none, store)
    | some action ↦
        let (applied, store') =
          restrict_pair n action (resolve a.name a.action_data) chat user store in
        (if applied then some (punishment_text action) else none, store')
  ]

  -- what comes after the restriction in one turn of the loop
  abbrev pub hand_over : StoredAction D → Store D → Store D
  hand_over a store =
      if text_eq a.name "warn_user"
      then store
      else if not (is_allowed a.name)
      then store
      else if not has_trigger
      then store
      else record store { handled = store.handled ++ a ∷ [] }

  -- The loop, from the n-th action on, with the punishment so far.
  unfoldable pub execute_warn_actions :
      ℕ
      → List (StoredAction D)
      → ChatModel
      → ChatModel
      → Option String
      → Store D
      → Option String × Store D
  execute_warn_actions n [] chat user punishment store = (punishment, store)
  execute_warn_actions n (a ∷ actions) chat user punishment store =
      let (result, store') = execute_restriction_action n a chat user store in
      let stops = is_some result && not (is_some punishment) in
      execute_warn_actions (suc n) actions chat user (if stops then result else punishment)
        (if stops then store' else hand_over a store')

  -- The actions at the threshold, after all warns of the pair are gone.
  unfoldable pub punish :
      ℕ → List (StoredAction D) → ChatModel → ChatModel → Store D → Option String × Store D
  punish n [] chat user store =
      let (applied, store') = restrict_pair n ban none chat user store in
      (if applied then some "banned" else none, store')
  punish n (a ∷ actions) chat user store = execute_warn_actions n (a ∷ actions) chat user none store

  -- The count, the maximum, the punishment and the warn; `warn_iid` is the id of the new document.
  unfoldable pub warn_user :
      WarnSettingsModel D
      → ChatModel
      → ChatModel
      → ChatModel
      → Option String
      → ℕ
      → Store D
      → (ℕ × ℕ × Option String × WarnModel) × Store D
  warn_user settings chat user admin reason warn_iid store =
      let warn : WarnModel = record {
        iid = warn_iid;
        chat = chat.iid;
        user = user.iid;
        admin = some admin.iid;
        reason = reason;
      } in
      let warned = record store { warns = store.warns ++ warn ∷ [] } in
      let current_warns = count_user_warns warned.warns chat.iid user.iid in
      let acted = (execute_warn_actions 0 settings.on_each_warn_actions chat user none warned).1 in
      if leb settings.max_warns current_warns
      then (let (punishment, store') =
            punish (length settings.on_each_warn_actions) settings.on_max_warn_actions chat user
              (record acted {
                warns = keep (λ w. not (is_warn_of chat.iid user.iid w)) acted.warns;
              }) in
          ((current_warns, settings.max_warns, punishment, warn), store'))
      else ((current_warns, settings.max_warns, none, warn), acted)

-- the warn of an id, in the chat it is asked for
unfoldable pub delete_warn : ℕ → ℕ → List WarnModel → Bool × List WarnModel
delete_warn warn_iid chat_iid warns = elim (find (λ w. w.iid == warn_iid) warns) [
  | none ↦ (false, warns)
  | some warn ↦
      if warn.chat == chat_iid
      then (true, remove_first (λ w. w.iid == warn_iid) warns)
      else (false, warns)
]
