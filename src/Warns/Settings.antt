-- ===== src/Warns/Settings.antt =====
-- `WarnSettingsModel` of sophie_bot/db/models/warns.py: the settings of one chat.
use text.Mathlib.Text.{◌==◌ as text_eq}
use sophie.Prelude.{
  ℕ, Bool, Option, none, some, String, List, [], ◌∷◌, ◌++◌, leb, length, any, drop, update_first,
  if◌then◌else◌,
}
use sophie.Shared.Actions.{StoredAction, without_name}

pub record WarnSettingsModel (D : Type 0) : Type 0 where
  pub max_warns : ℕ
  pub on_each_warn_actions : List (StoredAction D)
  pub on_max_warn_actions : List (StoredAction D)

-- `WARN_MAX_ACTIONS`
abbrev pub warn_max_actions : ℕ
warn_max_actions = 2

module _ {D : Type 0} where
  abbrev pub is_named : String → StoredAction D → Bool
  is_named name a = text_eq a.name name

  -- The action of the same name is replaced, or the oldest gives way to a new one.
  unfoldable pub upsert_action : List (StoredAction D) → String → D → List (StoredAction D)
  upsert_action actions name action_data =
      let action : StoredAction D = record { name = name; action_data = action_data } in
      if any (is_named name) actions
      then update_first (is_named name) (λ _. action) actions
      else (if leb warn_max_actions (length actions) then drop 1 actions else actions)
        ++ action ∷ []

  -- the stored settings, or new ones of a chat that is known; `none` is the `ValueError`
  abbrev pub get_or_create : Bool → Option (WarnSettingsModel D) → Option (WarnSettingsModel D)
  get_or_create known (some settings) = some settings
  get_or_create known none =
      if known
      then some (record { max_warns = 3; on_each_warn_actions = []; on_max_warn_actions = [] })
      else none

  -- The four changes of the actions: what is stored after each.
  unfoldable pub add_on_each_warn_action :
      Bool → String → D → Option (WarnSettingsModel D) → Option (WarnSettingsModel D)
  add_on_each_warn_action known name action_data stored = elim (get_or_create known stored) [
    | none ↦ none
    | some model ↦ some (record model {
      on_each_warn_actions = upsert_action model.on_each_warn_actions name action_data;
    })
  ]

  unfoldable pub remove_on_each_warn_action :
      Bool → String → Option (WarnSettingsModel D) → Option (WarnSettingsModel D)
  remove_on_each_warn_action known name stored = elim (get_or_create known stored) [
    | none ↦ none
    | some model ↦
        some (record model { on_each_warn_actions = without_name name model.on_each_warn_actions })
  ]

  unfoldable pub add_on_max_warn_action :
      Bool → String → D → Option (WarnSettingsModel D) → Option (WarnSettingsModel D)
  add_on_max_warn_action known name action_data stored = elim (get_or_create known stored) [
    | none ↦ none
    | some model ↦ some (record model {
      on_max_warn_actions = upsert_action model.on_max_warn_actions name action_data;
    })
  ]

  unfoldable pub remove_on_max_warn_action :
      Bool → String → Option (WarnSettingsModel D) → Option (WarnSettingsModel D)
  remove_on_max_warn_action known name stored = elim (get_or_create known stored) [
    | none ↦ none
    | some model ↦
        some (record model { on_max_warn_actions = without_name name model.on_max_warn_actions })
  ]
