-- ===== src/Antiflood/Settings.antt =====
-- sophie_bot/db/models/antiflood.py and sophie_bot/modules/antiflood/domain/policies.py. Durations
-- are seconds. How a duration is read from the data of an action is a parameter.
use sophie.Prelude.{ℕ, Bool, Option, none, some, String, List, [], ◌∷◌, ◌++◌, true, if◌then◌else◌}
use sophie.Shared.Actions.{StoredAction, without_name}

pub record AntifloodModel (D : Type 0) : Type 0 where
  pub enabled : Option Bool
  pub message_count : ℕ
  pub actions : List (StoredAction D)

abbrev pub flood_window_seconds : ℕ
flood_window_seconds = 30

abbrev pub default_action_name : String
default_action_name = "mute_user"

abbrev pub default_mute_duration : ℕ
default_mute_duration = 1800

abbrev pub get_action_name : {D : Type 0} → List (StoredAction D) → String
get_action_name [] = default_action_name
get_action_name (action ∷ actions) = action.name

abbrev pub get_action_duration :
    {D : Type 0} → (String → D → Option ℕ) → List (StoredAction D) → Option ℕ
get_action_duration resolve [] = some default_mute_duration
get_action_duration resolve (action ∷ actions) = resolve action.name action.action_data

module _ {D : Type 0} where
  -- the settings of a chat that has none yet
  abbrev pub default_settings : AntifloodModel D
  default_settings = record { enabled = some true; message_count = 5; actions = [] }

  -- the stored settings, or those of a chat that is known; `none` is the `ValueError`
  abbrev pub get_by_chat_iid : Bool → Option (AntifloodModel D) → Option (AntifloodModel D)
  get_by_chat_iid known (some existing) = some existing
  get_by_chat_iid known none = if known then some default_settings else none

  -- The three changes of the settings: what is stored after each.
  unfoldable pub set_antiflood_count :
      Bool → ℕ → Option (AntifloodModel D) → Option (AntifloodModel D)
  set_antiflood_count known n stored = elim (get_by_chat_iid known stored) [
    | none ↦ none
    | some model ↦ some (record model { message_count = n })
  ]

  unfoldable pub add_antiflood_action :
      Bool → StoredAction D → Option (AntifloodModel D) → Option (AntifloodModel D)
  add_antiflood_action known action stored = elim (get_by_chat_iid known stored) [
    | none ↦ none
    | some model ↦ some (record model { actions = model.actions ++ action ∷ [] })
  ]

  unfoldable pub remove_antiflood_action :
      Bool → String → Option (AntifloodModel D) → Option (AntifloodModel D)
  remove_antiflood_action known name stored = elim (get_by_chat_iid known stored) [
    | none ↦ none
    | some model ↦ some (record model { actions = without_name name model.actions })
  ]
