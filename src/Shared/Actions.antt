-- ===== src/Shared/Actions.antt =====
-- sophie_bot/shared/actions.py: the names of restrictions, and actions as they are stored. The JSON
-- data of an action is a parameter.
use text.Mathlib.Text.{◌==◌ as text_eq}
use sophie.Prelude.{Option, none, some, String, List, not, keep, if◌then◌else◌}
use sophie.Restrictions.Model.{RestrictionAction, ban, kick, mute, unban, unmute, restrict}

pub record StoredAction (D : Type 0) : Type 0 where
  pub name : String
  pub action_data : D

-- `RestrictionAction(name)`, where `none` is the `ValueError`
unfoldable pub restriction_of : String → Option RestrictionAction
restriction_of name =
    if text_eq name "ban_user"
    then some ban
    else if text_eq name "kick_user"
    then some kick
    else if text_eq name "mute_user"
    then some mute
    else if text_eq name "unban_user"
    then some unban
    else if text_eq name "unmute_user"
    then some unmute
    else if text_eq name "restrict_user"
    then some restrict
    else none

-- the actions but those of a name
abbrev pub without_name : {D : Type 0} → String → List (StoredAction D) → List (StoredAction D)
without_name name actions = keep (λ a. not (text_eq a.name name)) actions
