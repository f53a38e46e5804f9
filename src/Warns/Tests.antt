-- ===== src/Warns/Tests.antt =====
-- Warns of one user in a chat where three are too many.
use sophie.Prelude.{ℕ, suc, Option, none, some, String, List, [], ◌∷◌, ◌≡◌, refl, true}
use sophie.Federations.Model.{group, supergroup, ChatModel}
use sophie.Restrictions.Model.{plain, answer, Env, all_permissions}
use sophie.Restrictions.Execute.{execute_restriction, perform}
use sophie.Shared.Actions.{StoredAction}
use sophie.Warns.Settings.{WarnSettingsModel}
use sophie.Warns.Warn.{WarnModel, Store, count_user_warns, execute_restriction_action, warn_user}
use sophie.Warns.Threshold.{warn_user-count}

abbrev fields : List String
fields = "can_send_messages" ∷ []

abbrev resolve : String → ℕ → Option ℕ
resolve name d = some d

abbrev answers : Env
answers = record {
  get_chat_member = answer plain;
  get_chat = answer (some all_permissions);
  restrict_chat_member = λ p until. answer true;
  ban_chat_member = answer true;
  unban_chat_member = answer true;
  now = 100;
  later = 100;
  locked = true;
}

abbrev chat : ChatModel
chat = record { iid = 31; tid = 131; type = supergroup }

abbrev user : ChatModel
user = record { iid = 13; tid = 113; type = group }

abbrev admin : ChatModel
admin = record { iid = 11; tid = 111; type = group }

abbrev first_warn : WarnModel
first_warn = record { iid = 1; chat = 31; user = 13; admin = some 11; reason = none }

abbrev store : Store ℕ
store = record {
  warns = first_warn ∷ record first_warn { iid = 2 } ∷ [];
  restrictions = λ c u. record { snapshot = none; calls = [] };
  handled = [];
}

abbrev settings : WarnSettingsModel ℕ
settings = record { max_warns = 3; on_each_warn_actions = []; on_max_warn_actions = [] }

abbrev kick_action : StoredAction ℕ
kick_action = record { name = "kick_user"; action_data = 60 }

abbrev ban_action : StoredAction ℕ
ban_action = record { name = "ban_user"; action_data = 60 }

warn_user-count_example :
    let r =
      warn_user fields
        (λ n. answers)
        resolve
        (λ a. true)
        true
        settings
        chat
        user
        admin
        none
        3
        store in
    (r.0.0 ≡ suc 2) × (count_user_warns r.1.warns 31 13 ≡ 0)
warn_user-count_example =
    warn_user-count fields (λ n. answers) resolve (λ a. true) true settings chat user admin none 3
      store

abbrev kicked : Store ℕ
kicked =
    (execute_restriction_action fields (λ n. answers) resolve (λ a. true) true 0 kick_action chat
      user store).1

abbrev banned : Store ℕ
banned =
    (execute_restriction_action fields (λ n. answers) resolve (λ a. true) true 1 ban_action chat
      user kicked).1

kick_applied :
    execute_restriction_action fields
      (λ n. answers)
      resolve
      (λ a. true)
      true
      0
      kick_action
      chat
      user
      store
    ≡ (some "kicked", kicked)
unfolding execute_restriction_action execute_restriction perform
kick_applied = refl

ban_applied :
    execute_restriction_action fields
      (λ n. answers)
      resolve
      (λ a. true)
      true
      1
      ban_action
      chat
      user
      kicked
    ≡ (some "banned", banned)
unfolding execute_restriction_action execute_restriction perform
ban_applied = refl
