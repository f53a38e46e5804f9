-- ===== src/Antiflood/Tests.antt =====
-- A user who writes two messages in a row where two are a flood.
use sophie.Prelude.{
  ℕ, ◌≤◌, Option, none, some, String, List, [], ◌∷◌, ◌≡◌, refl, true, false, arith,
}
use sophie.Restrictions.Model.{plain, answer, Env, all_permissions}
use sophie.Utils.RateLimit.{unset, live}
use sophie.Utils.RateLimit.Window.{nothing}
use sophie.Antiflood.Settings.{AntifloodModel}
use sophie.Antiflood.Enforcer.{
  Chat, Facts, skipped, increment_flood_count, check_and_enforce, enforce,
}
use sophie.Antiflood.Streak.{start, message, streak, is_exempt, enforce-streak}
use sophie.Antiflood.Burst.{after, enforce-after}

abbrev fields : List String
fields = "can_send_messages" ∷ []

abbrev resolve : String → ℕ → Option ℕ
resolve name d = some d

abbrev answers : Env
answers = record {
  get_chat_member = answer plain;
  get_chat = answer (some all_permissions);
  restrict_chat_member = λ p until. answer true;
  ban_chat_member = answer true;
  unban_chat_member = answer true;
  now = 100;
  later = 100;
  locked = true;
}

abbrev two_messages : AntifloodModel ℕ
two_messages = record { enabled = some true; message_count = 2; actions = [] }

abbrev member : Facts
member = record { chat_known = true; is_enabled = true; is_whitelisted = false; is_admin = false }

abbrev quiet : Chat
quiet = record {
  last_user = none;
  counts = λ u. unset;
  restrictions = λ u. record { snapshot = none; calls = [] };
  requests = [];
}

abbrev once : Chat
once = (enforce fields answers resolve two_messages member 100 7 quiet).1

twice_flooded : (enforce fields answers resolve two_messages member 101 7 once).0 ≡ skipped
unfolding enforce check_and_enforce increment_flood_count live
twice_flooded = refl

enforce-streak_example :
    (2 ≤ streak 7 (7 ∷ 7 ∷ [])) × (is_exempt fields resolve two_messages (λ u. member) 7 ≡ false)
enforce-streak_example =
    enforce-streak fields resolve two_messages (λ u. member) (7 ∷ []) once answers 101 7
      (message answers 100 7 (start refl)) twice_flooded

enforce-after_example :
    (enforce fields answers resolve two_messages member 105 7
      (after fields answers resolve two_messages member 7 refl (100 ∷ []) quiet)).0
    ≡ skipped
enforce-after_example =
    enforce-after fields answers resolve two_messages member 7 refl 100 105 [] quiet refl nothing
      (omega arith) refl
