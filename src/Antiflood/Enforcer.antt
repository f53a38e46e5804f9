-- ===== src/Antiflood/Enforcer.antt =====
-- sophie_bot/modules/antiflood/middlewares/enforcer.py, on the Redis keys of one chat. The keys of
-- two chats are different, so a message changes those of its own chat alone.
use sophie.Prelude.{
  ℕ, ◌+◌, Bool, Option, none, some, String, List, [], ◌∷◌, ◌++◌, true, false, ◌==◌, not, is_some,
  leb, if◌then◌else◌,
}
use sophie.Restrictions.Model.{
  RestrictionAction, ban, kick, mute, unban, unmute, restrict, Env, State,
}
use sophie.Restrictions.Execute.{execute_restriction}
use sophie.Shared.Actions.{restriction_of}
use sophie.Utils.RateLimit.{Counter, unset, live}
use sophie.Antiflood.Settings.{
  AntifloodModel, flood_window_seconds, get_action_name, get_action_duration,
}

-- what Telegram is asked to do besides the restriction
pub data Request : Type 0 where
  delete_message : ℕ → Request
  notify : ℕ → String → Option ℕ → Request

-- the last user who wrote in the chat, the counter and the restrictions of each user, the requests
pub record Chat : Type 0 where
  pub last_user : Option ℕ
  pub counts : ℕ → Counter
  pub restrictions : ℕ → State
  pub requests : List Request

abbrev pub set_count : ℕ → Counter → Chat → Chat
set_count user_id c chat = record chat { counts = λ u. if u == user_id then c else chat.counts u }

abbrev pub reset_flood_count : ℕ → Chat → Chat
reset_flood_count user_id chat = set_count user_id unset chat

abbrev pub set_last_user : ℕ → Chat → Chat
set_last_user user_id chat = record chat { last_user = some user_id }

abbrev pub counted : ℕ → Counter → Counter
counted now c = record {
  count = c.count + 1;
  expires_at = if c.count + 1 == 1 then some (now + flood_window_seconds) else c.expires_at;
}

-- The new count, and the chat with it.
unfoldable pub increment_flood_count : ℕ → ℕ → Chat → ℕ × Chat
unfolding live
increment_flood_count now user_id chat =
    let c = counted now (live now (chat.counts user_id)) in (c.count, set_count user_id c chat)

-- `last_user == user_id`
abbrev pub is_last : Option ℕ → ℕ → Bool
is_last none user_id = false
is_last (some last) user_id = last == user_id

-- the actions that the middleware carries out
abbrev pub is_flood_action : RestrictionAction → Bool
is_flood_action ban = true
is_flood_action kick = true
is_flood_action mute = true
is_flood_action _ = false

abbrev pub get_action_text : String → String
get_action_text name = elim (restriction_of name) [
  | none ↦ "Restricted"
  | some action ↦ elim action [
    | ban ↦ "Banned"
    | kick ↦ "Kicked"
    | mute ↦ "Muted"
    | unban ↦ "Restricted"
    | unmute ↦ "Restricted"
    | restrict ↦ "Restricted"
  ]
]

-- A message of a group: its sender, and whether it is of a kind or a chat that is not tracked.
pub record Message : Type 0 where
  pub from_user : Option ℕ
  pub is_member_change : Bool
  pub is_private : Bool

abbrev pub is_message_valid : Message → Bool
is_message_valid m =
    if m.is_member_change then false else if m.is_private then false else is_some m.from_user

-- What the handler gets to know of the chat and the sender: whether the chat is known, the feature
-- is on, the sender is on the group's whitelist, and the sender is an admin.
pub record Facts : Type 0 where
  pub chat_known : Bool
  pub is_enabled : Bool
  pub is_whitelisted : Bool
  pub is_admin : Bool

pub data Verdict : Type 0 where
  -- the next handler is called
  handled : Verdict
  -- `SkipHandler`
  skipped : Verdict

-- The parameters: the fields of permissions, what Telegram answers, and how a duration is
-- read from the data of an action.
module _ {D : Type 0} (fields : List String) (env : Env) (resolve : String → D → Option ℕ) where
  unfoldable pub execute_action : AntifloodModel D → ℕ → Chat → Bool × Chat
  execute_action settings user_id chat = elim (restriction_of (get_action_name settings.actions)) [
    | none ↦ (false, chat)
    | some action ↦
        if is_flood_action action
        then (let (applied, st) =
              execute_restriction fields env action (get_action_duration resolve settings.actions)
                false (chat.restrictions user_id) in
            (
              applied,
              record chat { restrictions = λ u. if u == user_id then st else chat.restrictions u },
            ))
        else (false, chat)
  ]

  unfoldable pub handle_flood : AntifloodModel D → ℕ → Chat → Chat
  handle_flood settings user_id chat =
      let asked = record chat { requests = chat.requests ++ delete_message user_id ∷ [] } in
      let (success, chat') = execute_action settings user_id asked in
      if success
      then record (reset_flood_count user_id chat') {
        requests =
            chat'.requests
            ++ notify user_id (get_action_text (get_action_name settings.actions))
                (get_action_duration resolve settings.actions)
              ∷ [];
      }
      else chat'

  -- The answer is whether the flood was triggered.
  unfoldable pub check_and_enforce : AntifloodModel D → ℕ → ℕ → Chat → Bool × Chat
  check_and_enforce settings now user_id chat =
      if is_last chat.last_user user_id
      then (let (count, chat') = increment_flood_count now user_id chat in
          if leb settings.message_count count
          then (true, handle_flood settings user_id chat')
          else (false, chat'))
      else (
        false,
        (increment_flood_count now user_id
            (set_last_user user_id (reset_flood_count user_id chat))).1,
      )

  -- `if not settings or not settings.enabled`
  abbrev pub is_on : Option (AntifloodModel D) → Bool
  is_on none = false
  is_on (some settings) = elim settings.enabled [ none ↦ false | some b ↦ b ]

  -- `__call__` of a message that is tracked, from the settings on
  unfoldable pub enforce : AntifloodModel D → Facts → ℕ → ℕ → Chat → Verdict × Chat
  enforce settings facts now user_id chat =
      if facts.is_whitelisted
      then (handled, set_last_user user_id chat)
      else if facts.is_admin
      then (handled, set_last_user user_id chat)
      else (let (flooded, chat') = check_and_enforce settings now user_id chat in
          (if flooded then skipped else handled, chat'))

  -- `__call__` on a message
  unfoldable pub on_message :
      Option (AntifloodModel D) → Facts → ℕ → Message → Chat → Verdict × Chat
  unfolding enforce
  on_message stored facts now message chat =
      if not (is_message_valid message)
      then (handled, chat)
      else if not facts.chat_known
      then (handled, chat)
      else if not facts.is_enabled
      then (handled, chat)
      else elim stored [
        | none ↦ (handled, chat)
        | some settings ↦
            if is_on (some settings)
            then elim message.from_user [
              | none ↦ (handled, chat)
              | some user_id ↦ enforce settings facts now user_id chat
            ]
            else (handled, chat)
      ]
