-- ===== src/Federations/Model.antt =====
-- The documents that the federation services read and write (sophie_bot/db/models/federations.py,
-- federations_enums.py and chat.py), the values that the services keep in Redis, and the state
-- that holds both. Identifiers (Mongo's object ids, Telegram's ids, a federation's uuid) are only
-- compared, so they are naturals. A link to a chat is the `_id` of the chat.
use sophie.Prelude.{ℕ, Bool, Option, List, String, ◌==◌, find}
use sophie.Prelude.Int.{ℤ}

pub data ChatType : Type 0 where
  group supergroup private channel : ChatType

pub record ChatModel : Type 0 where
  pub iid : ℕ
  pub tid : ℕ
  pub type : ChatType

pub record Federation : Type 0 where
  pub fed_name : String
  pub fed_id : ℕ
  pub creator : ℕ
  pub chats : List ℕ
  pub subscribed : List ℕ
  pub admins : List ℕ
  pub log_chat : Option ℕ

pub record FederationBan : Type 0 where
  pub fed_id : ℕ
  pub user_id : ℕ
  pub banned_chats : List ℕ
  pub time : ℕ
  pub by : ℕ
  pub reason : Option String
  pub original_message_text : Option String
  pub origin_fed : Option ℕ

pub data FederationTaskType : Type 0 where
  import_task export_task ban_task unban_task : FederationTaskType

pub data TaskStatus : Type 0 where
  pending processing completed failed : TaskStatus

pub record FederationTask : Type 0 where
  pub fed_id : ℕ
  pub task_type : FederationTaskType
  pub status : TaskStatus
  pub error_message : Option String
  pub completed_at : Option ℕ

-- `CONFIG`, as far as the services read it
pub record Config : Type 0 where
  pub bot_id : ℕ
  pub owner_id : Option ℕ
  pub operators : List ℕ

-- The Redis keys `fed:chat_fed_id:*`, `fed:ban_status:*:*`, `fed:ban_count:*`, `fed:chat_count:*`;
-- `none` is a key that is not set.
pub record Cache : Type 0 where
  pub chat_fed_id : ℕ → Option ℕ
  pub ban_status : ℕ → ℕ → Option Bool
  pub ban_count : ℕ → Option ℤ
  pub chat_count : ℕ → Option ℤ

-- A collection is a list in natural order. A member is a user's and a group's `_id`.
pub record World : Type 0 where
  pub chats : List ChatModel
  pub feds : List Federation
  pub bans : List FederationBan
  pub members : List (ℕ × ℕ)
  pub tasks : List FederationTask
  pub cache : Cache

-- `ChatModel.get_by_iid` and `ChatModel.get_by_tid`
abbrev pub get_by_iid : World → ℕ → Option ChatModel
get_by_iid w iid = find (λ c. c.iid == iid) w.chats

abbrev pub get_by_tid : World → ℕ → Option ChatModel
get_by_tid w tid = find (λ c. c.tid == tid) w.chats

-- `FederationManageService.get_federation_by_id`, on the collection of federations
abbrev pub get_federation_by_id : List Federation → ℕ → Option Federation
get_federation_by_id feds fed_id = find (λ f. f.fed_id == fed_id) feds
