-- ===== src/Federations/Tests/State.antt =====
-- Two federations that subscribe to each other, a user whom the second one bans, and a group of
-- each.
use sophie.Prelude.{none, some, List, [], ◌∷◌}
use sophie.Federations.Model.{
  supergroup, group, ChatModel, Federation, FederationBan, Config, Cache, World,
}

abbrev pub owner : ChatModel
owner = record { iid = 11; tid = 111; type = group }

abbrev pub helper : ChatModel
helper = record { iid = 12; tid = 112; type = group }

abbrev pub spammer : ChatModel
spammer = record { iid = 13; tid = 113; type = group }

abbrev pub lobby : ChatModel
lobby = record { iid = 31; tid = 131; type = supergroup }

abbrev pub market : ChatModel
market = record { iid = 32; tid = 132; type = supergroup }

abbrev pub alpha : Federation
alpha = record {
  fed_name = "alpha";
  fed_id = 1;
  creator = 11;
  chats = 31 ∷ [];
  subscribed = 2 ∷ [];
  admins = [];
  log_chat = none;
}

abbrev pub beta : Federation
beta = record {
  fed_name = "beta";
  fed_id = 2;
  creator = 12;
  chats = 32 ∷ [];
  subscribed = 1 ∷ 9 ∷ [];
  admins = 11 ∷ [];
  log_chat = none;
}

abbrev pub feds : List Federation
feds = alpha ∷ beta ∷ []

abbrev pub old_ban : FederationBan
old_ban = record {
  fed_id = 2;
  user_id = 113;
  banned_chats = 32 ∷ [];
  time = 5;
  by = 12;
  reason = some "spam";
  original_message_text = none;
  origin_fed = none;
}

abbrev pub own_ban : FederationBan
own_ban = record old_ban { fed_id = 1; banned_chats = [] }

abbrev pub cold : Cache
cold = record {
  chat_fed_id = λ c. none;
  ban_status = λ f u. none;
  ban_count = λ f. none;
  chat_count = λ f. none;
}

-- nobody is banned
abbrev pub calm : World
calm = record {
  chats = owner ∷ helper ∷ spammer ∷ lobby ∷ market ∷ [];
  feds = feds;
  bans = [];
  members = (13, 31) ∷ (13, 32) ∷ [];
  tasks = [];
  cache = cold;
}

-- the second federation bans the spammer
abbrev pub banned_by_beta : World
banned_by_beta = record calm { bans = old_ban ∷ [] }

-- both do
abbrev pub banned_by_both : World
banned_by_both = record calm { bans = own_ban ∷ old_ban ∷ [] }

abbrev pub config : Config
config = record { bot_id = 900; owner_id = some 901; operators = 901 ∷ [] }
