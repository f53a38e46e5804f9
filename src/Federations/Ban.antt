-- ===== src/Federations/Ban.antt =====
-- sophie_bot/modules/federations/services/ban.py: the ban records of a federation.
pub mod Lookup
use sophie.Prelude.{
  ℕ, Bool, Option, none, some, String, List, [], ◌∷◌, ◌++◌, true, false, ◌==◌, ◌&&◌, ◌||◌, find,
  any, keep, map, count, elem, is_some, opt_text_eq, update_first, remove_first, if◌then◌else◌,
}
use sophie.Prelude.Int.{ℤ, pos, negsuc}
use sophie.Federations.Model.{
  ChatType, ChatModel, Federation, FederationBan, FederationTask, FederationTaskType, TaskStatus,
  Config, Cache, World, get_by_iid, get_by_tid, get_federation_by_id,
}
use sophie.Federations.Cache.{
  get_user_ban_status, set_user_ban_status, get_ban_count, set_ban_count, incr_ban_count,
}
use sophie.Federations.Chain.{get_subscription_chain}
use sophie.Federations.Subscribers.{get_subscribed_by_chain}

-- the messages of `FederationBanValidationError`
pub data BanError : Type 0 where
  banner_not_found cannot_ban_operator cannot_ban_self cannot_ban_bot : BanError
  cannot_ban_owner cannot_ban_admin : BanError

pub data Result (A : Type 0) : Type 0 where
  ok : A → Result A
  err : BanError → Result A

-- the query on `fed_id` and `user_id`
abbrev pub is_ban_of : ℕ → ℕ → FederationBan → Bool
is_ban_of fed_id user_tid b = b.fed_id == fed_id && b.user_id == user_tid

unfoldable pub is_user_banned : World → ℕ → ℕ → Option FederationBan
is_user_banned w fed_id user_tid = find (is_ban_of fed_id user_tid) w.bans

-- does the link lead to a chat of this Telegram id?
abbrev pub has_tid : World → ℕ → ℕ → Bool
has_tid w tid iid = elim (get_by_iid w iid) [ none ↦ false | some c ↦ c.tid == tid ]

unfoldable pub validate_ban_eligibility : Config → World → Federation → ℕ → ℕ → Option BanError
validate_ban_eligibility cfg w federation target_user_tid banner_user_tid =
    if elem target_user_tid cfg.operators
    then some cannot_ban_operator
    else if target_user_tid == banner_user_tid
    then some cannot_ban_self
    else if target_user_tid == cfg.bot_id
    then some cannot_ban_bot
    else if has_tid w target_user_tid federation.creator
    then some cannot_ban_owner
    else if any (has_tid w target_user_tid) federation.admins
    then some cannot_ban_admin
    else none

-- the filter and the update of `_invalidate_export_tasks`
abbrev pub is_pending_export : ℕ → FederationTask → Bool
is_pending_export fed_id t =
    t.fed_id == fed_id
    && (elim t.task_type [ FederationTaskType.export_task ↦ true | _ ↦ false ])
    && (elim t.status [ TaskStatus.pending ↦ true | _ ↦ false ])

abbrev pub fail_task : ℕ → FederationTask → FederationTask
fail_task now t = record t {
  status = TaskStatus.failed;
  error_message = some "Ban list changed during export";
  completed_at = some now;
}

unfoldable pub invalidate_export_tasks : ℕ → ℕ → World → World
invalidate_export_tasks fed_id now w = record w {
  tasks = map (λ t. if is_pending_export fed_id t then fail_task now t else t) w.tasks;
}

-- `FederationBan(...)`, and its insertion with the cache updates that follow it
abbrev pub new_ban : ℕ → ℕ → ℕ → Option String → Option String → Option ℕ → ℕ → FederationBan
new_ban fed_id user_tid by_user_iid reason text origin now = record {
  fed_id = fed_id;
  user_id = user_tid;
  banned_chats = [];
  time = now;
  by = by_user_iid;
  reason = reason;
  original_message_text = text;
  origin_fed = origin;
}

abbrev pub insert_ban : FederationBan → World → World
insert_ban ban w = record w {
  bans = w.bans ++ ban ∷ [];
  cache = incr_ban_count w.cache ban.fed_id (pos 1);
}

abbrev pub mark_status : ℕ → ℕ → Bool → World → World
mark_status fed_id user_tid is_banned w = record w {
  cache = set_user_ban_status w.cache fed_id user_tid is_banned;
}

-- the new reason and text on a ban that exists
abbrev pub amend : Option String → Option String → FederationBan → FederationBan
amend reason text b = record b { reason = reason; original_message_text = text }

module _ (cfg : Config) (federation : Federation) (user_tid by_user_iid : ℕ) where
  module _ (reason original_message_text : Option String) (now : ℕ) where
    abbrev pub fresh_ban : FederationBan
    fresh_ban = new_ban federation.fed_id user_tid by_user_iid reason original_message_text none now

    unfoldable pub ban_user : World → Result FederationBan × World
    unfolding is_user_banned validate_ban_eligibility invalidate_export_tasks
    ban_user w = elim (is_user_banned w federation.fed_id user_tid) [
      | some existing ↦
          if opt_text_eq existing.reason reason
            && opt_text_eq existing.original_message_text original_message_text
          then (ok existing, w)
          else (
            ok (amend reason original_message_text existing),
            record w {
              bans =
                  update_first (is_ban_of federation.fed_id user_tid)
                    (amend reason original_message_text) w.bans;
            },
          )
      | none ↦ elim (get_by_iid w by_user_iid) [
        | none ↦ (err banner_not_found, w)
        | some by_user ↦ elim (validate_ban_eligibility cfg w federation user_tid by_user.tid) [
          | some e ↦ (err e, w)
          | none ↦ (
            ok fresh_ban,
            mark_status federation.fed_id user_tid true
                (invalidate_export_tasks federation.fed_id now (insert_ban fresh_ban w)),
          )
        ]
      ]
    ]

-- Does the origin's ban still propagate into the federation?
unfoldable pub is_inherited_ban_enforced : World → ℕ → ℕ → ℕ → Bool
unfolding is_user_banned
is_inherited_ban_enforced w fed_id origin_fed_id user_tid =
    elem origin_fed_id (get_subscription_chain w.feds fed_id)
    && is_some (is_user_banned w origin_fed_id user_tid)

abbrev pub inherited : World → ℕ → ℕ → FederationBan → Bool
inherited w fed_id user_tid b = elim b.origin_fed [
  | none ↦ false
  | some origin ↦ is_inherited_ban_enforced w fed_id origin user_tid
]

unfoldable pub unban_user : ℕ → ℕ → ℕ → World → (Bool × Option FederationBan) × World
unfolding is_user_banned is_inherited_ban_enforced invalidate_export_tasks
unban_user fed_id user_tid now w = elim (is_user_banned w fed_id user_tid) [
  | none ↦ ((false, none), w)
  | some result ↦ if inherited w fed_id user_tid result then ((false, some result), w) else (
    (true, none),
    mark_status fed_id user_tid false (
        invalidate_export_tasks fed_id now (record w {
          bans = remove_first (is_ban_of fed_id user_tid) w.bans;
          cache = incr_ban_count w.cache fed_id (negsuc 0);
        })),
  )
]
