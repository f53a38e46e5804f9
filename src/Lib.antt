-- ===== src/Lib.antt =====
-- The core of the Sophie bot: federations of chats, restrictions of users, floods, warns, feature
-- flags, the group whitelist, AI credits, the welcome captcha, and two helpers that the
-- rest of the bot relies on.
--
-- Federations (sophie_bot/modules/federations/services, utils/cache_service.py, and the documents of
-- sophie_bot/db/models/federations.py). Federations/Model holds the documents and the state `World`:
-- the Mongo collections as lists in natural order, and the Redis keys as functions to an Option.
--   Federations/Cache       FederationCacheService: every key operation; `Expires` is the loss of keys
--   Federations/Manage      FederationManageService: create_federation, delete_federation,
--                           can_user_create_federation, get_federation_for_chat,
--                           subscribe_to_federation and unsubscribe_from_federation
--   Federations/Chain       get_subscription_chain, the depth-first walk along subscriptions
--   Federations/Subscribers get_subscribing_federations, get_subscribed_by_chain, the search backwards
--   Federations/Ban         ban_user, validate_ban_eligibility, unban_user, is_user_banned
--   Federations/Query       is_user_banned_in_chain, the counts and the listing of bans
--   Federations/Lazy        lazy_ban_in_subscribing_federations
--   Federations/Enforce     ban_user_in_federation_chats and the unbans in chats
--   Federations/Chats       FederationChatService
--   Federations/Resolve     get_federation, which tells a command's federation, and the log channel
--   Federations/Admins      FederationAdminService and FederationPermissionService
--   Federations/Records     the step relation of bans, lazy bans, unbans, counts, checks and expiries,
--                           and its invariant
-- The check of a user reads the chain of subscriptions and the bans, and caches its answer under a
-- key that bans and unbans set too; a lazy ban reads the chain backwards and the members of chats.
--
-- Restrictions (sophie_bot/modules/restrictions/utils/restrictions.py and
-- sophie_bot/db/models/mute_permissions.py): Restrictions/Model is the snapshot, the members and the
-- answers of Telegram; Apply is _snapshot and _apply, Restore is _restore and
-- _restore_owned_snapshot, Execute is execute_restriction.
--
-- Helpers: Utils/Pagination (sophie_bot/utils/pagination.py) and Utils/RateLimit
-- (sophie_bot/utils/api/rate_limiter.py).
--
-- Floods (sophie_bot/modules/antiflood/middlewares/enforcer.py and domain/policies.py, and
-- sophie_bot/db/models/antiflood.py): Antiflood/Settings and Antiflood/Enforcer, on the Redis keys of
-- one chat; a flood ends in execute_restriction.
--
-- Warns (sophie_bot/modules/warns/utils.py and sophie_bot/db/models/warns.py): Warns/Settings and
-- Warns/Warn; the actions on a warn end in execute_restriction too. Shared/Actions
-- (sophie_bot/shared/actions.py) holds the stored actions of both.
--
-- Feature flags (sophie_bot/utils/feature_flags.py and sophie_bot/db/models/feature_flag.py):
--   FeatureFlags/Numbers      the texts of integers, as Python's str and int write and read them
--   FeatureFlags/Values       the values of flags, parse_feature_value, serialize_feature_value and
--                             parse_feature_override
--   FeatureFlags/Flags        FeatureType, FEATURE_FLAGS; FeatureFlags/Definitions is the table
--   FeatureFlags/Rollouts     a rollout, its coercion from stored dictionaries, its percentage
--   FeatureFlags/Store        the collection, the hashes, and what reads and writes both
--   FeatureFlags/Service      get_value, the overrides and the rollouts' operations
--   FeatureFlags/Listing      list_all, get_all_overrides, list_chat_overrides, list_rollouts
--   FeatureFlags/Spec         the same operations on the collection alone
--   FeatureFlags/Coherence    when Redis agrees with the collection
-- A key of the collection is a flag with an optional chat; the rollout of a flag has a key of its own.
-- The other modules ask for flags; here a whole operation is one step, but in Service/Overlap.
--
-- Group whitelist (sophie_bot/utils/group_whitelist.py and
-- sophie_bot/db/models/group_user_whitelist.py): Whitelist is one membership with its cached value and
-- its lock, and any number of calls of is_user_group_whitelisted, add_user_to_group_whitelist and
-- remove_user_from_group_whitelist, in turns at their waits. The outer lock against migrations only
-- lengthens the wait of a writer.
--
-- AI credits (sophie_bot/modules/ai/utils/ai_quota.py, sophie_bot/db/models/ai/ai_quota.py and
-- ai_usage.py): Quota is the account of one chat; months are numbered, and the cost that
-- estimate_model_credit_cost tells and the boost of entertainment mode are inputs.
--
-- Welcome captcha (sophie_bot/modules/welcomesecurity/utils_/emoji_captcha.py): Captcha is the data, the
-- buttons and the generation; generate_data's tries are a list of draws of `random`.
--
-- Fuel: get_subscription_chain runs on one more than the number of all subscriptions, since every id
-- is pushed by a subscription of a federation that is visited once; get_subscribed_by_chain on one
-- more than the number of federations, since every id but the first is queued once.
--
-- Parameters: Telegram's answers (Restrictions/Model's `Env`), the clock, the uuid of a new
-- federation, the field names of aiogram's ChatPermissions, how a duration is read from the data of
-- an action. For flags: floats (`Floats`, with what IEEE 754 says of their arithmetic), JSON, ISO
-- times and the sha256 digest (`Services`); white space and digits of texts are those of ASCII, and
-- no number has more than the 4300 digits that Python converts. Mongo's limits: an integer beyond 8
-- bytes is refused, which ends the call before Redis is written (FeatureFlags/Store's
-- `is_storable`, and `none` or `too_large` as the answer); documents are within its size. A rollout
-- has at most the 999999999 days of a timedelta. Ids are only compared, so they are naturals.
--
-- Not modelled: the chat commands and their messages, imports, exports and the scheduler's tasks but
-- for the invalidation of exports, the metrics, the lock's lease (one operation on one pair of a chat
-- and a user runs at a time), the concurrency of requests to different chats, whose results are
-- collected in order. Of flags, list_chat_override_details and the reports to Sentry; of the
-- whitelist, the migration of a chat; of AI credits, the estimate of a model's cost. The chat features
-- that render messages (notes, filters, greetings, locks), the AI agents and the REST routes.
pub mod Prelude
pub mod Antiflood
pub mod Captcha
pub mod FeatureFlags
pub mod Federations
pub mod Quota
pub mod Restrictions
pub mod Shared
pub mod Utils
pub mod Warns
pub mod Whitelist
