-- ===== src/Quota.antt =====
-- The AI credits of one chat (sophie_bot/modules/ai/utils/ai_quota.py, and
-- sophie_bot/db/models/ai/ai_quota.py and ai_usage.py). Months and days are numbered in order; `now` is
-- the month of current_period_start. Token counts and credits are not negative.
pub mod Spending
mod Tests
use sophie.Prelude.{
  ℕ, ◌+◌, ◌-◌, ◌*◌, ◌/◌, Bool, true, false, ◌&&◌, Option, none, some, List, [], ◌∷◌, if◌then◌else◌,
  ◌==◌, ltb,
}

abbrev pub default_monthly_credits : ℕ
default_monthly_credits = 20000

abbrev pub credits_per_token : ℕ
credits_per_token = 100

pub record Quota : Type 0 where
  pub monthly_credits : Option ℕ
  pub bonus_credits : ℕ
  pub period_start : ℕ
  pub used_credits : ℕ
  pub exhausted_notified_period_start : Option ℕ
  pub exhausted_notified_at : Option ℕ

-- The dictionaries of the document, which answer 0 for a missing key.
pub record Usage : Type 0 where
  pub daily_requests : ℕ → ℕ
  pub monthly_requests_by_feature : ℕ → ℕ → ℕ
  pub monthly_credits_by_feature : ℕ → ℕ → ℕ

-- what is stored of a chat: whether there is a document of the chat, its quota and its usage
pub record Account : Type 0 where
  pub is_known : Bool
  pub quota : Option Quota
  pub usage : Option Usage

-- `self.monthly_credits or AI_DEFAULT_MONTHLY_CREDITS`
abbrev pub base_credits : Option ℕ → ℕ
base_credits none = default_monthly_credits
base_credits (some n) = if n == 0 then default_monthly_credits else n

abbrev pub total_credits : Quota → ℕ
total_credits q = base_credits q.monthly_credits + q.bonus_credits

abbrev pub restarted : ℕ → Quota → Quota
restarted now q = record {
  monthly_credits = q.monthly_credits;
  bonus_credits = q.bonus_credits;
  period_start = now;
  used_credits = 0;
  exhausted_notified_period_start = none;
  exhausted_notified_at = none;
}

abbrev pub ensure_period : ℕ → Quota → Quota
ensure_period now q = if ltb q.period_start now then restarted now q else q

abbrev pub new_quota : ℕ → Option ℕ → Quota
new_quota now credits = record {
  monthly_credits = credits;
  bonus_credits = 0;
  period_start = now;
  used_credits = 0;
  exhausted_notified_period_start = none;
  exhausted_notified_at = none;
}

abbrev pub save_quota : Quota → Account → Account
save_quota q a = record { is_known = a.is_known; quota = some q; usage = a.usage }

abbrev pub quota_from : ℕ → Option Quota → Account → Account × Option Quota
quota_from now (some q) a = let q' = ensure_period now q in (save_quota q' a, some q')
quota_from now none a =
    if a.is_known
    then (let q' = ensure_period now (new_quota now none) in (save_quota q' a, some q'))
    else (a, none)

unfoldable pub get_or_create_quota_model : ℕ → Account → Account × Option Quota
get_or_create_quota_model now a = quota_from now a.quota a

pub record QuotaInfo : Type 0 where
  pub total : ℕ
  pub used : ℕ
  pub remaining : ℕ
  pub period_start : ℕ

pub record QuotaCheckResult : Type 0 where
  pub allowed : Bool
  pub remaining : ℕ
  pub exhausted : Bool

-- AIQuotaState: the total with the boost of entertainment mode, and `max(total - used, 0)`
abbrev pub info_of : ℕ → Quota → QuotaInfo
info_of boost q = record {
  total = total_credits q + boost;
  used = q.used_credits;
  remaining = total_credits q + boost - q.used_credits;
  period_start = q.period_start;
}

abbrev pub info_from : ℕ → Account × Option Quota → Account × Option QuotaInfo
info_from boost (a, none) = (a, none)
info_from boost (a, some q) = (a, some (info_of boost q))

abbrev pub get_quota_info : ℕ → ℕ → Account → Account × Option QuotaInfo
get_quota_info now boost a = info_from boost (get_or_create_quota_model now a)

abbrev pub result_of : Option QuotaInfo → QuotaCheckResult
result_of none = record { allowed = false; remaining = 0; exhausted = false }
result_of (some i) =
    if ltb 0 i.remaining
    then record { allowed = true; remaining = i.remaining; exhausted = false }
    else record { allowed = false; remaining = 0; exhausted = true }

abbrev pub check_quota : ℕ → ℕ → Account → Account × QuotaCheckResult
check_quota now boost a = let step = get_quota_info now boost a in (step.0, result_of step.1)

abbrev pub tokens_to_credits : ℕ → ℕ
tokens_to_credits tokens = (tokens + credits_per_token - 1) / credits_per_token

abbrev pub add_at : ℕ → ℕ → (ℕ → ℕ) → ℕ → ℕ
add_at key amount m k = if k == key then m k + amount else m k

abbrev pub add_at_both : ℕ → ℕ → ℕ → (ℕ → ℕ → ℕ) → ℕ → ℕ → ℕ
add_at_both month feature amount m k f =
    if (k == month) && (f == feature) then m k f + amount else m k f

abbrev pub recorded : ℕ → ℕ → ℕ → ℕ → Usage → Usage
recorded month day feature credits u = record {
  daily_requests = add_at day 1 u.daily_requests;
  monthly_requests_by_feature = add_at_both month feature 1 u.monthly_requests_by_feature;
  monthly_credits_by_feature = add_at_both month feature credits u.monthly_credits_by_feature;
}

abbrev pub no_usage : Usage
no_usage = record {
  daily_requests = λ d. 0;
  monthly_requests_by_feature = λ m f. 0;
  monthly_credits_by_feature = λ m f. 0;
}

-- `get_or_create_usage`
abbrev pub usage_of : Account → Option Usage
usage_of a = elim a.usage [ some u ↦ some u | none ↦ if a.is_known then some no_usage else none ]

abbrev pub save_usage : Option Usage → Account → Account
save_usage none a = a
save_usage (some u) a = record { is_known = a.is_known; quota = a.quota; usage = some u }

abbrev pub recorded_in : ℕ → ℕ → ℕ → ℕ → Option Usage → Option Usage
recorded_in month day feature credits none = none
recorded_in month day feature credits (some u) = some (recorded month day feature credits u)

unfoldable pub record_feature_consumption : ℕ → ℕ → ℕ → ℕ → Account → Account
record_feature_consumption month day feature credits a =
    save_usage (recorded_in month day feature credits (usage_of a)) a

-- What a request to a model used; `estimate` is what estimate_model_credit_cost says, where the name of
-- the model is known.
pub record Request : Type 0 where
  pub day : ℕ
  pub feature : ℕ
  pub tokens : ℕ
  pub estimate : Option ℕ

abbrev pub cost_of : Option ℕ → ℕ → ℕ
cost_of none tokens = tokens_to_credits tokens
cost_of (some credits) tokens = credits

abbrev pub used_more : ℕ → Quota → Quota
used_more credits q = record {
  monthly_credits = q.monthly_credits;
  bonus_credits = q.bonus_credits;
  period_start = q.period_start;
  used_credits = q.used_credits + credits;
  exhausted_notified_period_start = q.exhausted_notified_period_start;
  exhausted_notified_at = q.exhausted_notified_at;
}

abbrev pub consume_from : ℕ → Request → Account × Option Quota → Account
consume_from now r (a, none) = a
consume_from now r (a, some q) =
    let credits = cost_of r.estimate r.tokens in
    record_feature_consumption now r.day r.feature credits (save_quota (used_more credits q) a)

unfoldable pub consume_quota : ℕ → Request → Account → Account
consume_quota now r a =
    if r.tokens == 0 then a else consume_from now r (get_or_create_quota_model now a)

abbrev pub with_monthly : ℕ → Quota → Quota
with_monthly credits q = record {
  monthly_credits = some credits;
  bonus_credits = q.bonus_credits;
  period_start = q.period_start;
  used_credits = q.used_credits;
  exhausted_notified_period_start = q.exhausted_notified_period_start;
  exhausted_notified_at = q.exhausted_notified_at;
}

abbrev pub set_from : ℕ → ℕ → Account × Option Quota → Account
set_from now credits (a, none) = save_quota (new_quota now (some credits)) a
set_from now credits (a, some q) = save_quota (with_monthly credits q) a

unfoldable pub set_monthly_quota : ℕ → ℕ → Account → Account
set_monthly_quota now credits a = set_from now credits (get_or_create_quota_model now a)

abbrev pub reset_from : ℕ → Account × Option Quota → Account
reset_from now (a, none) = a
reset_from now (a, some q) = save_quota (restarted now q) a

unfoldable pub reset_period_usage : ℕ → Account → Account
reset_period_usage now a = reset_from now (get_or_create_quota_model now a)
