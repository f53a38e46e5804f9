-- ===== src/Quota/Tests.antt =====
-- A chat's account in month 7, with 150 of its 300 credits used, and two requests.
use sophie.Prelude.{◌+◌, ◌-◌, ◌*◌, ◌<◌, ◌≤◌, true, none, some, List, [], ◌∷◌, ◌≡◌, refl, ltb}
use sophie.Quota.{
  Quota, QuotaInfo, Account, Request, check_quota, get_quota_info, set_monthly_quota,
  tokens_to_credits, credits_per_token,
}
use sophie.Quota.Spending.{
  IsAccount, spent, consume_all, check_quota-consume_all, tokens_to_credits_bounds,
  get_quota_info-set_monthly_quota,
}

abbrev half_spent : Quota
half_spent = record {
  monthly_credits = some 300;
  bonus_credits = 0;
  period_start = 7;
  used_credits = 150;
  exhausted_notified_period_start = none;
  exhausted_notified_at = none;
}

abbrev chat : Account
chat = record { is_known = true; quota = some half_spent; usage = none }

chat-IsAccount : IsAccount 7 300 150 chat
chat-IsAccount = record {
  quota = half_spent;
  is_stored = refl;
  in_month = refl;
  has_total = refl;
  has_used = refl;
}

abbrev requests : List Request
requests =
    record { day = 3; feature = 1; tokens = 2001; estimate = none }
    ∷ record { day = 4; feature = 2; tokens = 90; estimate = some 140 }
    ∷ []

check_quota-consume_all_example :
    ((check_quota 7 0 (consume_all 7 requests chat)).1.allowed ≡ ltb (150 + spent requests) 300)
    × ((check_quota 7 0 (consume_all 7 requests chat)).1.remaining ≡ 300 - (150 + spent requests))
check_quota-consume_all_example = check_quota-consume_all 7 0 300 150 requests chat chat-IsAccount

tokens_to_credits_bounds_example :
    (2001 ≤ tokens_to_credits 2001 * credits_per_token)
    × (tokens_to_credits 2001 * credits_per_token < 2001 + credits_per_token)
tokens_to_credits_bounds_example = tokens_to_credits_bounds 2001

get_quota_info-set_monthly_quota_example :
    (i : QuotaInfo) × ((get_quota_info 7 0 (set_monthly_quota 7 0 chat)).1 ≡ some i)
    × (i.total ≡ 20000)
    × (i.used ≡ 150)
get_quota_info-set_monthly_quota_example =
    get_quota_info-set_monthly_quota 7 0 0 half_spent chat refl refl
