-- ===== src/Quota/Spending.antt =====
-- What is spent, what is left, and who may still spend.
use mathlib.Core.Path.{subst}
use sophie.Prelude.{
  ℕ, ◌+◌, ◌-◌, ◌*◌, ◌<◌, ◌≤◌, true, false, Option, none, some, List, [], ◌∷◌, if◌then◌else◌, ◌==◌,
  ltb, ◌≡◌, refl, ◌∙◌, ap, arith, Bool-cases, inl, inr,
}
use sophie.Quota.{
  Quota, QuotaInfo, Usage, restarted, Account, total_credits, ensure_period, save_quota, quota_from,
  get_or_create_quota_model, info_of, get_quota_info, check_quota, result_of, tokens_to_credits,
  Request, cost_of, used_more, consume_quota, record_feature_consumption, recorded_in, save_usage,
  usage_of, set_monthly_quota, default_monthly_credits, with_monthly, credits_per_token, set_from,
  info_from,
}

-- what a request adds to the used credits
abbrev pub spent_on : Request → ℕ
spent_on r = if r.tokens == 0 then 0 else cost_of r.estimate r.tokens

abbrev pub spent : List Request → ℕ
spent [] = 0
spent (r ∷ rest) = spent_on r + spent rest

abbrev pub consume_all : ℕ → List Request → Account → Account
consume_all now [] a = a
consume_all now (r ∷ rest) a = consume_all now rest (consume_quota now r a)

-- The account of a chat in a month, with its credits and what is used of them.
pub record IsAccount (now total used : ℕ) (a : Account) : Type 0 where
  pub quota : Quota
  pub is_stored : a.quota ≡ some quota
  pub in_month : quota.period_start ≡ now
  pub has_total : total_credits quota ≡ total
  pub has_used : quota.used_credits ≡ used

ensure_period_now : (now : ℕ) (q : Quota) → q.period_start ≡ now → ensure_period now q ≡ q
ensure_period_now now q h =
    let current : ltb q.period_start now ≡ false = ground arith in
    ap (λ b. if b then restarted now q else q) current

get_lem :
    (now : ℕ) (q : Quota) (a : Account)
    → a.quota ≡ some q
    → q.period_start ≡ now
    → get_or_create_quota_model now a ≡ (save_quota q a, some q)
unfolding get_or_create_quota_model
get_lem now q a h e =
    ap (λ o. quota_from now o a) h ∙ ap (λ x. (save_quota x a, some x)) (ensure_period_now now q e)

save_usage-quota : (u : Option Usage) (a : Account) → (save_usage u a).quota ≡ a.quota
save_usage-quota none a = refl
save_usage-quota (some u) a = refl

record-quota :
    (month day feature credits : ℕ) (a : Account)
    → (record_feature_consumption month day feature credits a).quota ≡ a.quota
unfolding record_feature_consumption
record-quota month day feature credits a =
    save_usage-quota (recorded_in month day feature credits (usage_of a)) a

consume-quota :
    (now : ℕ) (r : Request) (q : Quota) (a : Account)
    → a.quota ≡ some q
    → q.period_start ≡ now
    → (r.tokens == 0) ≡ false
    → (consume_quota now r a).quota ≡ some (used_more (cost_of r.estimate r.tokens) q)
unfolding consume_quota
consume-quota now r q a h e positive =
    rw (positive, get_lem now q a h e)
      (record-quota now r.day r.feature (cost_of r.estimate r.tokens)
        (save_quota (used_more (cost_of r.estimate r.tokens) q) (save_quota q a)))

nothing_consumed :
    (now : ℕ) (r : Request) (a : Account) → (r.tokens == 0) ≡ true → consume_quota now r a ≡ a
unfolding consume_quota
nothing_consumed now r a h = rw h refl

consume-IsAccount :
    (now total used : ℕ) (r : Request) (a : Account)
    → IsAccount now total used a
    → IsAccount now total (used + spent_on r) (consume_quota now r a)
consume-IsAccount now total used r a account = elim (Bool-cases (r.tokens == 0)) [
  | inl e ↦ record {
    quota = account.quota;
    is_stored = ap (λ x. x.quota) (nothing_consumed now r a e) ∙ account.is_stored;
    in_month = account.in_month;
    has_total = account.has_total;
    has_used = ground (arith, account.has_used);
  }
  | inr e ↦ record {
    quota = used_more (cost_of r.estimate r.tokens) account.quota;
    is_stored = consume-quota now r account.quota a account.is_stored account.in_month e;
    in_month = account.in_month;
    has_total = account.has_total;
    has_used = rw e (ap (λ x. x + cost_of r.estimate r.tokens) account.has_used);
  }
]

consume_all-IsAccount :
    (now total used : ℕ) (requests : List Request) (a : Account)
    → IsAccount now total used a
    → IsAccount now total (used + spent requests) (consume_all now requests a)
consume_all-IsAccount now total used [] a account =
    subst (λ x. IsAccount now total x a) (omega arith) account
consume_all-IsAccount now total used (r ∷ rest) a account =
    subst (λ x. IsAccount now total x (consume_all now rest (consume_quota now r a))) (omega arith)
      (consume_all-IsAccount now total (used + spent_on r) rest (consume_quota now r a)
        (consume-IsAccount now total used r a account))

info_lem :
    (now boost : ℕ) (q : Quota) (a : Account)
    → a.quota ≡ some q
    → q.period_start ≡ now
    → (get_quota_info now boost a).1 ≡ some (info_of boost q)
info_lem now boost q a h e = ap (λ x. (info_from boost x).1) (get_lem now q a h e)

result_lem :
    (limit used : ℕ) (i : QuotaInfo)
    → i.remaining ≡ limit - used
    → ((result_of (some i)).allowed ≡ ltb used limit)
      × ((result_of (some i)).remaining ≡ limit - used)
result_lem limit used i h = elim (Bool-cases (ltb 0 i.remaining)) [
  | inl e ↦ (rw e (ground arith), rw e h)
  | inr e ↦ (rw e (ground arith), rw e (ground arith))
]

check_lem :
    (now boost total used : ℕ) (a : Account)
    → IsAccount now total used a
    → ((check_quota now boost a).1.allowed ≡ ltb used (total + boost))
      × ((check_quota now boost a).1.remaining ≡ total + boost - used)
check_lem now boost total used a account =
    rw (info_lem now boost account.quota a account.is_stored account.in_month) (
      result_lem (total + boost) used (info_of boost account.quota)
        (ground (arith, account.has_total, account.has_used)))

-- In the month of an account, after any requests, the chat may spend on if and only if what is used,
-- with the cost of every request that had tokens, is less than the credits of the chat with its boost;
-- what remains is the difference, and never less than nothing.
pub check_quota-consume_all :
    (now boost total used : ℕ) (requests : List Request) (a : Account)
    → IsAccount now total used a
    → ((check_quota now boost (consume_all now requests a)).1.allowed
        ≡ ltb (used + spent requests) (total + boost))
      × ((check_quota now boost (consume_all now requests a)).1.remaining
          ≡ total + boost - (used + spent requests))
check_quota-consume_all now boost total used requests a account =
    check_lem now boost total (used + spent requests) (consume_all now requests a)
      (consume_all-IsAccount now total used requests a account)

-- The credits of a number of tokens pay for them, and less than a credit more.
pub tokens_to_credits_bounds :
    (tokens : ℕ)
    → (tokens ≤ tokens_to_credits tokens * credits_per_token)
      × (tokens_to_credits tokens * credits_per_token < tokens + credits_per_token)
tokens_to_credits_bounds tokens = (omega arith, omega arith)

set-quota :
    (now credits : ℕ) (q : Quota) (a : Account)
    → a.quota ≡ some q
    → q.period_start ≡ now
    → (set_monthly_quota now credits a).quota ≡ some (with_monthly credits q)
unfolding set_monthly_quota
set-quota now credits q a h e = ap (λ x. (set_from now credits x).quota) (get_lem now q a h e)

-- In the month of a chat's quota, a monthly quota that is set becomes its base, but for a quota of
-- nothing, which leaves the chat the default of 20000 credits; what is used stays used.
pub get_quota_info-set_monthly_quota :
    (now boost credits : ℕ) (q : Quota) (a : Account)
    → a.quota ≡ some q
    → q.period_start ≡ now
    → (i : QuotaInfo) × ((get_quota_info now boost (set_monthly_quota now credits a)).1 ≡ some i)
      × (i.total
          ≡ (if credits == 0 then default_monthly_credits else credits) + q.bonus_credits + boost)
      × (i.used ≡ q.used_credits)
get_quota_info-set_monthly_quota now boost credits q a h e = (
  info_of boost (with_monthly credits q),
  info_lem now boost (with_monthly credits q) (set_monthly_quota now credits a)
      (set-quota now credits q a h e) e,
  refl,
  refl,
)
