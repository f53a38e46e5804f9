-- ===== src/Utils/RateLimit.antt =====
-- sophie_bot/utils/api/rate_limiter.py: the limit of requests per address and path, over the
-- counter that Redis keeps under one key.
pub mod Window
use sophie.Prelude.{
  ℕ, ◌+◌, ◌-◌, max, Bool, true, false, Option, none, some, List, [], ◌∷◌, ltb, leb, String,
  if◌then◌else◌, opt_text_eq, any,
}

-- the peer's address and the headers that a proxy sets: `x-forwarded-for` by its first entry, both
-- stripped, and `none` for a header that is missing or empty
pub record Request : Type 0 where
  pub direct_ip : Option String
  pub real_ip : Option String
  pub forwarded_for : Option String

direct_or_unknown : Option String → String
direct_or_unknown none = "unknown"
direct_or_unknown (some ip) = ip

first_of : Option String → Option String → Option String → String
first_of (some ip) _ _ = ip
first_of none (some ip) _ = ip
first_of none none direct = direct_or_unknown direct

unfoldable pub get_client_ip : List String → Request → String
unfolding first_of direct_or_unknown
get_client_ip trusted_proxies request =
    if any (λ p. opt_text_eq (some p) request.direct_ip) trusted_proxies
    then first_of request.real_ip request.forwarded_for request.direct_ip
    else direct_or_unknown request.direct_ip

-- the value of a key, and the second at which it expires, `none` for no expiry
pub record Counter : Type 0 where
  pub count : ℕ
  pub expires_at : Option ℕ

-- whether Redis answers the pipeline, and whether it answers the question for the lifetime
pub record Health : Type 0 where
  pub executes : Bool
  pub answers_ttl : Bool

pub data Verdict : Type 0 where
  allowed : Verdict
  -- status 429, with its `Retry-After` in seconds
  too_many_requests : ℕ → Verdict

-- a counter that nobody has touched
abbrev pub unset : Counter
unset = record { count = 0; expires_at = none }

is_expired : ℕ → Option ℕ → Bool
is_expired now none = false
is_expired now (some e) = leb e now

-- the counter at a second: it is gone when its lifetime has ended
unfoldable pub live : ℕ → Counter → Counter
unfolding is_expired
live now counter = if is_expired now counter.expires_at then unset else counter

-- `EXPIRE key window NX`
unfoldable pub expire_nx : ℕ → ℕ → Option ℕ → Option ℕ
expire_nx now window none = some (now + window)
expire_nx now window (some e) = some e

-- the two commands of the pipeline, run as one
unfoldable pub hit : ℕ → ℕ → Counter → Counter
unfolding live expire_nx
hit window now counter =
    let c = live now counter in
    record { count = c.count + 1; expires_at = expire_nx now window c.expires_at }

-- `TTL key` of a key that exists, where -1, for no expiry, is 0 as the code takes the maximum with 1
unfoldable pub ttl : ℕ → Option ℕ → ℕ
ttl now none = 0
ttl now (some e) = e - now

-- The counter after a request, and what the request gets.
unfoldable pub rate_limit : ℕ → ℕ → Health → ℕ → Counter → Counter × Verdict
unfolding hit ttl
rate_limit limit window health now counter =
    if health.executes
    then (let c = hit window now counter in
        (
          c,
          if ltb limit c.count
              then if health.answers_ttl
                then too_many_requests (max (ttl now c.expires_at) 1)
                else allowed
              else allowed,
        ))
    else (counter, allowed)
