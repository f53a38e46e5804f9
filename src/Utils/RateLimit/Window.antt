-- ===== src/Utils/RateLimit/Window.antt =====
-- A burst of requests within the lifetime of one counter.
use sophie.Prelude.{
  ℕ, ◌+◌, ◌-◌, ◌<◌, min, max, true, false, some, List, [], ◌∷◌, ◌≡◌, ltb, leb, length, arith,
  append-nil, Bool, ◌≤◌, ◌++◌, refl, if◌then◌else◌,
}
use sophie.Utils.RateLimit.{
  Counter, Health, Verdict, allowed, too_many_requests, unset, live, expire_nx, hit, ttl,
  rate_limit,
}

-- all the seconds come before one
pub data Before (e : ℕ) : List ℕ → Type 0 where
  nothing : Before e []
  then_one : {t : ℕ} {ts : List ℕ} → t < e → Before e ts → Before e (t ∷ ts)

abbrev healthy : Health
healthy = record { executes = true; answers_ttl = true }

is_allowed : Verdict → ℕ
is_allowed allowed = 1
is_allowed (too_many_requests s) = 0

-- how many requests at the given seconds are let through, while Redis answers
unfoldable pub passed : ℕ → ℕ → List ℕ → Counter → ℕ
unfolding is_allowed
passed limit window [] counter = 0
passed limit window (t ∷ ts) counter =
    let r = rate_limit limit window healthy t counter in
    is_allowed (r.1) + passed limit window ts (r.0)

abbrev pub lasting : ℕ → ℕ → Counter
lasting c e = record { count = c; expires_at = some e }

module _ (limit window t : ℕ) (c e : ℕ) where
  -- A request before a counter expires adds one to it and leaves the expiry where it is, and it is
  -- refused exactly when the counter passes the limit, to be tried again when the counter expires.
  pub rate_limit_live :
      t < e
      → rate_limit limit window healthy t (lasting c e)
        ≡ (lasting (c + 1) e, if ltb limit (c + 1) then too_many_requests (e - t) else allowed)
  unfolding rate_limit hit live expire_nx ttl
  rate_limit_live h =
      let fresh : leb e t ≡ false = ground arith in
      let wait : max (e - t) 1 ≡ e - t = omega arith in rw (fresh, wait)

-- the refusal of a request, as what it counts
is_allowed_if :
    (b : Bool) (s : ℕ)
    → is_allowed (if b then too_many_requests s else allowed) ≡ (if b then 0 else 1)
unfolding is_allowed
is_allowed_if true s = refl
is_allowed_if false s = refl

passed_live :
    (limit window e : ℕ) (ts us : List ℕ) (c : ℕ)
    → Before e ts
    → passed limit window (ts ++ us) (lasting c e)
      ≡ min (length ts) (limit - c) + passed limit window us (lasting (c + length ts) e)
unfolding passed
passed_live limit window e [] us c nothing =
    let same : c + 0 ≡ c = omega arith in rw same (omega arith)
passed_live limit window e (t ∷ ts) us c (then_one h hs) =
    let same : c + 1 + length ts ≡ c + (1 + length ts) = omega arith in
    rw (rate_limit_live limit window t c e h) (
      ground (
        arith,
        same,
        is_allowed_if (ltb limit (c + 1)) (e - t),
        passed_live limit window e ts us (c + 1) hs,
      ))

-- The first request after a counter expires finds no counter.
passed_expired :
    (limit window t c e : ℕ) (ts : List ℕ)
    → e ≤ t
    → passed limit window (t ∷ ts) (lasting c e) ≡ passed limit window (t ∷ ts) unset
unfolding passed rate_limit hit live
passed_expired limit window t c e ts h = let over : leb e t ≡ true = ground arith in rw over refl

-- The first request of a window starts the counter.
passed_first :
    (limit window t : ℕ) (us : List ℕ)
    → passed limit window (t ∷ us) unset
      ≡ min 1 limit + passed limit window us (lasting 1 (t + window))
unfolding passed rate_limit hit live expire_nx ttl
passed_first limit window t us =
    ground (arith, is_allowed_if (ltb limit (0 + 1)) (max (t + window - t) 1))

-- As many requests of one window pass as the limit allows.
passed_window :
    (limit window t : ℕ) (ts us : List ℕ)
    → Before (t + window) ts
    → passed limit window (t ∷ (ts ++ us)) unset
      ≡ min (length (t ∷ ts)) limit + passed limit window us (lasting (1 + length ts) (t + window))
passed_window limit window t ts us h =
    ground (
      arith,
      passed_first limit window t (ts ++ us),
      passed_live limit window (t + window) ts us 1 h,
    )

last_window :
    (limit window u : ℕ) (us : List ℕ)
    → Before (u + window) us
    → passed limit window (u ∷ us) unset ≡ min (length (u ∷ us)) limit
unfolding passed
last_window limit window u us h =
    let whole : us ++ [] ≡ us = append-nil us in
    ground (arith, whole, passed_window limit window u us [] h)

-- While Redis answers, of the requests that come within one window, counted from the first of them,
-- as many pass as the limit allows, whatever their number and their seconds; and the first request
-- at the end of that window or later opens the next one, where again as many pass: however close
-- to its end the requests of a window come, they do not move that end.
pub passed_lem :
    (limit window t u : ℕ) (ts us : List ℕ)
    → Before (t + window) ts
    → t + window ≤ u
    → Before (u + window) us
    → passed limit window ((t ∷ ts) ++ u ∷ us) unset
      ≡ min (length (t ∷ ts)) limit + min (length (u ∷ us)) limit
passed_lem limit window t u ts us h after h' = ground (
  arith,
  passed_window limit window t ts (u ∷ us) h,
  passed_expired limit window u (1 + length ts) (t + window) us after,
  last_window limit window u us h',
)
