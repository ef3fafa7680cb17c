-- ===== src/Http/Ratelimit.antt =====
-- internal/lib/ratelimit/ratelimit.go: a token bucket for each key. Its lock makes a call one step.
pub mod Burst
pub mod Capacity
use wenjuandiaocha_backend.Base.{
  ℕ, pos, Bool, true, false, String, Option, none, some, List, [], lookup, assign, if◌then◌else◌,
}
use wenjuandiaocha_backend.Platform.{Platform}

-- float64 arithmetic, and now.Sub(last).Seconds().
pub record Arithmetic (pf : Platform) : Type 0 where
  pub add : pf.F → pf.F → pf.F
  pub sub : pf.F → pf.F → pf.F
  pub mul : pf.F → pf.F → pf.F
  pub seconds : (now last : ℕ) → pf.F

pub record TokenBucket (pf : Platform) : Type 0 where
  pub tokens : pf.F
  pub last : ℕ

pub record Limiter (pf : Platform) : Type 0 where
  pub buckets : List (String × TokenBucket pf)
  pub rate : pf.F
  pub capacity : pf.F

module _ (pf : Platform) where
  unfoldable pub new : (rate_per_sec capacity : pf.F) → Limiter pf
  new rate_per_sec capacity = record { buckets = []; rate = rate_per_sec; capacity = capacity }

  abbrev pub one : pf.F
  one = pf.of_int (pos 1)

  -- l.buckets[key] = &tokenBucket{…}, or the change of the bucket that is there.
  abbrev pub put : String → TokenBucket pf → Limiter pf → Limiter pf
  put key b l = record l { buckets = assign key b l.buckets }

  module _ (ar : Arithmetic pf) where
    -- b.tokens += …, and the cut at the capacity.
    unfoldable pub refilled : Limiter pf → TokenBucket pf → ℕ → pf.F
    refilled l b now =
        let tokens = ar.add b.tokens (ar.mul (ar.seconds now b.last) l.rate) in
        if pf.float_lt l.capacity tokens then l.capacity else tokens

    unfoldable pub spend : String → ℕ → Limiter pf → pf.F → Bool × Limiter pf
    spend key now l tokens =
        if pf.float_lt tokens one
        then (false, put key (record { tokens = tokens; last = now }) l)
        else (true, put key (record { tokens = ar.sub tokens one; last = now }) l)

    unfoldable pub allow_found :
        String → ℕ → Limiter pf → Option (TokenBucket pf) → Bool × Limiter pf
    allow_found key now l none =
        (true, put key (record { tokens = ar.sub l.capacity one; last = now }) l)
    allow_found key now l (some b) = spend key now l (refilled l b now)

    unfoldable pub allow : String → ℕ → Limiter pf → Bool × Limiter pf
    allow key now l = allow_found key now l (lookup key l.buckets)
