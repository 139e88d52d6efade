-- ===== src/Http/Limiter.antt =====
-- server/internal/httpapi/middleware.go: the token bucket for each address. The limit is positive, as
-- `NewRateLimiter` divides by it, and the clock is an argument.
use authpilot.Common.{
  ℕ, ◌+◌, ◌-◌, ◌*◌, ◌/◌, String, Bool, true, false, Option, none, some, [], if◌then◌else◌, ltb, leb,
  eqb,
}
use authpilot.Common.GoMap.{GoMap, lookup, insert, drop_if}

pub record Bucket : Type 0 where
  pub tokens : ℕ
  pub last_seen : ℕ

pub record RateLimiter : Type 0 where
  pub buckets : GoMap Bucket
  pub limit : ℕ
  pub refill : ℕ

pub record AllowResult : Type 0 where
  pub allowed : Bool
  pub remaining : ℕ
  pub reset_at : ℕ

-- `NewRateLimiter`; `none` is the panic of a division by zero
unfoldable pub new_rate_limiter : ℕ → ℕ → Option RateLimiter
new_rate_limiter limit window =
    if eqb limit 0
    then none
    else some (record { buckets = []; limit = limit; refill = window / limit })

-- the refill of `allowWithInfo`
unfoldable pub refreshed : ℕ → ℕ → ℕ → Bucket → Bucket
refreshed limit refill now b =
    let refilled = (now - b.last_seen) / refill in
    if ltb 0 refilled
    then record {
      tokens = if ltb limit (b.tokens + refilled) then limit else b.tokens + refilled;
      last_seen = now;
    }
    else b

-- what `allowWithInfo` makes of the bucket of the address, and its answer
unfoldable pub take : ℕ → ℕ → ℕ → Option Bucket → Bucket × AllowResult
unfolding refreshed
take limit refill now none = (
  record { tokens = limit - 1; last_seen = now },
  record { allowed = true; remaining = limit - 1; reset_at = now + refill },
)
take limit refill now (some held) =
    let b = refreshed limit refill now held in
    if leb b.tokens 0
    then (b, record { allowed = false; remaining = 0; reset_at = b.last_seen + refill })
    else (
      record b { tokens = b.tokens - 1 },
      record { allowed = true; remaining = b.tokens - 1; reset_at = now + refill },
    )

-- `allowWithInfo`
unfoldable pub allow_with_info : ℕ → RateLimiter → String → RateLimiter × AllowResult
allow_with_info now rl ip =
    let (b, answer) = take rl.limit rl.refill now (lookup ip rl.buckets) in
    (record rl { buckets = insert ip b rl.buckets }, answer)

-- 5 minutes, in nanoseconds
abbrev pub idle_limit : ℕ
idle_limit = 5 * 60 * 1000000000

-- `evict`
unfoldable pub evict : ℕ → RateLimiter → RateLimiter
evict now rl = record rl { buckets = drop_if (λ b. ltb (b.last_seen + idle_limit) now) rl.buckets }
