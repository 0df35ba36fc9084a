-- ===== src/Ratelimit.antt =====
-- src/ratelimit.rs: the token bucket of the HTTP server, with its `f64` arithmetic. Times are in
-- nanoseconds. The mutex makes each `try_acquire` one step, so a history is the list of the times of
-- the calls.
pub mod Quota
use mcp_web_search.Float.{
  F64, whole, finite, add, multiply, less_one, minimum, maximum, is_zero, at_least_one, as_secs_f64,
}
use mcp_web_search.Base.{true, false, ◌-◌, if◌then◌else◌, Bool, ℕ}

pub record TokenBucket : Type 0 where
  pub tokens : F64
  pub last_refill : ℕ
  pub rate : F64
  pub capacity : F64

-- `rate.max(1.0)`
abbrev pub capacity_of : F64 → F64
capacity_of rate = maximum rate (whole 1)

unfoldable pub new_bucket : F64 → ℕ → TokenBucket
new_bucket rate now = record {
  tokens = capacity_of rate;
  last_refill = now;
  rate = rate;
  capacity = capacity_of rate;
}

-- `duration_since` is zero where the earlier time is the later one.
unfoldable pub refill : ℕ → TokenBucket → F64
refill now bucket =
    minimum (add bucket.tokens (multiply (as_secs_f64 (now - bucket.last_refill)) bucket.rate))
      bucket.capacity

unfoldable pub try_acquire : ℕ → TokenBucket → Bool × TokenBucket
unfolding refill
try_acquire now bucket =
    if is_zero bucket.rate
    then (true, bucket)
    else if at_least_one (refill now bucket)
    then (true, record bucket { tokens = less_one (refill now bucket); last_refill = now })
    else (false, record bucket { tokens = refill now bucket; last_refill = now })
