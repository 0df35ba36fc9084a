-- ===== src/Ratelimit/Quota.antt =====
-- What the token bucket of src/ratelimit.rs lets through.
use mcp_web_search.Float.{
  F64, finite, infinity, nan, add, minimum, maximum, at_least_one, scale, is_zero, rounded,
}
use mcp_web_search.Float.Rounding.{rounded-at_least_one}
use mcp_web_search.Base.{
  ◌*◌, leb, true, ◌≡◌, refl, ℕ, arith, ◌≤◌, ◌+◌, min, max, inl, inr, Bool-cases,
}
use mcp_web_search.Ratelimit.{try_acquire, refill, new_bucket, capacity_of}

above : (m n : ℕ) → m ≤ n → leb m n ≡ true
above m n h = ground (arith, h)

below : (m n : ℕ) → leb m n ≡ true → m ≤ n
below m n h = ground (arith, h)

grows : (s c m : ℕ) → s ≤ c → s ≤ c + m
grows s c m h = omega (arith, h)

min_above : (s m n : ℕ) → leb s m ≡ true → leb s n ≡ true → leb s (min m n) ≡ true
min_above s m n h g = ground (arith, h, g)

max_above : (s m n : ℕ) → s ≤ n → leb s (max m n) ≡ true
max_above s m n h = ground (arith, h)

-- A bucket has room for one token.
capacity_of-at_least_one : (rate : F64) → at_least_one (capacity_of rate) ≡ true
unfolding maximum
capacity_of-at_least_one (finite m) = max_above scale m (1 * scale) (omega arith)
capacity_of-at_least_one infinity = refl
capacity_of-at_least_one nan = above scale (1 * scale) (omega arith)

minimum-at_least_one :
    (x y : F64) → at_least_one x ≡ true → at_least_one y ≡ true → at_least_one (minimum x y) ≡ true
unfolding minimum
minimum-at_least_one (finite m) (finite n) h g = min_above scale m n h g
minimum-at_least_one (finite m) infinity h g = h
minimum-at_least_one (finite m) nan h g = h
minimum-at_least_one infinity (finite n) h g = g
minimum-at_least_one infinity infinity h g = refl
minimum-at_least_one infinity nan h g = refl
minimum-at_least_one nan y h g = g

-- Whatever is added to a full bucket, a token is there.
topped_up :
    (capacity x : F64)
    → at_least_one capacity ≡ true
    → at_least_one (minimum (add capacity x) capacity) ≡ true
unfolding add minimum
topped_up (finite c) (finite m) h =
    minimum-at_least_one (rounded (c + m) 1) (finite c)
      (rounded-at_least_one (c + m) (grows scale c m (below scale c h))) h
topped_up (finite c) infinity h = h
topped_up (finite c) nan h = h
topped_up infinity (finite m) h = refl
topped_up infinity infinity h = refl
topped_up infinity nan h = refl
topped_up nan x h = cc

-- A new bucket lets the first call through, whatever its rate and whenever the call comes.
pub new_bucket-passes :
    (rate : F64) (start now : ℕ) → (try_acquire now (new_bucket rate start)).0 ≡ true
unfolding try_acquire refill new_bucket
new_bucket-passes rate start now = elim (Bool-cases (is_zero rate)) [
  | inl e ↦ rw e refl
  | inr e ↦ rw (e, topped_up (capacity_of rate) _ (capacity_of-at_least_one rate)) refl
]
