-- ===== src/Float.antt =====
-- `f64` as src/ratelimit.rs and src/config.rs use it: IEEE 754 binary64 with rounding to the nearest
-- value, ties to even. A number is a multiple of 2⁻¹⁰⁷⁴, the smallest one above zero; the numbers of
-- the limiter are not negative, and only the command line can bring one that is.
pub mod Rounding
use mcp_web_search.Base.{
  ◌+◌, ◌*◌, ◌-◌, ◌/◌, ◌%◌, ◌^◌, ◌==◌, ltb, leb, if◌then◌else◌, min, max, true, false, suc, zero,
  Bool, ℕ,
}

pub data F64 : Type 0 where
  -- so many times 2⁻¹⁰⁷⁴
  finite : ℕ → F64
  infinity : F64
  nan : F64

-- A number of the command line: with a sign.
pub data SignedF64 : Type 0 where
  plus : F64 → SignedF64
  minus : F64 → SignedF64

abbrev pub scale : ℕ
scale = 2 ^ 1074

-- A whole number that has no more than 53 bits.
abbrev pub whole : ℕ → F64
whole n = finite (n * scale)

-- How often a number is halved until it has at most 53 bits. Each round halves it, so that the
-- number itself is fuel enough.
unfoldable pub excess_from : ℕ → ℕ → ℕ
excess_from zero q = 0
excess_from (suc fuel) q = elim (ltb q (2 ^ 53)) [
  | true ↦ 0
  | false ↦ suc (excess_from fuel (q / 2))
]

unfoldable pub excess : ℕ → ℕ
unfolding excess_from
excess q = excess_from q q

-- The whole number next to `n / d`, the even one of two.
abbrev pub nearest : ℕ → ℕ → ℕ
nearest n d =
    let q = n / d in
    let r = 2 * (n % d) in if ltb r d then q else if ltb d r then q + 1 else q + q % 2

-- Above all finite values stands infinity, from 2¹⁰²⁴ on.
abbrev pub or_infinity : ℕ → F64
or_infinity value = if ltb value (2 ^ 2098) then finite value else infinity

-- The values of 53 bits next to `n / d` are the multiples of `2 ^ excess (n / d)`.
unfoldable pub rounded : ℕ → ℕ → F64
unfolding excess
rounded n d = or_infinity (nearest n (d * 2 ^ excess (n / d)) * 2 ^ excess (n / d))

unfoldable pub add : F64 → F64 → F64
unfolding rounded
add (finite m) (finite n) = rounded (m + n) 1
add (finite m) infinity = infinity
add (finite m) nan = nan
add infinity (finite n) = infinity
add infinity infinity = infinity
add infinity nan = nan
add nan y = nan

-- The product with infinity: of zero it is no number.
abbrev times_infinity : ℕ → F64
times_infinity n = if n == 0 then nan else infinity

unfoldable pub multiply : F64 → F64 → F64
unfolding rounded
multiply (finite m) (finite n) = rounded (m * n) scale
multiply (finite m) infinity = times_infinity m
multiply (finite m) nan = nan
multiply infinity (finite n) = times_infinity n
multiply infinity infinity = infinity
multiply infinity nan = nan
multiply nan y = nan

-- `x - 1.0`, for `x` at least 1.0.
unfoldable pub less_one : F64 → F64
unfolding rounded
less_one (finite m) = rounded (m - scale) 1
less_one infinity = infinity
less_one nan = nan

-- `min` and `max` return the other argument where one is no number.
unfoldable pub minimum : F64 → F64 → F64
minimum (finite m) (finite n) = finite (min m n)
minimum (finite m) infinity = finite m
minimum (finite m) nan = finite m
minimum infinity (finite n) = finite n
minimum infinity infinity = infinity
minimum infinity nan = infinity
minimum nan y = y

unfoldable pub maximum : F64 → F64 → F64
maximum (finite m) (finite n) = finite (max m n)
maximum (finite m) infinity = infinity
maximum (finite m) nan = finite m
maximum infinity y = infinity
maximum nan y = y

-- `x == 0.0`, `x > 0.0` and `x >= 1.0`
abbrev pub is_zero : F64 → Bool
is_zero (finite m) = m == 0
is_zero infinity = false
is_zero nan = false

abbrev pub is_positive : F64 → Bool
is_positive (finite m) = ltb 0 m
is_positive infinity = true
is_positive nan = false

abbrev pub at_least_one : F64 → Bool
at_least_one (finite m) = leb scale m
at_least_one infinity = true
at_least_one nan = false

-- `x.max(0.0)`
abbrev pub at_least_zero : SignedF64 → F64
at_least_zero (plus x) = maximum x (finite 0)
at_least_zero (minus x) = finite 0

-- `Duration::as_secs_f64` of so many nanoseconds: the seconds and the rest are converted apart, the
-- rest is divided by 10⁹, and the two are added.
unfoldable pub as_secs_f64 : ℕ → F64
unfolding rounded add
as_secs_f64 nanos =
    add (rounded (nanos / 10 ^ 9 * scale) 1) (rounded (nanos % 10 ^ 9 * scale) (10 ^ 9))
