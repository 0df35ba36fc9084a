-- ===== src/Float/Rounding.antt =====
-- What rounding to an `f64` keeps.
use native.Mathlib.Nat.{
  le-div_iff_mul-le, one-mul, div-le_self, one-le-pow, mul-le-mul_right, two-pow-succ,
}
use mcp_web_search.Float.{rounded, excess, excess_from, scale, nearest, at_least_one, or_infinity}
use mcp_web_search.Base.{
  ℕ, zero, suc, ◌+◌, ◌*◌, ◌/◌, ◌^◌, ◌≤◌, ltb, true, false, Bool-cases, arith, inl, inr, subst, ◌≡◌,
  refl,
}

half : (q : ℕ) → ltb q (2 ^ 53) ≡ false → 1 ≤ q / 2
half q e = ground (arith, e)

doubled : (m q : ℕ) → m ≤ q / 2 → m + m ≤ q
doubled m q h = omega (arith, h)

pow_excess_from-le : (fuel q : ℕ) → 1 ≤ q → 2 ^ excess_from fuel q ≤ q
unfolding excess_from
pow_excess_from-le zero q h = h
pow_excess_from-le (suc fuel) q h = elim (Bool-cases (ltb q (2 ^ 53))) [
  | inl e ↦ rw (excess_from, e) h
  | inr e ↦
      let below = pow_excess_from-le fuel (q / 2) (half q e) in
      rw (excess_from, e) (rw (two-pow-succ (excess_from fuel (q / 2))) (doubled _ q below))
]

nearest-above : (n d : ℕ) → n / d ≤ nearest n d
nearest-above n d = ground arith

climb : (a b c : ℕ) → a ≤ b → b ≤ c → a ≤ c
climb a b c h g = omega (arith, h, g)

whole_part : (m n : ℕ) → 1 ≤ m → m ≤ n → 1 ≤ n / 1
whole_part m n h g = omega (arith, h, g)

halved : (m n : ℕ) → m + m ≤ n → m ≤ n / 2
halved m n h = omega (arith, h)

twice-≤ : (m t p : ℕ) → m ≤ t * p → m + m ≤ t * (p + p)
twice-≤ m t p h = grind (arith, h)

≤-twice : (t p n : ℕ) → t * p ≤ n / 2 → t * (p + p) ≤ n
≤-twice t p n h = grind (arith, h)

times_mono : (t u p : ℕ) → t ≤ u → t * p ≤ u * p
times_mono t u p h = mul-le-mul_right p h

-- Between a power of two and a number above it lies a multiple of any other power below it.
multiple : (c k n : ℕ) → 2 ^ c ≤ n → 2 ^ k ≤ n → (t : ℕ) × (2 ^ c ≤ t * 2 ^ k) × (t * 2 ^ k ≤ n)
multiple zero k n h g = (1, omega (arith, one-le-pow k 2 (omega arith)), omega (arith, g))
multiple (suc c) zero n h g = (2 ^ suc c, omega arith, omega (arith, h))
multiple (suc c) (suc k) n h g =
    let (t, low, high) =
      multiple c k (n / 2) (halved (2 ^ c) n (subst (λ p. p ≤ n) (two-pow-succ c) h))
        (halved (2 ^ k) n (subst (λ p. p ≤ n) (two-pow-succ k) g)) in
    (
      t,
      rw (two-pow-succ c, two-pow-succ k) (twice-≤ (2 ^ c) t (2 ^ k) low),
      rw (two-pow-succ k) (≤-twice t (2 ^ k) n high),
    )

pow_floor : (c k n : ℕ) → 2 ^ c ≤ n → 2 ^ k ≤ n → 2 ^ c ≤ (n / 2 ^ k) * 2 ^ k
pow_floor c k n h g =
    let (t, low, high) = multiple c k n h g in
    let fits : t ≤ n / 2 ^ k = (le-div_iff_mul-le (one-le-pow k 2 (omega arith))).1 high in
    grind (arith, low, times_mono t (n / 2 ^ k) (2 ^ k) fits)

or_infinity-at_least_one : (v : ℕ) → scale ≤ v → at_least_one (or_infinity v) ≡ true
or_infinity-at_least_one v h = elim (Bool-cases (ltb v (2 ^ 2098))) [
  | inl e ↦ rw e (ground (arith, h))
  | inr e ↦ rw e refl
]

stepped : (n k : ℕ) → scale ≤ n → 2 ^ k ≤ n → scale ≤ nearest n (1 * 2 ^ k) * 2 ^ k
stepped n k h g =
    rw (one-mul (2 ^ k))
      (climb _ _ _ (pow_floor 1074 k n h g) (times_mono _ _ (2 ^ k) (nearest-above n (2 ^ k))))

-- What is at least 1.0 stays so when it is rounded.
pub rounded-at_least_one : (n : ℕ) → scale ≤ n → at_least_one (rounded n 1) ≡ true
unfolding rounded excess
rounded-at_least_one n h = or_infinity-at_least_one _ (
    stepped n (excess (n / 1)) h (
      climb _ _ _
        (pow_excess_from-le (n / 1) (n / 1)
          (whole_part scale n (one-le-pow 1074 2 (omega arith)) h))
        (div-le_self n 1)))
