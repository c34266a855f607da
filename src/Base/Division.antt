-- ===== src/Base/Division.antt =====
-- Python's floor division of negative numbers, written over the native numbers.
use Prim.Native.Nat.{ℕ, ◌+◌, ◌-◌, ◌*◌, ◌/◌, ◌≤◌, ◌<◌}
use native.Mathlib.Nat.{
  div-mul-le_self, lt-div-mul-add, div-lt_iff_lt-mul, le-mul_of_pos_right, le-div_iff_mul-le,
}
use native.Mathlib.Omega.{arith}

-- `-(-n // d)`, where `d` is positive: the quotient rounded up.
unfoldable pub ceil_div : ℕ → ℕ → ℕ
ceil_div n d = (n + d - 1) / d

pub ceil_div_bounds : (n d : ℕ) → 0 < d → (n ≤ ceil_div n d * d) × (ceil_div n d * d < n + d)
unfolding ceil_div
ceil_div_bounds n d h = (
  omega (arith, lt-div-mul-add {a = n + d - 1} {b = d} h),
  omega (arith, div-mul-le_self (n + d - 1) d),
)

pub ceil_div-le_self : (n d : ℕ) → 0 < d → ceil_div n d ≤ n
unfolding ceil_div
ceil_div-le_self n d h = omega (
  arith,
  (div-lt_iff_lt-mul {k = d} {x = n + d - 1} {y = n + 1} h).1
      (omega (arith, le-mul_of_pos_right n h)),
)

pub div-le-div : (m n k : ℕ) → 0 < k → m ≤ n → m / k ≤ n / k
div-le-div m n k h l =
    (le-div_iff_mul-le {k = k} {x = m / k} {y = n} h).1 (omega (arith, div-mul-le_self m k))
