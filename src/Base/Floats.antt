-- ===== src/Base/Floats.antt =====
-- Whole numbers as Python's floats hold them: 53 bits, the rest rounded to the nearest, and of two
-- as near to the even one. Numbers below 2 ^ 1024 are held; the amounts that the source makes
-- floats of are far below it.
use Prim.Native.Nat.{ℕ, zero, suc, ◌+◌, ◌*◌, ◌/◌, ◌%◌, ◌^◌, ◌≤◌}
use mathlib.Core.Path.{◌≡◌}
use mathlib.Core.Bool.{true, false}
use native.Mathlib.Omega.{arith}
use libranet.Base.Tests.{ltb, leb, if◌then◌else◌}

-- How often a number is halved before it fits in 53 bits: at most 971 times, below 2 ^ 1024.
unfoldable pub halvings : ℕ → ℕ → ℕ
halvings zero n = 0
halvings (suc fuel) n = elim (ltb n (2 ^ 53)) [ true ↦ 0 | false ↦ suc (halvings fuel (n / 2)) ]

-- The multiple of `unit` nearest to `n`, and of two as near the even one.
abbrev pub round_to : ℕ → ℕ → ℕ
round_to unit n =
    let q : ℕ = n / unit in if leb (2 * (n % unit) + q % 2) unit then q * unit else (q + 1) * unit

unfoldable pub float_of : ℕ → ℕ
float_of n = if leb n (2 ^ 53) then n else round_to (2 ^ halvings 971 n) n

-- What fits in 53 bits is not rounded.
pub float_of-exact : (n : ℕ) → n ≤ 2 ^ 53 → float_of n ≡ n
unfolding float_of
float_of-exact n h = ground arith
