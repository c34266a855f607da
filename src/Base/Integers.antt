-- ===== src/Base/Integers.antt =====
-- Integers over the native numbers, as far as counts that rise and fall by one need them.
use Prim.Native.Nat.{ℕ, zero, suc}
use mathlib.Core.Bool.{Bool, true, false}
use libranet.Base.Tests.{ltb}

-- `negsuc n` is `-(n + 1)`.
pub data ℤ : Type 0 where
  pos negsuc : ℕ → ℤ

abbrev pub increment : ℤ → ℤ
increment (pos n) = pos (suc n)
increment (negsuc zero) = pos 0
increment (negsuc (suc n)) = negsuc n

abbrev pub decrement : ℤ → ℤ
decrement (pos zero) = negsuc 0
decrement (pos (suc n)) = pos n
decrement (negsuc n) = negsuc (suc n)

-- Whether `n > 0`.
abbrev pub is_positive : ℤ → Bool
is_positive (pos zero) = false
is_positive (pos (suc n)) = true
is_positive (negsuc n) = false

-- Whether `a > b`.
abbrev pub gtℤ : ℤ → ℤ → Bool
gtℤ (pos a) (pos b) = ltb b a
gtℤ (pos a) (negsuc b) = true
gtℤ (negsuc a) (pos b) = false
gtℤ (negsuc a) (negsuc b) = ltb a b
