-- ===== src/Base/Int.antt =====
-- Signed integers over the native numbers, for `long` and `long long`.
use Prim.Native.Nat.{ℕ, suc, ◌+◌, ◌-◌, ◌*◌, ◌%◌, ◌^◌, ◌≤◌}
use mathlib.Core.Path.{◌≡◌}
use mathlib.Core.Logic.{◌↔◌}
use mathlib.Core.Bool.{Bool, true, false}
use native.Mathlib.Omega.{arith}
use red_opt.Base.Tests.{ltb, ◌==◌, if◌then◌else◌}

-- `negsuc n` is -(n + 1).
pub data ℤ : Type 0 where
  pos : ℕ → ℤ
  negsuc : ℕ → ℤ

abbrev pub pos_part : ℤ → ℕ
pos_part (pos n) = n
pos_part (negsuc n) = 0

abbrev pub neg_part : ℤ → ℕ
neg_part (pos n) = 0
neg_part (negsuc n) = suc n

infix 50 ◌≤ℤ◌
abbrev pub ◌≤ℤ◌ : ℤ → ℤ → Type 0
a ≤ℤ b = pos_part a + neg_part b ≤ pos_part b + neg_part a

abbrev pub ltb_ℤ : ℤ → ℤ → Bool
ltb_ℤ a b = ltb (pos_part a + neg_part b) (pos_part b + neg_part a)

unfoldable pub eq_ℤ : ℤ → ℤ → Bool
eq_ℤ (pos a) (pos b) = a == b
eq_ℤ (pos a) (negsuc b) = false
eq_ℤ (negsuc a) (pos b) = false
eq_ℤ (negsuc a) (negsuc b) = a == b

pub eq_ℤ_iff : (a b : ℤ) → (eq_ℤ a b ≡ true) ↔ (a ≡ b)
unfolding eq_ℤ
eq_ℤ_iff (pos a) (pos b) = (λ h. ground arith, λ h. ground arith)
eq_ℤ_iff (pos a) (negsuc b) = (λ h. ground arith, λ h. ground arith)
eq_ℤ_iff (negsuc a) (pos b) = (λ h. ground arith, λ h. ground arith)
eq_ℤ_iff (negsuc a) (negsuc b) = (λ h. ground arith, λ h. ground arith)

-- The number that a pattern of `2 * half` values stands for, in two's complement.
abbrev pub signed : ℕ → ℕ → ℤ
signed half w = if ltb w half then pos w else negsuc (2 * half - 1 - w)

-- The pattern of 64 bits of a number.
abbrev pub bits64 : ℤ → ℕ
bits64 (pos n) = n % 2 ^ 64
bits64 (negsuc n) = 2 ^ 64 - 1 - n % 2 ^ 64

abbrev pub long_min : ℤ
long_min = negsuc (2 ^ 63 - 1)

abbrev pub long_max : ℤ
long_max = pos (2 ^ 63 - 1)

-- The range of `long` and `long long`.
abbrev pub IsLong : ℤ → Type 0
IsLong v = (long_min ≤ℤ v) × (v ≤ℤ long_max)
