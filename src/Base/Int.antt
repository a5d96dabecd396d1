-- ===== src/Base/Int.antt =====
-- Signed integers over the native numbers, and the wrap-around of Go's int64.
use Prim.Native.Nat.{ℕ, suc, ◌+◌, ◌-◌, ◌/◌, ◌%◌, ◌^◌, ◌<◌}
use mathlib.Core.Path.{◌≡◌}
use mathlib.Core.Bool.{Bool}
use native.Mathlib.Omega.{arith}
use usbd.Base.Tests.{ltb, leb, if◌then◌else◌}

-- `negsuc n` is -(n + 1).
pub data ℤ : Type 0 where
  pos : ℕ → ℤ
  negsuc : ℕ → ℤ

abbrev pub pos_part : ℤ → ℕ
pos_part (pos n) = n
pos_part (negsuc n) = 0

abbrev pub neg_part : ℤ → ℕ
neg_part (pos n) = 0
neg_part (negsuc n) = suc n

-- a - b, as an integer.
abbrev pub sub_ℕ : ℕ → ℕ → ℤ
sub_ℕ a b = if leb b a then pos (a - b) else negsuc (b - a - 1)

infixl 65 ◌+ℤ◌
unfoldable pub ◌+ℤ◌ : ℤ → ℤ → ℤ
a +ℤ b = sub_ℕ (pos_part a + pos_part b) (neg_part a + neg_part b)

abbrev pub ltb_ℤ : ℤ → ℤ → Bool
ltb_ℤ a b = ltb (pos_part a + neg_part b) (pos_part b + neg_part a)

-- Conversion to int64: the value modulo 2 ^ 64, read in two's complement.
unfoldable pub int64 : ℤ → ℤ
int64 (pos n) = let m = n % 2 ^ 64 in if ltb m (2 ^ 63) then pos m else negsuc (2 ^ 64 - m - 1)
int64 (negsuc n) = let m = n % 2 ^ 64 in if ltb m (2 ^ 63) then negsuc m else pos (2 ^ 64 - m - 1)

-- The conversion back to uint64.
unfoldable pub uint64 : ℤ → ℕ
uint64 (pos n) = n % 2 ^ 64
uint64 (negsuc n) = 2 ^ 64 - 1 - n % 2 ^ 64

-- Go's `a + b` on int64.
unfoldable pub add64 : ℤ → ℤ → ℤ
unfolding int64 ◌+ℤ◌
add64 a b = int64 (a +ℤ b)

-- Go's `/` and `%` truncate toward zero: the quotient is negated, the remainder has the sign of
-- the dividend. The divisor is positive.
abbrev pub neg_ℕ : ℕ → ℤ
neg_ℕ n = sub_ℕ 0 n

unfoldable pub div_ℤ : ℤ → ℕ → ℤ
div_ℤ (pos n) d = pos (n / d)
div_ℤ (negsuc n) d = neg_ℕ (suc n / d)

unfoldable pub mod_ℤ : ℤ → ℕ → ℤ
mod_ℤ (pos n) d = pos (n % d)
mod_ℤ (negsuc n) d = neg_ℕ (suc n % d)

pub data IsInt64 : ℤ → Type 0 where
  non_negative : {n : ℕ} → n < 2 ^ 63 → IsInt64 (pos n)
  negative : {n : ℕ} → n < 2 ^ 63 → IsInt64 (negsuc n)

-- The round trip through uint64 keeps every int64.
pub int64-uint64 : (z : ℤ) → IsInt64 z → int64 (pos (uint64 z)) ≡ z
unfolding int64 uint64
int64-uint64 (pos n) (non_negative h) = ground arith
int64-uint64 (negsuc n) (negative h) = ground arith

pub uint64-lt : (z : ℤ) → uint64 z < 2 ^ 64
unfolding uint64
uint64-lt (pos n) = omega arith
uint64-lt (negsuc n) = omega arith

pub add64_pos : (a b : ℕ) → a + b < 2 ^ 63 → add64 (pos a) (pos b) ≡ pos (a + b)
unfolding add64
add64_pos a b h = ground arith
