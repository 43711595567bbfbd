-- ===== src/Common/Int.antt =====
-- Signed integers over the native numbers, under the library's names, and the 64-bit reading of
-- them: a Go `int` or `int64` is an integer, and each operation that can pass its range wraps.
use Prim.Native.Nat.{ℕ, suc, ◌+◌, ◌-◌, ◌*◌, ◌/◌, ◌%◌, ◌^◌, ◌<◌}
use mathlib.Core.Path.{◌≡◌}
use mathlib.Core.Bool.{Bool}
use native.Mathlib.Omega.{arith}
use native.Mathlib.Nat.{mod-eq_of_lt}
use edgedelta_lambda_extensi.Common.Tests.{ltb, leb, if◌then◌else◌}

-- `negsuc n` is -(n + 1).
pub data ℤ : Type 0 where
  pos : ℕ → ℤ
  negsuc : ℕ → ℤ

abbrev pub pos_part : ℤ → ℕ
pos_part (pos n) = n
pos_part (negsuc n) = 0

abbrev pub neg_part : ℤ → ℕ
neg_part (pos n) = 0
neg_part (negsuc n) = suc n

-- a - b, as an integer.
abbrev pub sub_ℕ : ℕ → ℕ → ℤ
sub_ℕ a b = if leb b a then pos (a - b) else negsuc (b - a - 1)

infixl 65 ◌-ℤ◌
unfoldable pub ◌-ℤ◌ : ℤ → ℤ → ℤ
a -ℤ b = sub_ℕ (pos_part a + neg_part b) (neg_part a + pos_part b)

abbrev pub ltb_ℤ : ℤ → ℤ → Bool
ltb_ℤ a b = ltb (pos_part a + neg_part b) (pos_part b + neg_part a)

-- The bits of an integer in two's complement, at a width given by its modulus.
abbrev pub residue : ℕ → ℤ → ℕ
residue m (pos n) = n % m
residue m (negsuc n) = m - 1 - n % m

-- The signed value of 64 bits.
abbrev pub signed64 : ℕ → ℤ
signed64 n = if ltb n (2 ^ 63) then pos n else negsuc (2 ^ 64 - 1 - n)

-- An `int64` product by a constant.
unfoldable pub mul_int64 : ℤ → ℕ → ℤ
mul_int64 a k = signed64 ((residue (2 ^ 64) a * k) % 2 ^ 64)

-- `uint32(a)`.
unfoldable pub uint32 : ℤ → ℕ
uint32 a = residue (2 ^ 32) a

-- `a / k`, which Go rounds towards zero.
unfoldable pub quot_ℤ : ℤ → ℕ → ℤ
quot_ℤ (pos n) k = pos (n / k)
quot_ℤ (negsuc n) k = sub_ℕ 0 (suc n / k)

-- A product that fits is exact.
pub mul_int64_exact : (n k : ℕ) → n < 2 ^ 64 → n * k < 2 ^ 63 → mul_int64 (pos n) k ≡ pos (n * k)
unfolding mul_int64
mul_int64_exact n k h' h =
    let e : n % 2 ^ 64 ≡ n = mod-eq_of_lt h' in
    let e' : (n * k) % 2 ^ 64 ≡ n * k = omega arith in rw (e, e') (ground arith)
