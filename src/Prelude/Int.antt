-- ===== src/Prelude/Int.antt =====
-- Signed integers over the native numbers, under the library's names.
use Prim.Native.Nat.{ℕ, suc, ◌+◌, ◌-◌, ◌%◌, ◌^◌, ◌≤◌}
use mathlib.Core.Path.{◌≡◌}
use mathlib.Core.Bool.{Bool}
use native.Mathlib.Omega.{arith}
use exalsius_operator.Prelude.Tests.{ltb, leb, if◌then◌else◌}

-- `negsuc n` is -(n + 1).
pub data ℤ : Type 0 where
  pos : ℕ → ℤ
  negsuc : ℕ → ℤ

abbrev pub pos_part : ℤ → ℕ
pos_part (pos n) = n
pos_part (negsuc n) = 0

abbrev pub neg_part : ℤ → ℕ
neg_part (pos n) = 0
neg_part (negsuc n) = suc n

-- a - b, as an integer.
abbrev pub sub_ℕ : ℕ → ℕ → ℤ
sub_ℕ a b = if leb b a then pos (a - b) else negsuc (b - a - 1)

infixl 65 ◌+ℤ◌ ◌-ℤ◌
infix 50 ◌≤ℤ◌
unfoldable pub ◌+ℤ◌ : ℤ → ℤ → ℤ
a +ℤ b = sub_ℕ (pos_part a + pos_part b) (neg_part a + neg_part b)

unfoldable pub ◌-ℤ◌ : ℤ → ℤ → ℤ
a -ℤ b = sub_ℕ (pos_part a + neg_part b) (neg_part a + pos_part b)

abbrev pub ◌≤ℤ◌ : ℤ → ℤ → Type 0
a ≤ℤ b = pos_part a + neg_part b ≤ pos_part b + neg_part a

abbrev pub ltb_ℤ : ℤ → ℤ → Bool
ltb_ℤ a b = ltb (pos_part a + neg_part b) (pos_part b + neg_part a)

pub +ℤ_parts :
    (a b : ℤ)
    → pos_part (a +ℤ b) + neg_part a + neg_part b ≡ neg_part (a +ℤ b) + pos_part a + pos_part b
unfolding ◌+ℤ◌
+ℤ_parts a b = ground arith

pub -ℤ_parts :
    (a b : ℤ)
    → pos_part (a -ℤ b) + neg_part a + pos_part b ≡ neg_part (a -ℤ b) + pos_part a + neg_part b
unfolding ◌-ℤ◌
-ℤ_parts a b = ground arith

pub eq_of_parts : (a b : ℤ) → pos_part a + neg_part b ≡ pos_part b + neg_part a → a ≡ b
eq_of_parts a b h = ground arith

pub ruleset int_laws = (arith, +ℤ_parts, -ℤ_parts, eq_of_parts)

-- The int32 with the low 32 bits `r`.
abbrev pub of_low_bits : ℕ → ℤ
of_low_bits r = if ltb r (2 ^ 31) then pos r else negsuc (2 ^ 32 - r - 1)

-- `int32(a)`: the low 32 bits, read as a signed number.
unfoldable pub to_int32 : ℤ → ℤ
to_int32 (pos n) = of_low_bits (n % 2 ^ 32)
to_int32 (negsuc n) = of_low_bits (2 ^ 32 - 1 - n % 2 ^ 32)

pub to_int32_small : (n : ℕ) → suc n ≤ 2 ^ 31 → to_int32 (pos n) ≡ pos n
unfolding to_int32
to_int32_small n h = ground arith

-- The int64 with the low 64 bits `r`, and `int64(a)` of a product that is not negative.
unfoldable pub to_int64 : ℕ → ℤ
to_int64 n = let r = n % 2 ^ 64 in if ltb r (2 ^ 63) then pos r else negsuc (2 ^ 64 - r - 1)

pub to_int64_small : (n : ℕ) → suc n ≤ 2 ^ 63 → to_int64 n ≡ pos n
unfolding to_int64
to_int64_small n h = ground arith

pub +ℤ_pos : (a : ℤ) (m n : ℕ) → a +ℤ pos m +ℤ pos n ≡ a +ℤ pos (m + n)
+ℤ_pos a m n = omega int_laws

pub -ℤ_pos : (a : ℤ) (m n : ℕ) → a -ℤ pos m -ℤ pos n ≡ a -ℤ pos (m + n)
-ℤ_pos a m n = omega int_laws

pub +ℤ_zero : (a : ℤ) → a +ℤ pos 0 ≡ a
+ℤ_zero a = omega int_laws

pub -ℤ_zero : (a : ℤ) → a -ℤ pos 0 ≡ a
-ℤ_zero a = omega int_laws
