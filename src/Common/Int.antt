-- ===== src/Common/Int.antt =====
-- Signed integers over the native numbers: tests, sums and differences, and two's complement.
use Prim.Native.Nat.{ℕ, suc, ◌+◌, ◌-◌, ◌<◌}
use mathlib.Core.Path.{◌≡◌}
use mathlib.Core.Logic.{◌↔◌}
use mathlib.Core.Bool.{Bool, true, false}
use native.Mathlib.Omega.{arith}
use chat_wire.Common.Tests.{ltb, leb, ◌==◌, if◌then◌else◌}

-- `negsuc n` is -(n + 1).
pub data ℤ : Type 0 where
  pos : ℕ → ℤ
  negsuc : ℕ → ℤ

abbrev pub zero_ℤ : ℤ
zero_ℤ = pos 0

-- `a == b` and `a < b`.
abbrev pub beq_ℤ : ℤ → ℤ → Bool
beq_ℤ (pos m) (pos n) = m == n
beq_ℤ (negsuc m) (negsuc n) = m == n
beq_ℤ _ _ = false

pub beq_ℤ_iff : (a b : ℤ) → (beq_ℤ a b ≡ true) ↔ (a ≡ b)
beq_ℤ_iff (pos m) (pos n) = ground arith
beq_ℤ_iff (pos m) (negsuc n) = ground arith
beq_ℤ_iff (negsuc m) (pos n) = ground arith
beq_ℤ_iff (negsuc m) (negsuc n) = ground arith

abbrev pub ltb_ℤ : ℤ → ℤ → Bool
ltb_ℤ (pos m) (pos n) = ltb m n
ltb_ℤ (pos m) (negsuc n) = false
ltb_ℤ (negsuc m) (pos n) = true
ltb_ℤ (negsuc m) (negsuc n) = ltb n m

abbrev pub pos_part : ℤ → ℕ
pos_part (pos n) = n
pos_part (negsuc n) = 0

abbrev pub neg_part : ℤ → ℕ
neg_part (pos n) = 0
neg_part (negsuc n) = suc n

-- a - b, as an integer.
abbrev pub sub_ℕ : ℕ → ℕ → ℤ
sub_ℕ a b = if leb b a then pos (a - b) else negsuc (b - a - 1)

infixl 65 ◌+ℤ◌ ◌-ℤ◌
unfoldable pub ◌+ℤ◌ : ℤ → ℤ → ℤ
a +ℤ b = sub_ℕ (pos_part a + pos_part b) (neg_part a + neg_part b)

unfoldable pub ◌-ℤ◌ : ℤ → ℤ → ℤ
a -ℤ b = sub_ℕ (pos_part a + neg_part b) (neg_part a + pos_part b)

pub add-sub_ℤ : (a b : ℤ) → a +ℤ (b -ℤ a) ≡ b
unfolding ◌+ℤ◌ ◌-ℤ◌
add-sub_ℤ a b = ground arith

-- A signed number of `w` + 1 bits as the number of its bits, and back.
abbrev pub SignedBelow : ℕ → ℤ → Type 0
SignedBelow m (pos n) = n < m
SignedBelow m (negsuc n) = n < m

unfoldable pub to_bits : ℕ → ℤ → ℕ
to_bits m (pos n) = n
to_bits m (negsuc n) = m + m - n - 1

unfoldable pub of_bits : ℕ → ℕ → ℤ
of_bits m u = if ltb u m then pos u else negsuc (m + m - u - 1)

pub of-to_bits : (m : ℕ) (z : ℤ) → SignedBelow m z → of_bits m (to_bits m z) ≡ z
unfolding of_bits to_bits
of-to_bits m (pos n) h = ground arith
of-to_bits m (negsuc n) h = ground arith

pub to_bits_lt : (m : ℕ) (z : ℤ) → SignedBelow m z → to_bits m z < m + m
unfolding to_bits
to_bits_lt m (pos n) h = omega arith
to_bits_lt m (negsuc n) h = omega arith
