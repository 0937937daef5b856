-- ===== src/Common/Crc.antt =====
-- Go's `hash/crc32`, bit by bit on a uint32, by the polynomial in its reversed form.
use Prim.Native.Nat.{ℕ, zero, suc, ◌-◌, ◌/◌, ◌%◌, ◌^◌, ◌<◌, bit_xor}
use mathlib.Core.List.{[], ◌∷◌}
use native.Mathlib.Omega.{arith}
use chat_wire.Common.Tests.{◌==◌, if◌then◌else◌}
use chat_wire.Common.Keys.{Bytes}

unfoldable pub crc_bits : ℕ → ℕ → ℕ → ℕ
crc_bits poly zero c = c
crc_bits poly (suc n) c = crc_bits poly n (if c % 2 == 1 then bit_xor (c / 2) poly else c / 2)

unfoldable pub crc_update : ℕ → ℕ → Bytes → ℕ
unfolding crc_bits
crc_update poly c [] = c
crc_update poly c (b ∷ bs) = crc_update poly (crc_bits poly 8 (bit_xor c b)) bs

unfoldable pub crc : ℕ → Bytes → ℕ
unfolding crc_update
crc poly bs = bit_xor (crc_update poly (2 ^ 32 - 1) bs) (2 ^ 32 - 1) % 2 ^ 32

pub crc_lt : (poly : ℕ) (bs : Bytes) → crc poly bs < 256 ^ 4
unfolding crc
crc_lt poly bs = ground arith

-- The polynomials of `crc32.MakeTable(crc32.Castagnoli)` and of `crc32.ChecksumIEEE`.
abbrev pub castagnoli : ℕ
castagnoli = 2197175160

abbrev pub ieee : ℕ
ieee = 3988292384
