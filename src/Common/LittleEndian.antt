-- ===== src/Common/LittleEndian.antt =====
-- Go's `binary.LittleEndian` on a number of bytes, and its round trip.
use Prim.Native.Nat.{ℕ, zero, suc, ◌+◌, ◌*◌, ◌/◌, ◌%◌, ◌^◌, ◌<◌}
use mathlib.Core.Path.{◌≡◌}
use mathlib.Core.List.{[], ◌∷◌}
use native.Mathlib.Omega.{arith}
use native.Mathlib.Nat.{div-add-mod}
use chat_wire.Common.Keys.{Bytes}
use chat_wire.Common.Lists.{length}

unfoldable pub put_uint : ℕ → ℕ → Bytes
put_uint zero v = []
put_uint (suc n) v = v % 256 ∷ put_uint n (v / 256)

unfoldable pub get_uint : Bytes → ℕ
get_uint [] = 0
get_uint (b ∷ bs) = b + 256 * get_uint bs

pub get-put_uint : (n v : ℕ) → v < 256 ^ n → get_uint (put_uint n v) ≡ v
unfolding get_uint put_uint
get-put_uint zero v h = ground arith
get-put_uint (suc n) v h = omega (arith, get-put_uint n (v / 256) (omega arith), div-add-mod v 256)

pub length-put_uint : (n v : ℕ) → length (put_uint n v) ≡ n
unfolding put_uint
length-put_uint zero v = omega arith
length-put_uint (suc n) v = omega (arith, length-put_uint n (v / 256))
