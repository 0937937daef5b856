-- ===== src/PlayerDb/Varint.antt =====
-- The variable-length integers that fact/playerdb_codec.go takes from Go's encoding/binary, with the
-- bit operations written in arithmetic, and the reader that turns their sizes into errors.
use chat_wire.Common.{
  ℕ, zero, suc, ◌+◌, ◌*◌, ◌/◌, ◌%◌, ◌^◌, ◌<◌, ◌≡◌, refl, ap, ◌∙◌, true, false, ◌&&◌, ltb, ◌==◌,
  if◌then◌else◌, [], ◌∷◌, ◌++◌, arith, Bytes, length, length-append,
}
use mathlib.Core.List.{append_assoc}
use native.Mathlib.Nat.{div-add-mod}
use native.Mathlib.Numerals.{towards_suc}
use chat_wire.Common.Result.{Result, ok, err, ◌>>=◌}
use chat_wire.PlayerDb.Data.{ℤ, pos, negsuc, IsInt64, unexpected_end, integer_overflow, CodecError}

-- `AppendUvarint` on a value with at most `k` further groups of seven bits.
unfoldable pub uvarint_groups : ℕ → ℕ → Bytes
uvarint_groups zero v = v ∷ []
uvarint_groups (suc k) v =
    let rest = uvarint_groups k (v / 128) in if ltb v 128 then v ∷ [] else (v % 128 + 128) ∷ rest

-- A uint64 has ten groups at most.
unfoldable pub append_uvarint : Bytes → ℕ → Bytes
unfolding uvarint_groups
append_uvarint dst v = dst ++ uvarint_groups 9 v

-- `Uvarint`: a size of 0 is `unexpected_end` and a negative one `integer_overflow`, as
-- `playerDBReader.uvarint` reports them; else the value and the bytes behind it.
pub uvarint_loop : Bytes → ℕ → ℕ → Result CodecError (ℕ × Bytes)
uvarint_loop [] i x = err unexpected_end
uvarint_loop (b ∷ bs) i x =
    let more = uvarint_loop bs (i + 1) (x + b % 128 * 2 ^ (7 * i)) in
    if i == 10
    then err integer_overflow
    else if ltb b 128
    then (if i == 9 && ltb 1 b then err integer_overflow else ok (x + b * 2 ^ (7 * i), bs))
    else more

-- `playerDBReader.uvarint`.
pub read_uvarint : Bytes → Result CodecError (ℕ × Bytes)
unfolding uvarint_loop
read_uvarint bs = uvarint_loop bs 0 0

-- The zigzag of `AppendVarint` and `Varint`.
pub to_unsigned : ℤ → ℕ
to_unsigned (pos n) = 2 * n
to_unsigned (negsuc n) = 2 * n + 1

pub to_signed : ℕ → ℤ
to_signed u = if u % 2 == 0 then pos (u / 2) else negsuc (u / 2)

unfoldable pub append_varint : Bytes → ℤ → Bytes
unfolding append_uvarint to_unsigned
append_varint dst z = append_uvarint dst (to_unsigned z)

-- `playerDBReader.varint`.
pub read_varint : Bytes → Result CodecError (ℤ × Bytes)
unfolding read_uvarint to_signed
read_varint bs = do (u, rest) ← read_uvarint bs; ok (to_signed u, rest)

shift_seven : (s : ℕ) → 2 ^ (s + 7) ≡ 128 * 2 ^ s
shift_seven s = simp towards_suc (omega arith)

next_shift : (i : ℕ) → 2 ^ (7 * (i + 1)) ≡ 128 * 2 ^ (7 * i)
next_shift i = ap (λ (e : ℕ). 2 ^ e) (omega arith) ∙ shift_seven (7 * i)

split_group :
    (v i x : ℕ) → x + v % 128 * 2 ^ (7 * i) + v / 128 * 2 ^ (7 * (i + 1)) ≡ x + v * 2 ^ (7 * i)
split_group v i x = omega (
  arith,
  ap (λ (t : ℕ). t * 2 ^ (7 * i)) (div-add-mod v 128),
  ap (λ (t : ℕ). v / 128 * t) (next_shift i),
)

uvarint_loop-groups :
    (k i v x : ℕ) (rest : Bytes)
    → k + i ≡ 9
    → v < 2 * 128 ^ k
    → uvarint_loop (uvarint_groups k v ++ rest) i x ≡ ok (x + v * 2 ^ (7 * i), rest)
unfolding uvarint_loop uvarint_groups
uvarint_loop-groups zero i v x rest e h = ground arith
uvarint_loop-groups (suc k) i v x rest e h = ground (
  arith,
  split_group v i x,
  uvarint_loop-groups k (i + 1) (v / 128) (x + v % 128 * 2 ^ (7 * i)) rest (omega arith)
      (omega arith),
)

-- A uint64 is read back, and what follows it is left.
pub read-append_uvarint :
    (v : ℕ) (rest : Bytes) → v < 2 ^ 64 → read_uvarint (append_uvarint [] v ++ rest) ≡ ok (v, rest)
unfolding read_uvarint append_uvarint
read-append_uvarint v rest h = uvarint_loop-groups 9 0 v 0 rest refl h ∙ ground arith

if_even : (n : ℕ) → (2 * n % 2 == 0) ≡ true
if_even n = ground arith

if_odd : (n : ℕ) → ((2 * n + 1) % 2 == 0) ≡ false
if_odd n = ground arith

pub to_signed-to_unsigned : (z : ℤ) → to_signed (to_unsigned z) ≡ z
unfolding to_signed to_unsigned
to_signed-to_unsigned (pos n) = rw (if_even n) (ap pos (omega arith))
to_signed-to_unsigned (negsuc n) = rw (if_odd n) (ap negsuc (omega arith))

-- An int64 is read back.
pub read-append_varint :
    (z : ℤ) (rest : Bytes) → IsInt64 z → read_varint (append_varint [] z ++ rest) ≡ ok (z, rest)
unfolding read_varint append_varint to_unsigned
read-append_varint z rest h =
    ground (arith, to_signed-to_unsigned z, read-append_uvarint (to_unsigned z) rest)

-- What is appended does not depend on what stands before it.
pub append_uvarint-onto :
    (dst : Bytes) (v : ℕ) (rest : Bytes)
    → append_uvarint dst v ++ rest ≡ dst ++ (append_uvarint [] v ++ rest)
unfolding append_uvarint
append_uvarint-onto dst v rest = append_assoc dst (uvarint_groups 9 v) rest

pub append_varint-onto :
    (dst : Bytes) (z : ℤ) (rest : Bytes)
    → append_varint dst z ++ rest ≡ dst ++ (append_varint [] z ++ rest)
unfolding append_varint
append_varint-onto dst z rest = append_uvarint-onto dst (to_unsigned z) rest

-- A number takes a byte at least.
pub append_uvarint-length :
    (v : ℕ) (rest : Bytes) → length rest < length (append_uvarint [] v ++ rest)
unfolding append_uvarint uvarint_groups
append_uvarint-length v rest = ground (arith, length-append (uvarint_groups 9 v) rest)

pub append_varint-length :
    (z : ℤ) (rest : Bytes) → length rest < length (append_varint [] z ++ rest)
unfolding append_varint
append_varint-length z rest = append_uvarint-length (to_unsigned z) rest
