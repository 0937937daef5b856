-- ===== src/Common/Decimal.antt =====
-- Numbers in text and parts of text, as Go's `strconv` and `strings` read them, and
-- numbers as `fmt` prints them.
use Prim.Native.Nat.{ℕ, zero, suc, ◌+◌, ◌-◌, ◌*◌, ◌/◌, ◌%◌, ◌^◌}
use Prim.Native.String.{String}
use Prim.Native.Char.{code}
use mathlib.Core.Bool.{◌&&◌}
use mathlib.Core.Option.{Option, none, some}
use mathlib.Core.List.{List, [], ◌∷◌}
use chat_wire.Common.Keys.{Bytes}
use chat_wire.Common.Tests.{if◌then◌else◌, ltb, leb, ◌==◌}

-- The bytes of an ASCII text.
abbrev pub text : String → Bytes
text String.[] = []
text (String.◌∷◌ c s) = code c ∷ text s

-- `strings.Split` at a byte.
abbrev pub push : ℕ → List Bytes → List Bytes
push c [] = (c ∷ []) ∷ []
push c (p ∷ ps) = (c ∷ p) ∷ ps

unfoldable pub split : ℕ → Bytes → List Bytes
split sep [] = [] ∷ []
split sep (c ∷ s) = let rest = split sep s in if c == sep then [] ∷ rest else push c rest

-- A sequence of decimal digits.
unfoldable pub numeral : ℕ → Bytes → Option ℕ
numeral n [] = some n
numeral n (c ∷ s) =
    let rest = numeral (10 * n + (c - 48)) s in if leb 48 c && leb c 57 then rest else none

abbrev pub digits : Bytes → Option ℕ
digits [] = none
digits (c ∷ s) = numeral 0 (c ∷ s)

-- `strconv.ParseUint` in base 10 for 64 bits.
abbrev pub as_uint64 : Option ℕ → Option ℕ
as_uint64 none = none
as_uint64 (some n) = if ltb n (2 ^ 64) then some n else none

unfoldable pub parse_uint : Bytes → Option ℕ
unfolding numeral
parse_uint s = as_uint64 (digits s)

-- A number in decimal before a text, with as many digits as there are at most.
unfoldable pub decimal : ℕ → ℕ → Bytes → Bytes
decimal zero n s = s
decimal (suc most) n s =
    let s' = (48 + n % 10) ∷ s in
    let longer = decimal most (n / 10) s' in if n / 10 == 0 then s' else longer
