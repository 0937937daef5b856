-- ===== src/MapExchange/Reader.antt =====
-- `mapExchangeParser` of fact/mapExchange.go. The first error stays, and a reader that meets an error
-- gives the zero value: the readers go on, and the error is looked at in the end.
use chat_wire.Common.{
  ℕ, zero, suc, Bool, not, ltb, ◌==◌, Option, none, some, List, [], ◌∷◌, ◌++◌, if◌then◌else◌, Bytes,
  bytes_eq, length, take, drop, ◌%◌, ◌^◌,
}
use chat_wire.Common.Int.{ℤ, pos, zero_ℤ, beq_ℤ, ◌+ℤ◌, of_bits}
use chat_wire.Common.LittleEndian.{get_uint}
use chat_wire.Common.Assoc.{Assoc, erase}
use chat_wire.MapExchange.Format.{
  Format, flag, byte, int16, int32, uint32, float, double, text, position, queue, optional, array,
  dict, object, Fields, done, field, skip, present, Position, ResearchQueue, always, after_victory,
  never, unset, Val, Record,
}

pub data ParseError : Type 0 where
  ended_unexpectedly text_too_long array_too_large dict_too_large invalid_queue : ParseError

-- The bytes from the parser's position on, its error and `lastPosition`.
pub record Parser : Type 0 where
  pub left : Bytes
  pub error : Option ParseError
  pub last : Position

-- `setErr`.
abbrev pub first_error : Option ParseError → ParseError → Option ParseError
first_error none e = some e
first_error (some old) e = some old

abbrev pub set_error : ParseError → Parser → Parser
set_error e p = record p { error = first_error p.error e }

-- `readBytes`, on a parser's error.
unfoldable pub read_bytes : ℕ → Option ParseError → Parser → Option Bytes × Parser
read_bytes n (some e) p = (none, p)
read_bytes n none p =
    if ltb (length p.left) n
    then (none, set_error ended_unexpectedly p)
    else (some (take n p.left), record p { left = drop n p.left })

abbrev pub uint_or_zero : Option Bytes → ℕ
uint_or_zero none = 0
uint_or_zero (some bs) = get_uint bs

-- `readUint8`, `readUint16`, `readUint32` and the bits of `readDouble`, by the number of bytes.
unfoldable pub read_uint : ℕ → Parser → ℕ × Parser
unfolding read_bytes get_uint
read_uint n p = let (bs, p') = read_bytes n p.error p in (uint_or_zero bs, p')

-- `readInt16` and `readInt32`: `m` is half of the number of values.
abbrev pub signed_or_zero : ℕ → Option Bytes → ℤ
signed_or_zero m none = zero_ℤ
signed_or_zero m (some bs) = of_bits m (get_uint bs)

unfoldable pub read_int : ℕ → ℕ → Parser → ℤ × Parser
unfolding read_bytes get_uint
read_int n m p = let (bs, p') = read_bytes n p.error p in (signed_or_zero m bs, p')

-- `readUint32SO`.
unfoldable pub read_uint32_so : Parser → ℕ × Parser
unfolding read_uint
read_uint32_so p =
    let (value, p') = read_uint 1 p in
    let long = read_uint 4 p' in if value == 255 then long else (value, p')

abbrev pub bytes_or_empty : Option Bytes → Bytes
bytes_or_empty none = []
bytes_or_empty (some bs) = bs

-- `readString`. The number of bytes that are left is taken as a uint32.
unfoldable pub read_text : Parser → Bytes × Parser
unfolding read_uint32_so read_bytes
read_text p =
    let (size, p') = read_uint32_so p in
    let (bs, p'') = read_bytes size p'.error p' in
    if ltb (length p'.left % 2 ^ 32) size
    then ([], set_error text_too_long p')
    else (bytes_or_empty bs, p'')

-- `readMapPosition`: two differences of sixteen bits from the last position, or, after the first
-- coordinate 0x7fff, two numbers of thirty-two bits.
abbrev pub move_to : Position → Parser → Position × Parser
move_to at p = (at, record p { last = at })

unfoldable pub read_position : Parser → Position × Parser
read_position p =
    let (x_diff, p1) = read_int 2 32768 p in
    let (x, p2) = read_int 4 2147483648 p1 in
    let (y, p3) = read_int 4 2147483648 p2 in
    let (y_diff, p4) = read_int 2 32768 p1 in
    if beq_ℤ x_diff (pos 32767)
    then move_to (record { x = x; y = y }) p3
    else move_to (record { x = p.last.x +ℤ x_diff; y = p.last.y +ℤ y_diff }) p4

-- The research queue, `researchQueue[queueIndex]`.
unfoldable pub queue_of : ℕ → Parser → ResearchQueue × Parser
queue_of i p =
    if i == 0
    then (always, p)
    else if i == 1
    then (after_victory, p)
    else if i == 2
    then (never, p)
    else (unset, set_error invalid_queue p)

-- The loop of `readArray`: it stops at the first error.
unfoldable pub read_items :
    {A : Type 0} → ℕ → (Parser → A × Parser) → Option ParseError → Parser → List A × Parser
read_items zero r e p = ([], p)
read_items (suc n) r (some e) p = ([], p)
read_items (suc n) r none p =
    let (v, p') = r p in let (vs, p'') = read_items n r p'.error p' in (v ∷ vs, p'')

abbrev pub max_items : ℕ
max_items = 100000

unfoldable pub read_array : {A : Type 0} → (Parser → A × Parser) → Parser → List A × Parser
unfolding read_items read_uint32_so
read_array r p =
    let (size, p') = read_uint32_so p in
    let items = read_items size r p'.error p' in
    if ltb max_items size then ([], set_error array_too_large p') else items

-- `out[key] = value`: the new value takes the old one's place in the map, here at the end.
abbrev pub set_key : {A : Type 0} → Bytes → A → Assoc Bytes A → Assoc Bytes A
set_key k v m = erase k m ++ (k, v) ∷ []

-- The loop of `readStringDict`.
unfoldable pub read_entries :
    {A : Type 0}
    → ℕ
    → (Parser → A × Parser)
    → Option ParseError
    → Assoc Bytes A
    → Parser
    → Assoc Bytes A × Parser
unfolding read_text
read_entries zero r e m p = (m, p)
read_entries (suc n) r (some e) m p = (m, p)
read_entries (suc n) r none m p =
    let (k, p') = read_text p in
    let (v, p'') = r p' in read_entries n r p''.error (set_key k v m) p''

unfoldable pub read_dict : {A : Type 0} → (Parser → A × Parser) → Parser → Assoc Bytes A × Parser
unfolding read_entries read_uint32_so
read_dict r p =
    let (size, p') = read_uint32_so p in
    let entries = read_entries size r p'.error [] p' in
    if ltb max_items size then ([], set_error dict_too_large p') else entries

-- `readBool` and `readOptional`.
unfoldable pub read_bool : Parser → Bool × Parser
unfolding read_uint
read_bool p = let (b, p') = read_uint 1 p in (not (b == 0), p')

abbrev pub given : {A : Type 0} → A × Parser → Option A × Parser
given (v, p) = (some v, p)

unfoldable pub read_optional : {A : Type 0} → (Parser → A × Parser) → Parser → Option A × Parser
unfolding read_bool
read_optional r p =
    let (there, p') = read_bool p in let value = given (r p') in if there then value else (none, p')

unfoldable pub read_queue : Parser → ResearchQueue × Parser
unfolding read_uint queue_of
read_queue p = let (i, p') = read_uint 1 p in queue_of i p'

-- A value of a format, and the fields of an object in their order.
unfoldable mutual
  unfolding read_bool read_uint read_int read_text read_position read_queue read_optional read_array
      read_dict

  pub read : (f : Format) → Parser → Val f × Parser
  read flag p = read_bool p
  read byte p = read_uint 1 p
  read int16 p = read_int 2 32768 p
  read int32 p = read_int 4 2147483648 p
  read uint32 p = read_uint 4 p
  read float p = read_uint 4 p
  read double p = read_uint 8 p
  read text p = read_text p
  read position p = read_position p
  read queue p = read_queue p
  read (optional f) p = read_optional (read f) p
  read (array f) p = read_array (read f) p
  read (dict f) p = read_dict (read f) p
  read (object fs) p = read_fields fs p

  pub read_fields : (fs : Fields) → Parser → Record fs × Parser
  read_fields done p = (tt, p)
  read_fields (field name f fs) p =
      let (v, p') = read f p in let (r, p'') = read_fields fs p' in ((v, r), p'')
  read_fields (skip f fs) p =
      let (v, p') = read f p in let (r, p'') = read_fields fs p' in ((v, r), p'')
  read_fields (present name f fs) p =
      let (v, p') = read_optional (read f) p in let (r, p'') = read_fields fs p' in ((v, r), p'')
