-- ===== src/PlayerDb/Payload/RoundTrip.antt =====
-- The payload of the player database is read back (fact/playerdb_codec.go): for one record, for the
-- list of records, and for the whole payload.
use chat_wire.Common.{
  ◌+◌, ◌*◌, ◌≤◌, ◌<◌, ◌≡◌, ◌≢◌, refl, true, false, Option, none, some, [], ◌∷◌, ◌++◌, arith, Bytes,
  bytes_beq, bytes_beq_iff, bytes_eq, length, All, length-append,
}
use chat_wire.Common.Assoc.{Assoc, lookup, insert, lookup-insert}
use chat_wire.Common.Result.{ok}
use chat_wire.PlayerDb.Data.{PlayerData}
use chat_wire.PlayerDb.Varint.{append_uvarint-length, append_varint-length}
use chat_wire.PlayerDb.Payload.{is_empty, read_records}
use chat_wire.PlayerDb.Payload.Sorted.{Differs, Distinct}
use chat_wire.PlayerDb.Payload.Decode.{
  string_onto, varint_onto, fields_onto, records_onto, InRange, persisted, read-string_onto,
  read-fields_onto,
}
use chat_wire.PlayerDb.Payload.Encode.{AllShort}

abbrev pub insert_all : Assoc Bytes PlayerData → Assoc Bytes PlayerData → Assoc Bytes PlayerData
insert_all [] acc = acc
insert_all ((k, p) ∷ es) acc = insert_all es (insert k (persisted p) acc)

-- A player with a name, whose numbers are int64s; and one that the decoder has not met.
pub record Storable (e : Bytes × PlayerData) : Type 0 where
  pub named : e.0 ≢ []
  pub in_range : InRange e.1

abbrev pub Fresh : Assoc Bytes PlayerData → Bytes × PlayerData → Type 0
Fresh acc e = lookup e.0 acc ≡ none

insert-Fresh :
    (k : Bytes) (p : PlayerData) (es acc : Assoc Bytes PlayerData)
    → All (Differs k) es
    → All (Fresh acc) es
    → All (Fresh (insert k p acc)) es
insert-Fresh k p [] acc d f = tt
insert-Fresh k p ((j, u) ∷ es) acc d f =
    (rw (lookup-insert k j p acc) (rw d.0 f.0), insert-Fresh k p es acc d.1 f.1)

named_nonempty : (k : Bytes) → k ≢ [] → is_empty k ≡ false
named_nonempty k h = ground arith

pub read_records-records_onto :
    (es acc : Assoc Bytes PlayerData) (rest : Bytes)
    → All Storable es
    → All AllShort es
    → Distinct es
    → All (Fresh acc) es
    → read_records (length es) (records_onto es rest) acc ≡ ok (insert_all es acc, rest)
unfolding read_records records_onto
read_records-records_onto [] acc rest s sh d f = refl
read_records-records_onto ((k, p) ∷ es) acc rest s sh d f =
    rw (read-string_onto k (fields_onto p (records_onto es rest)) sh.0.name) rw
      (named_nonempty k s.0.named) rw f.0 rw
      (read-fields_onto p (records_onto es rest) s.0.in_range sh.0.id sh.0.reason)
      (read_records-records_onto es (insert k (persisted p) acc) rest s.1 sh.1 d.1
        (insert-Fresh k (persisted p) es acc d.0 f.1))

-- What a lookup finds where the entries come before the old map.
abbrev pub or_kept : Option PlayerData → Option PlayerData → Option PlayerData
or_kept none o = o
or_kept (some p) o = some (persisted p)

absent :
    (i k : Bytes) (es : Assoc Bytes PlayerData)
    → All (Differs k) es
    → bytes_beq k i ≡ true
    → lookup i es ≡ none
unfolding lookup
absent i k [] d h = refl
absent i k ((j, u) ∷ es) d h =
    ground
      (arith, absent i k es d.1 h, bytes_beq_iff k i, bytes_beq_iff j i, bytes_beq_iff k j, d.0)

pub insert_all-lookup :
    (i : Bytes) (es acc : Assoc Bytes PlayerData)
    → Distinct es
    → lookup i (insert_all es acc) ≡ or_kept (lookup i es) (lookup i acc)
unfolding lookup
insert_all-lookup i [] acc d = refl
insert_all-lookup i ((k, p) ∷ es) acc d = ground (
  arith,
  insert_all-lookup i es (insert k (persisted p) acc) d.1,
  lookup-insert k i (persisted p) acc,
  absent i k es d.0,
)

string_onto-length : (s rest : Bytes) → length s + length rest < length (string_onto s rest)
string_onto-length s rest =
    omega (arith, append_uvarint-length (length s) (s ++ rest), length-append s rest)

fields_onto-length : (p : PlayerData) (rest : Bytes) → 7 + length rest ≤ length (fields_onto p rest)
fields_onto-length p rest =
    let r1 = varint_onto p.sus_score rest in
    let r2 = varint_onto p.minutes r1 in
    let r3 = varint_onto p.last_seen r2 in
    let r4 = varint_onto p.creation r3 in
    let r5 = string_onto p.ban_reason r4 in
    let r6 = string_onto p.id r5 in
    omega (
      arith,
      append_varint-length p.sus_score rest,
      append_varint-length p.minutes r1,
      append_varint-length p.last_seen r2,
      append_varint-length p.creation r3,
      string_onto-length p.ban_reason r4,
      string_onto-length p.id r5,
      append_varint-length p.level r6,
    )

nonempty-length : (k : Bytes) → k ≢ [] → 0 < length k
nonempty-length k h = ground arith

-- Each record takes nine bytes at least.
pub records_onto-length :
    (es : Assoc Bytes PlayerData) (rest : Bytes)
    → All Storable es
    → 9 * length es ≤ length (records_onto es rest)
unfolding records_onto
records_onto-length [] rest s = ground arith
records_onto-length ((k, p) ∷ es) rest s =
    let tail = records_onto es rest in
    omega (
      arith,
      records_onto-length es rest s.1,
      string_onto-length k (fields_onto p tail),
      fields_onto-length p tail,
      nonempty-length k s.0.named,
    )
