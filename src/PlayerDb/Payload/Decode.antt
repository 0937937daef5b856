-- ===== src/PlayerDb/Payload/Decode.antt =====
-- What the encoder of fact/playerdb_codec.go puts down for a string, a number, a record and a list of
-- records, and that the reader takes it back. Each writes in front of the bytes that follow.
use chat_wire.Common.{
  ◌≤◌, ◌≡◌, refl, false, [], ◌∷◌, ◌++◌, arith, Bytes, bytes_eq, length, length-append, take-append,
  drop-append,
}
use chat_wire.Common.Assoc.{Assoc}
use chat_wire.Common.Result.{ok}
use chat_wire.PlayerDb.Data.{ℤ, zero_ℤ, IsInt64, PlayerData, max_player_db_string}
use chat_wire.PlayerDb.Varint.{
  append_uvarint, append_varint, read-append_uvarint, read-append_varint,
}
use chat_wire.PlayerDb.Payload.{read_string, read_fields}

abbrev pub string_onto : Bytes → Bytes → Bytes
string_onto s rest = append_uvarint [] (length s) ++ (s ++ rest)

abbrev pub varint_onto : ℤ → Bytes → Bytes
varint_onto z rest = append_varint [] z ++ rest

abbrev pub fields_onto : PlayerData → Bytes → Bytes
fields_onto p rest = varint_onto p.level (
    string_onto p.id (
      string_onto p.ban_reason (
        varint_onto p.creation
          (varint_onto p.last_seen (varint_onto p.minutes (varint_onto p.sus_score rest))))))

unfoldable pub records_onto : Assoc Bytes PlayerData → Bytes → Bytes
records_onto [] rest = rest
records_onto ((name, p) ∷ es) rest = string_onto name (fields_onto p (records_onto es rest))

abbrev pub Short : Bytes → Type 0
Short s = length s ≤ max_player_db_string

-- A player whose numbers are those of the Go types.
pub record InRange (p : PlayerData) : Type 0 where
  pub level : IsInt64 p.level
  pub creation : IsInt64 p.creation
  pub last_seen : IsInt64 p.last_seen
  pub minutes : IsInt64 p.minutes
  pub sus_score : IsInt64 p.sus_score

-- What is left of a player: the name is the key, and two fields are not stored.
abbrev pub persisted : PlayerData → PlayerData
persisted p = record p { name = []; already_banned = false; spam_score = zero_ℤ }

pub read-string_onto : (s rest : Bytes) → Short s → read_string (string_onto s rest) ≡ ok (s, rest)
unfolding read_string
read-string_onto s rest h = ground (
  arith,
  read-append_uvarint (length s) (s ++ rest),
  length-append s rest,
  take-append s rest,
  drop-append s rest,
)

pub read-fields_onto :
    (p : PlayerData) (rest : Bytes)
    → InRange p
    → Short p.id
    → Short p.ban_reason
    → read_fields (fields_onto p rest) ≡ ok (persisted p, rest)
unfolding read_fields
read-fields_onto p rest r hi hb =
    rw (read-append_varint p.level _ r.level) rw (read-string_onto p.id _ hi) rw
      (read-string_onto p.ban_reason _ hb) rw (read-append_varint p.creation _ r.creation) rw
      (read-append_varint p.last_seen _ r.last_seen) rw (read-append_varint p.minutes _ r.minutes)
      rw (read-append_varint p.sus_score _ r.sus_score) refl
