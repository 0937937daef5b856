-- ===== src/PlayerDb/Payload.antt =====
-- The payload of the binary player database (fact/playerdb_codec.go). A Go map is an association list;
-- a nil pointer is `none`. The reader's offset is the bytes that are left.
pub mod Decode
pub mod Sorted
pub mod Encode
pub mod RoundTrip
pub mod Whole
use chat_wire.Common.{
  ℕ, ◌+◌, ◌-◌, ◌/◌, Bool, true, false, ltb, Option, none, some, List, [], ◌∷◌, ◌++◌, if◌then◌else◌,
  Bytes, bytes_eq, length, take, drop,
}
use chat_wire.Common.Assoc.{Assoc, lookup, insert}
use chat_wire.Common.Result.{Result, ok, err, ◌>>=◌, ◌>>◌, refuse_if}
use chat_wire.PlayerDb.Data.{
  ℤ, zero_ℤ, PlayerData, CodecError, null_player, too_many_records, string_too_long,
  payload_too_long, past_end, count_too_large, cannot_fit, empty_name, duplicate_name,
  trailing_bytes, max_player_db_payload, max_player_db_records, max_player_db_string,
}
use chat_wire.PlayerDb.Varint.{append_uvarint, read_uvarint, append_varint, read_varint}

-- `appendPlayerDBString`.
pub append_player_db_string : Bytes → Bytes → Result CodecError Bytes
append_player_db_string dst value = do
  refuse_if (ltb max_player_db_string (length value)) string_too_long
  ok (append_uvarint dst (length value) ++ value)

-- The body of the encoder's loop.
pub append_record : Bytes → Bytes → PlayerData → Result CodecError Bytes
unfolding append_player_db_string
append_record payload name player = do
  payload ← append_player_db_string payload name
  let payload = append_varint payload player.level
  payload ← append_player_db_string payload player.id
  payload ← append_player_db_string payload player.ban_reason
  let payload = append_varint payload player.creation
  let payload = append_varint payload player.last_seen
  let payload = append_varint payload player.minutes
  let payload = append_varint payload player.sus_score
  refuse_if (ltb max_player_db_payload (length payload)) payload_too_long
  ok payload

pub append_records : Bytes → Assoc Bytes PlayerData → Result CodecError Bytes
unfolding append_record
append_records payload [] = ok payload
append_records payload ((name, player) ∷ es) = do
  payload ← append_record payload name player
  append_records payload es

-- The collection of the keys: a null player is refused.
pub entries : Assoc Bytes (Option PlayerData) → Result CodecError (Assoc Bytes PlayerData)
entries [] = ok []
entries ((name, none) ∷ players) = err null_player
entries ((name, some player) ∷ players) = do es ← entries players; ok ((name, player) ∷ es)

-- The order of Go strings, and `sort.Strings` on the keys, each with its player.
pub bytes_ltb : Bytes → Bytes → Bool
bytes_ltb as' [] = false
bytes_ltb [] (b ∷ bs) = true
bytes_ltb (a ∷ as') (b ∷ bs) =
    let rest = bytes_ltb as' bs in if ltb a b then true else if ltb b a then false else rest

pub insert_sorted : Bytes → PlayerData → Assoc Bytes PlayerData → Assoc Bytes PlayerData
unfolding bytes_ltb
insert_sorted k v [] = (k, v) ∷ []
insert_sorted k v ((j, u) ∷ es) =
    let rest = insert_sorted k v es in if bytes_ltb j k then (j, u) ∷ rest else (k, v) ∷ (j, u) ∷ es

pub sort_entries : Assoc Bytes PlayerData → Assoc Bytes PlayerData
unfolding insert_sorted
sort_entries [] = []
sort_entries ((k, v) ∷ es) = insert_sorted k v (sort_entries es)

-- `encodeBinaryPlayerDatabase` up to the payload.
unfoldable pub encode_payload : Assoc Bytes (Option PlayerData) → Result CodecError Bytes
unfolding append_records entries sort_entries
encode_payload players = do
  refuse_if (ltb max_player_db_records (length players)) too_many_records
  es ← entries players
  append_records (append_uvarint [] (length es)) (sort_entries es)

-- `playerDBReader.string`.
pub read_string : Bytes → Result CodecError (Bytes × Bytes)
read_string bs = do
  (size, bs) ← read_uvarint bs
  refuse_if (ltb max_player_db_string size) string_too_long
  refuse_if (ltb (length bs) size) past_end
  ok (take size bs, drop size bs)

-- The fields of a record behind its name. A level is read as an int64, which is Go's int on the
-- platforms with 64 bits. The fields that are not stored have their zero values.
pub read_fields : Bytes → Result CodecError (PlayerData × Bytes)
unfolding read_string
read_fields bs = do
  (level, bs) ← read_varint bs
  (id, bs) ← read_string bs
  (ban_reason, bs) ← read_string bs
  (creation, bs) ← read_varint bs
  (last_seen, bs) ← read_varint bs
  (minutes, bs) ← read_varint bs
  (sus_score, bs) ← read_varint bs
  ok (
    record {
      name = [];
      level = level;
      id = id;
      ban_reason = ban_reason;
      creation = creation;
      last_seen = last_seen;
      minutes = minutes;
      sus_score = sus_score;
      already_banned = false;
      spam_score = zero_ℤ;
    },
    bs,
  )

abbrev pub is_empty : Bytes → Bool
is_empty [] = true
is_empty (b ∷ bs) = false

abbrev pub exists : Option PlayerData → Bool
exists none = false
exists (some p) = true

-- The decoder's loop over `count` records.
pub read_records :
    ℕ → Bytes → Assoc Bytes PlayerData → Result CodecError (Assoc Bytes PlayerData × Bytes)
unfolding read_fields read_string
read_records ℕ.zero bs players = ok (players, bs)
read_records (ℕ.suc n) bs players = do
  (name, bs) ← read_string bs
  refuse_if (is_empty name) empty_name
  refuse_if (exists (lookup name players)) duplicate_name
  (player, bs) ← read_fields bs
  read_records n bs (insert name player players)

-- `decodePlayerDBPayload`.
pub decode_player_db_payload : Bytes → Result CodecError (Assoc Bytes PlayerData)
unfolding read_records
decode_player_db_payload payload = do
  (count, bs) ← read_uvarint payload
  refuse_if (ltb max_player_db_records count) count_too_large
  refuse_if (ltb (length bs / 9) count) cannot_fit
  (players, bs) ← read_records count bs []
  refuse_if (ltb 0 (length bs)) trailing_bytes
  ok players
