-- ===== src/PlayerDb/Envelope.antt =====
-- The file format of the player database (fact/playerdb_codec.go): the envelope of the binary format,
-- its checksum, and the choice between the formats. Zstandard and sonic's JSON are parameters.
pub mod RoundTrip
use chat_wire.Common.{
  ℕ, zero, suc, ◌+◌, ◌-◌, ◌*◌, ◌/◌, ◌%◌, ◌^◌, String, str_eq, Bool, true, false, not, ◌||◌, ◌&&◌,
  ltb, leb, ◌==◌, Option, none, some, List, [], ◌∷◌, ◌++◌, if◌then◌else◌, Bytes, bytes_beq,
  bytes_eq, length, take, drop, get_elem?,
}
use chat_wire.Common.Assoc.{Assoc}
use chat_wire.Common.Crc.{crc, castagnoli}
use chat_wire.Common.LittleEndian.{put_uint, get_uint}
use chat_wire.Common.Result.{Result, ok, err, ◌>>=◌, ◌>>◌, refuse_if}
use chat_wire.PlayerDb.Data.{
  PlayerData, CodecError, unsupported_format, init_failed, header_truncated, unsupported_version,
  unsupported_codec, unsupported_flags, declared_too_long, decompress_failed, size_mismatch,
  checksum_mismatch, bad_json, max_player_db_payload,
}
use chat_wire.PlayerDb.Payload.{entries, encode_payload, decode_player_db_payload}

-- The Zstandard encoder and decoder, whether `initPlayerDBCodecs` succeeds, and sonic's JSON.
pub record Codecs : Type 0 where
  pub init_ok : Bool
  pub encode_all : Bytes → Bytes
  pub decode_all : Bytes → Option Bytes
  pub marshal_indent : Assoc Bytes (Option PlayerData) → Result CodecError Bytes
  pub unmarshal : Bytes → Option (Assoc Bytes (Option PlayerData))

-- `crc32.Checksum` with `playerDBCRCTable`.
unfoldable pub checksum : Bytes → ℕ
unfolding crc
checksum bs = crc castagnoli bs

-- "CWPLAYER".
abbrev pub player_db_magic : Bytes
player_db_magic = 67 ∷ 87 ∷ 80 ∷ 76 ∷ 65 ∷ 89 ∷ 69 ∷ 82 ∷ []

-- `encodeBinaryPlayerDatabase`.
unfoldable pub encode_binary_player_database :
    Codecs → Assoc Bytes (Option PlayerData) → Result CodecError Bytes
unfolding put_uint
encode_binary_player_database c players = do
  payload ← encode_payload players
  refuse_if (not c.init_ok) init_failed
  ok (
      player_db_magic
      ++ put_uint 2 1
      ++ (1 ∷ 0 ∷ [])
      ++ put_uint 8 (length payload)
      ++ put_uint 4 (checksum payload)
      ++ c.encode_all payload)

-- A byte of the header, which is there once the length has been tested.
byte_at : Bytes → ℕ → ℕ
byte_at file i = elim (get_elem? file i) [ none ↦ 0 | some b ↦ b ]

abbrev pub unpacked : Option Bytes → Result CodecError Bytes
unpacked none = err decompress_failed
unpacked (some payload) = ok payload

-- `decodeBinaryPlayerDatabase`.
pub decode_binary_player_database : Codecs → Bytes → Result CodecError (Assoc Bytes PlayerData)
unfolding get_uint byte_at
decode_binary_player_database c file = do
  refuse_if (ltb (length file) 24) header_truncated
  refuse_if (not (get_uint (take 2 (drop 8 file)) == 1)) unsupported_version
  refuse_if (not (byte_at file 10 == 1)) unsupported_codec
  refuse_if (not (byte_at file 11 == 0)) unsupported_flags
  let expected_size = get_uint (take 8 (drop 12 file))
  refuse_if (ltb max_player_db_payload expected_size) declared_too_long
  refuse_if (not c.init_ok) init_failed
  payload ← unpacked (c.decode_all (drop 24 file))
  refuse_if (not (length payload == expected_size)) size_mismatch
  refuse_if (not (checksum payload == get_uint (take 4 (drop 20 file)))) checksum_mismatch
  decode_player_db_payload payload

-- A database's format; `unnamed` is the empty name that an empty file has.
pub data Format : Type 0 where
  unnamed binary json : Format

-- `encodePlayerDatabase` on a format's normalized name.
unfoldable pub encode_player_database :
    Codecs → Assoc Bytes (Option PlayerData) → Option Format → Result CodecError Bytes
encode_player_database c players none = err unsupported_format
encode_player_database c players (some json) = c.marshal_indent players
encode_player_database c players (some _) = encode_binary_player_database c players

pub decode_json :
    Option (Assoc Bytes (Option PlayerData)) → Result CodecError (Assoc Bytes PlayerData)
decode_json none = err bad_json
decode_json (some players) = entries players

-- `decodePlayerDatabase`: the players or an error, and the format that was found.
pub decode_player_database : Codecs → Bytes → Result CodecError (Assoc Bytes PlayerData) × Format
unfolding decode_json
decode_player_database c [] = (ok [], unnamed)
decode_player_database c (b ∷ bs) =
    let file = b ∷ bs in
    if leb 8 (length file) && bytes_beq (take 8 file) player_db_magic
    then (decode_binary_player_database c file, binary)
    else (decode_json (c.unmarshal file), json)
