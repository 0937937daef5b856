-- ===== src/PlayerDb/Data.antt =====
-- A player's record (glob/struct.go, `PlayerData`), signed integers, and the errors of the codec. A
-- Go string is a list of bytes.
use chat_wire.Common.{ℕ, ◌^◌, ◌<◌, Bool, Bytes}
pub use chat_wire.Common.Int.{ℤ, pos, negsuc, zero_ℤ, beq_ℤ, ltb_ℤ}

-- The values of an int64.
abbrev pub IsInt64 : ℤ → Type 0
IsInt64 (pos n) = n < 2 ^ 63
IsInt64 (negsuc n) = n < 2 ^ 63

abbrev pub IsByte : ℕ → Type 0
IsByte b = b < 256

pub record PlayerData : Type 0 where
  pub name : Bytes
  pub level : ℤ
  pub id : Bytes
  pub ban_reason : Bytes
  pub creation : ℤ
  pub last_seen : ℤ
  pub minutes : ℤ
  pub sus_score : ℤ
  pub already_banned : Bool
  pub spam_score : ℤ

-- The errors of fact/playerdb_codec.go, without the context that wraps them.
pub data CodecError : Type 0 where
  unsupported_format null_player too_many_records string_too_long payload_too_long : CodecError
  init_failed header_truncated unsupported_version unsupported_codec unsupported_flags : CodecError
  declared_too_long decompress_failed size_mismatch checksum_mismatch bad_json : CodecError
  unexpected_end integer_overflow past_end count_too_large cannot_fit : CodecError
  empty_name duplicate_name trailing_bytes : CodecError

-- Limits of fact/playerdb_codec.go.
abbrev pub max_player_db_payload : ℕ
max_player_db_payload = 536870912

abbrev pub max_player_db_records : ℕ
max_player_db_records = 5000000

abbrev pub max_player_db_string : ℕ
max_player_db_string = 16777216
