-- ===== src/MapExchange/Parse.antt =====
-- `ParseMapExchangeString` of fact/mapExchange.go. The JSON decoder, base64, zlib and the removal of white
-- space are parameters.
pub mod Failing
use chat_wire.Common.{
  ℕ, ◌+◌, ◌-◌, ◌%◌, ◌≡◌, Bool, true, false, not, ◌&&◌, ◌||◌, Option, none, some, List, [], ◌∷◌,
  ◌++◌, if◌then◌else◌, ltb, leb, ◌==◌, Bytes, bytes_beq, length, take, drop,
}
use chat_wire.Common.Crc.{crc, ieee}
use chat_wire.Common.Int.{zero_ℤ}
use chat_wire.Common.LittleEndian.{get_uint}
use chat_wire.Common.Result.{Result, ok, err, ◌>>=◌, ◌>>◌, refuse_if, some_or}
use chat_wire.MapExchange.Format.{Position, Val}
use chat_wire.MapExchange.Settings.{map_gen_settings, map_settings}
use chat_wire.MapExchange.Reader.{Parser, ParseError, read_uint, read}

-- `[4]uint16`.
pub record Version : Type 0 where
  pub major : ℕ
  pub minor : ℕ
  pub patch : ℕ
  pub dev : ℕ

-- `versionAtLeast`: the first of the four that differs decides.
unfoldable pub version_at_least : Version → Version → Bool
version_at_least v t =
    let by = λ (a b : ℕ) (next : Bool). if ltb b a then true else if ltb a b then false else next in
    by v.major t.major (by v.minor t.minor (by v.patch t.patch (by v.dev t.dev true)))

abbrev pub at_least_v2 : Version → Bool
at_least_v2 v = version_at_least v (record { major = 2; minor = 0; patch = 0; dev = 0 })

abbrev pub at_least_v21 : Version → Bool
at_least_v21 v = version_at_least v (record { major = 2; minor = 1; patch = 0; dev = 0 })

-- The settings of a map exchange string, in the formats of their version.
abbrev pub GenSettings : Version → Type 0
GenSettings v = Val (map_gen_settings (at_least_v2 v))

abbrev pub MapSettings : Version → Type 0
MapSettings v = Val (map_settings (at_least_v2 v) (at_least_v21 v))

-- `MapExchangeData`: of a map exchange string, or of JSON, whose tables are of the type `J`.
pub data MapExchangeData (J : Type 0) : Type 0 where
  from_string :
      (version : Version)
      → GenSettings version
      → MapSettings version
      → (checksum : ℕ) → (checksum_ok : Bool) → MapExchangeData J
  from_json : (map_gen_settings map_settings : J) → MapExchangeData J

pub data ExchangeError : Type 0 where
  bad_json tables_missing no_markers bad_base64 : ExchangeError
  bad_compression cannot_decompress cannot_close too_short : ExchangeError
  unreadable : ParseError → ExchangeError
  unexpected_data : ℕ → ExchangeError

-- The four tables that the JSON decoder looks for.
pub record Tables (J : Type 0) : Type 0 where
  pub map_settings : Option J
  pub map_gen_settings : Option J
  pub map_settings_camel : Option J
  pub map_gen_settings_camel : Option J

-- What the code takes from Go's library.
pub record Decoders (J : Type 0) : Type 0 where
  pub trim_space : Bytes → Bytes
  pub without_space : Bytes → Bytes
  pub decode_json : Bytes → Option (Tables J)
  pub std_decode : Bytes → Option Bytes
  pub raw_std_decode : Bytes → Option Bytes
  pub inflate : Bytes → Result ExchangeError Bytes

abbrev pub or_else {ℓ} : {A : Type ℓ} → Option A → Option A → Option A
or_else none other = other
or_else (some a) other = some a

-- ">>>", "<<<" and "{".
abbrev pub opening : Bytes
opening = 62 ∷ 62 ∷ 62 ∷ []

abbrev pub closing : Bytes
closing = 60 ∷ 60 ∷ 60 ∷ []

unfoldable pub has_prefix : Bytes → Bytes → Bool
has_prefix s p = leb (length p) (length s) && bytes_beq (take (length p) s) p

unfoldable pub has_suffix : Bytes → Bytes → Bool
has_suffix s p = leb (length p) (length s) && bytes_beq (drop (length s - length p) s) p

unfoldable pub trim_prefix : Bytes → Bytes → Bytes
trim_prefix s p = if has_prefix s p then drop (length p) s else s

unfoldable pub trim_suffix : Bytes → Bytes → Bytes
trim_suffix s p = if has_suffix s p then take (length s - length p) s else s

-- The signs that base64 lacks at its end.
abbrev pub padding : ℕ → Bytes
padding n = if n % 4 == 2 then 61 ∷ 61 ∷ [] else if n % 4 == 3 then 61 ∷ [] else []

abbrev pub origin : Position
origin = record { x = zero_ℤ; y = zero_ℤ }

-- `newMapExchangeParser`.
abbrev pub new_parser : Bytes → Parser
new_parser raw = record { left = raw; error = none; last = origin }

-- `readVersion`.
unfoldable pub read_version : Parser → Version × Parser
read_version p =
    let (major, p1) = read_uint 2 p in
    let (minor, p2) = read_uint 2 p1 in
    let (patch, p3) = read_uint 2 p2 in
    let (dev, p4) = read_uint 2 p3 in
    (record { major = major; minor = minor; patch = patch; dev = dev }, p4)

-- The last four bytes, and the checksum of those before them.
unfoldable pub checksum_ok : Bytes → Bool
checksum_ok raw = get_uint (drop (length raw - 4) raw) == crc ieee (take (length raw - 4) raw)

module _ {J : Type 0} where
  -- What the parser is left with: its error, then its bytes, then the checksum.
  unfoldable pub finish :
      Bytes
      → (v : Version) → GenSettings v
      → MapSettings v
      → ℕ × Parser
      → Option ParseError
      → Result ExchangeError (MapExchangeData J)
  unfolding checksum_ok
  finish raw v gen settings (sum, p) (some e) = err (unreadable e)
  finish raw v gen settings (sum, p) none = do
    refuse_if (not (length p.left == 0)) (unexpected_data (length p.left))
    ok (from_string v gen settings sum (checksum_ok raw))

  unfoldable pub parse_raw : Bytes → Result ExchangeError (MapExchangeData J)
  parse_raw raw =
      if ltb (length raw) 4
      then err too_short
      else (let (v, p1) = read_version (new_parser raw) in
          let (unknown, p2) = read_uint 1 p1 in
          let (gen, p3) = read (map_gen_settings (at_least_v2 v)) p2 in
          let (settings, p4) = read (map_settings (at_least_v2 v) (at_least_v21 v)) p3 in
          let sum = read_uint 4 p4 in finish raw v gen settings sum sum.1.error)

  -- `parseMapExchangeJSON`.
  abbrev pub both : Option J → Option J → Result ExchangeError (MapExchangeData J)
  both (some gen) (some settings) = ok (from_json gen settings)
  both _ _ = err tables_missing

  unfoldable pub parse_map_exchange_json :
      Decoders J → Bytes → Result ExchangeError (MapExchangeData J)
  parse_map_exchange_json d input = do
    t ← some_or bad_json (d.decode_json input)
    both (or_else t.map_gen_settings t.map_gen_settings_camel)
        (or_else t.map_settings t.map_settings_camel)

  -- `decodeMapExchangeBase64`: as it stands, with padding, and without.
  abbrev pub padded : Decoders J → Bytes → Bytes → Option Bytes
  padded d encoded [] = none
  padded d encoded (c ∷ cs) = d.std_decode (encoded ++ c ∷ cs)

  unfoldable pub decode_map_exchange_base64 : Decoders J → Bytes → Result ExchangeError Bytes
  decode_map_exchange_base64 d encoded = some_or bad_base64 (
      or_else (d.std_decode encoded)
        (or_else (padded d encoded (padding (length encoded))) (d.raw_std_decode encoded)))

  unfoldable pub parse_compact : Decoders J → Bytes → Result ExchangeError (MapExchangeData J)
  parse_compact d compact = do
    refuse_if (not (has_prefix compact opening) || not (has_suffix compact closing)) no_markers
    decoded ← decode_map_exchange_base64 d (trim_suffix (trim_prefix compact opening) closing)
    raw ← d.inflate decoded
    parse_raw raw

  -- `ParseMapExchangeString`.
  unfoldable pub parse_map_exchange_string :
      Decoders J → Bytes → Result ExchangeError (MapExchangeData J)
  parse_map_exchange_string d input =
      let trimmed = d.trim_space input in
      if has_prefix trimmed (123 ∷ [])
      then parse_map_exchange_json d trimmed
      else parse_compact d (d.without_space trimmed)
