-- ===== src/PlayerDb/Envelope/RoundTrip.antt =====
-- A player database file is read back (fact/playerdb_codec.go).
use chat_wire.Common.{
  ℕ, ◌^◌, ◌≤◌, ◌<◌, ◌≡◌, refl, sym, ap, ◌∙◌, Bool, true, false, not, ltb, leb, ◌==◌, Option, some,
  [], ◌∷◌, ◌++◌, arith, Bytes, bytes_eq, length, All,
}
use chat_wire.Common.LittleEndian.{put_uint, get-put_uint}
use chat_wire.Common.Assoc.{Assoc, lookup}
use chat_wire.Common.Crc.{crc_lt, castagnoli}
use chat_wire.Common.Result.{ok-inj, Result, ok, bind-ok, refuse_if-ok}
use chat_wire.PlayerDb.Data.{PlayerData, max_player_db_payload, init_failed, CodecError}
use chat_wire.PlayerDb.Payload.{encode_payload, decode_player_db_payload}
use chat_wire.PlayerDb.Payload.Sorted.{Distinct}
use chat_wire.PlayerDb.Payload.Whole.{
  WellTyped, stored, decode-encode_payload, encode_payload-length,
}
use chat_wire.PlayerDb.Envelope.{
  Codecs, checksum, player_db_magic, encode_binary_player_database, decode_binary_player_database,
  encode_player_database, decode_player_database, binary,
}

-- Zstandard gives back what it compressed, as far as the decoder's limit on memory goes.
abbrev pub Lossless : Codecs → Type 0
Lossless c =
    (payload : Bytes)
    → length payload ≤ max_player_db_payload
    → c.decode_all (c.encode_all payload) ≡ some payload

checksum-bound : (bs : Bytes) → checksum bs < 256 ^ 4
unfolding checksum
checksum-bound bs = crc_lt castagnoli bs

-- The file that the encoder makes of a payload.
abbrev pub enveloped : Codecs → Bytes → Bytes
enveloped c payload =
    player_db_magic
    ++ put_uint 2 1
    ++ (1 ∷ 0 ∷ [])
    ++ put_uint 8 (length payload)
    ++ put_uint 4 (checksum payload)
    ++ c.encode_all payload

within : {n : ℕ} → n ≤ max_player_db_payload → ltb max_player_db_payload n ≡ false
within h = ground arith

same : (n : ℕ) → (n == n) ≡ true
same n = ground arith

long_enough : (c : Codecs) (payload : Bytes) → ltb (length (enveloped c payload)) 24 ≡ false
unfolding put_uint
long_enough c payload = ground arith

eight : (c : Codecs) (payload : Bytes) → leb 8 (length (enveloped c payload)) ≡ true
unfolding put_uint
eight c payload = ground arith

-- The decoder on such a file.
decode-enveloped :
    (c : Codecs) (payload : Bytes)
    → c.init_ok ≡ true
    → Lossless c
    → length payload ≤ max_player_db_payload
    → decode_binary_player_database c (enveloped c payload) ≡ decode_player_db_payload payload
unfolding decode_binary_player_database put_uint
decode-enveloped c payload ready lossless small =
    rw (long_enough c payload) rw (get-put_uint 8 (length payload) (omega arith)) rw (within small)
      rw ready rw (lossless payload small) rw
      (get-put_uint 4 (checksum payload) (checksum-bound payload)) rw (same (length payload)) rw
      (same (checksum payload)) refl

recognized :
    (c : Codecs) (payload : Bytes)
    → decode_player_database c (enveloped c payload)
      ≡ (decode_binary_player_database c (enveloped c payload), binary)
unfolding decode_player_database put_uint
recognized c payload = rw (eight c payload) refl

true_of_not : {b : Bool} → not b ≡ false → b ≡ true
true_of_not h = ground arith

-- Whatever the program's map of players is, the file that the encoder makes of it in the binary format
-- is recognized as binary and read back without an error, and the new map has for every name the same
-- player, without the name, the flag of a ban already made and the spam score, and none where there
-- was none. The conditions: Zstandard can be set up and gives back what it compressed; no name occurs
-- twice, none is empty, and the numbers are int64s; and the encoder returns no error.
pub decode-encode_player_database :
    (c : Codecs) (players : Assoc Bytes (Option PlayerData)) (file : Bytes)
    → Lossless c
    → Distinct players
    → All WellTyped players
    → encode_player_database c players (some binary) ≡ ok file
    → (out : Assoc Bytes PlayerData) × (decode_player_database c file ≡ (ok out, binary))
      × ((k : Bytes) → lookup k out ≡ stored (lookup k players))
unfolding encode_player_database encode_binary_player_database
decode-encode_player_database c players file lossless d t h =
    let (payload, e, h1) = bind-ok (encode_payload players) _ file h in
    let (ready, e1) = refuse_if-ok (not c.init_ok) init_failed (ok (enveloped c payload)) file h1 in
    let (out, back, found) = decode-encode_payload players payload d t e in
    (
      out,
      ap (decode_player_database c) (sym (ok-inj _ _ e1))
          ∙ recognized c payload
          ∙ ap (λ (r : Result CodecError (Assoc Bytes PlayerData)). (r, binary))
              (decode-enveloped c payload (true_of_not ready) lossless
                  (encode_payload-length players payload e)
                ∙ back),
      found,
    )
