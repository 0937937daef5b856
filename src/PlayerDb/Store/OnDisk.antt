-- ===== src/PlayerDb/Store/OnDisk.antt =====
-- The players in memory and the file in the binary format (fact/playerDB.go, fact/playerdb_codec.go): the
-- store's codec is the one of the file.
use chat_wire.Common.{
  ◌+◌, ◌^◌, ◌<◌, ◌≡◌, refl, ap, ◌∙◌, arith, Option, none, some, List, [], ◌∷◌, Bytes, bytes_eq,
  length, All,
}
use chat_wire.Common.Assoc.{Assoc, lookup}
use chat_wire.Common.Result.{Result, ok, err}
use chat_wire.PlayerDb.Data.{PlayerData, CodecError}
use chat_wire.PlayerDb.Payload.Sorted.{Distinct}
use chat_wire.PlayerDb.Payload.Whole.{WellTyped, stored}
use chat_wire.PlayerDb.Envelope.{
  Codecs, Format, encode_player_database, decode_player_database, binary,
}
use chat_wire.PlayerDb.Envelope.RoundTrip.{Lossless, decode-encode_player_database}
use chat_wire.PlayerDb.Store.{Text, Store}
use chat_wire.PlayerDb.Store.Changes.{
  snapshot_player_changes, merge_player_changes, WriteEnv, Codec, on_disk, write_players,
}
use chat_wire.PlayerDb.Store.Edits.{Edit, Allowed, apply_all}
use chat_wire.PlayerDb.Store.Writing.{ReadsBack, Saved, as_stored, write_players-Saved}

-- A map without nil players, as the encoder takes it.
abbrev pub all_there : Assoc Bytes PlayerData → Assoc Bytes (Option PlayerData)
all_there [] = []
all_there ((k, p) ∷ m) = (k, some p) ∷ all_there m

abbrev pub to_option : {A : Type 0} → Result CodecError A → Option A
to_option (ok a) = some a
to_option (err e) = none

-- The codec of WritePlayers in the binary format.
abbrev pub file_codec : Codecs → Codec Bytes
file_codec c = record {
  decode = λ f. to_option (decode_player_database c f).0;
  encode = λ m. to_option (encode_player_database c (all_there m) (some binary));
}

to_option-some : {A : Type 0} (r : Result CodecError A) (a : A) → to_option r ≡ some a → r ≡ ok a
to_option-some (ok b) a h = ground arith
to_option-some (err e) a h = absurd (ground arith)

lookup-all_there :
    (k : Bytes) (m : Assoc Bytes PlayerData)
    → stored (lookup k (all_there m)) ≡ as_stored (lookup k m)
unfolding lookup
lookup-all_there k [] = refl
lookup-all_there k ((j, p) ∷ m) = ground (arith, lookup-all_there k m)

-- The players of a map have different names that are not empty, and numbers that are int64s.
pub record Encodable (m : Assoc Bytes PlayerData) : Type 0 where
  pub distinct : Distinct (all_there m)
  pub typed : All WellTyped (all_there m)

file_codec-ReadsBack :
    (c : Codecs) (m : Assoc Bytes PlayerData)
    → Lossless c
    → Encodable m
    → ReadsBack (file_codec c) m
file_codec-ReadsBack c m lossless e f h =
    let written = to_option-some (encode_player_database c (all_there m) (some binary)) f h in
    let (out, back, found) =
      decode-encode_player_database c (all_there m) f lossless e.distinct e.typed written in
    (
      out,
      ap (λ (r : Result CodecError (Assoc Bytes PlayerData) × Format). to_option r.0) back,
      λ k. found k ∙ lookup-all_there k m,
    )

-- `WritePlayers` on a file in the binary format: if for every name that is not pending the file has the player of the
-- memory, up to the fields that are not stored, then it is so after a write, whatever calls change players while
-- it runs and whether or not it fails. Zstandard is lossless, the merged players have different names
-- that are not empty and int64s, and the calls and the version counter are as for any codec: names without blanks
-- around them, no deletion reported by the game, and fewer than 2^64 versions.
pub write_players-OnDisk :
    (c : Codecs) (t : Text) (env : WriteEnv) (disk : Option Bytes) (s : Store) (es : List Edit)
    → Lossless c
    → Saved (file_codec c) disk s
    → All (Allowed t) es
    → s.next + length es < 2 ^ 64
    → ((m : Assoc Bytes PlayerData)
        → on_disk (file_codec c) disk ≡ some m
        → Encodable (merge_player_changes m (snapshot_player_changes s.player_list s.versions)))
    → Saved
        (file_codec c)
        (write_players (file_codec c) env s disk (apply_all t es s)).1
        (write_players (file_codec c) env s disk (apply_all t es s)).0
write_players-OnDisk c t env disk s es lossless saved allowed room encodable =
    write_players-Saved (file_codec c) t env disk s es saved allowed room (λ m d.
      file_codec-ReadsBack c
        (merge_player_changes m (snapshot_player_changes s.player_list s.versions)) lossless
        (encodable m d))
