-- ===== src/Examples/Players.antt =====
-- The player database (fact/playerdb_codec.go, fact/playerDB.go) at concrete inputs.
use chat_wire.Common.{
  ◌≡◌, refl, ap, sym, ◌∙◌, true, false, Option, none, some, List, [], ◌∷◌, arith, All, Bytes,
  bytes_eq,
}
use mathlib.Core.Path.{subst}
use chat_wire.Common.LittleEndian.{put_uint}
use chat_wire.Common.Assoc.{Assoc, lookup, insert, erase}
use chat_wire.PlayerDb.Data.{pos, negsuc, PlayerData, bad_json}
use chat_wire.Common.Result.{ok, err}
use chat_wire.PlayerDb.Data.{max_player_db_payload}
use chat_wire.Common.{length, ◌≤◌}
use chat_wire.PlayerDb.Varint.{append_varint}
use chat_wire.PlayerDb.Payload.{encode_payload, decode_player_db_payload}
use chat_wire.PlayerDb.Payload.Decode.{InRange, persisted}
use chat_wire.PlayerDb.Payload.Whole.{
  WellTyped, stored, decode-encode_payload, encode_payload-length,
}
use chat_wire.PlayerDb.Envelope.{
  Codecs, encode_player_database, encode_binary_player_database, decode_player_database, binary,
  checksum,
}
use chat_wire.PlayerDb.Envelope.RoundTrip.{decode-encode_player_database}
use chat_wire.PlayerDb.Store.{Text, Store}
use chat_wire.PlayerDb.Store.Changes.{
  Codec, WriteEnv, write_players, merge_player_changes, snapshot_player_changes,
}
use chat_wire.PlayerDb.Store.OnDisk.{Encodable, file_codec, write_players-OnDisk}
use chat_wire.PlayerDb.Store.Edits.{Edit, set_level_of, see, apply_all}
use chat_wire.PlayerDb.Store.Writing.{Saved, ReadsBack, as_stored, write_players-Saved}

-- "zoe" and "al", in the order of a Go map.
abbrev zoe : PlayerData
zoe = record {
  name = 122 ∷ 111 ∷ 101 ∷ [];
  level = pos 2;
  id = 49 ∷ 55 ∷ [];
  ban_reason = [];
  creation = pos 9000;
  last_seen = pos 9100;
  minutes = pos 130;
  sus_score = negsuc 2;
  already_banned = false;
  spam_score = pos 4;
}

abbrev al : PlayerData
al = record zoe { name = 97 ∷ 108 ∷ []; level = negsuc 0; id = []; ban_reason = 103 ∷ [] }

abbrev two_players : Assoc Bytes (Option PlayerData)
two_players = (122 ∷ 111 ∷ 101 ∷ [], some zoe) ∷ (97 ∷ 108 ∷ [], some al) ∷ []

zoe-InRange : InRange zoe
zoe-InRange = record {
  level = omega arith;
  creation = omega arith;
  last_seen = omega arith;
  minutes = omega arith;
  sus_score = omega arith;
}

al-InRange : InRange al
al-InRange = record {
  level = omega arith;
  creation = omega arith;
  last_seen = omega arith;
  minutes = omega arith;
  sus_score = omega arith;
}

some-inj : {A : Type 0} {a b : A} → some a ≡ some b → a ≡ b
some-inj h = ground arith

two_players-WellTyped : All WellTyped two_players
two_players-WellTyped = (
  record { named = ground arith; in_range = λ p e. subst InRange (some-inj e) zoe-InRange },
  (record { named = ground arith; in_range = λ p e. subst InRange (some-inj e) al-InRange }, tt),
)

abbrev two_payload : Bytes
two_payload =
    2 ∷ 2 ∷ 97 ∷ 108 ∷ 1 ∷ 0 ∷ 1 ∷ 103 ∷ 208 ∷ 140 ∷ 1 ∷ 152 ∷ 142 ∷ 1 ∷ 132 ∷ 2 ∷ 5 ∷ 3 ∷ 122 ∷ 111
    ∷ 101 ∷ 4 ∷ 2 ∷ 49 ∷ 55 ∷ 0 ∷ 208 ∷ 140 ∷ 1 ∷ 152 ∷ 142 ∷ 1 ∷ 132 ∷ 2 ∷ 5 ∷ []

two_payload-encoded : encode_payload two_players ≡ ok two_payload
unfolding encode_payload append_varint
two_payload-encoded = refl

decode-encode_payload_example :
    (out : Assoc Bytes PlayerData) × (decode_player_db_payload two_payload ≡ ok out)
    × ((k : Bytes) → lookup k out ≡ stored (lookup k two_players))
decode-encode_payload_example =
    decode-encode_payload two_players two_payload ((refl, tt), (tt, tt)) two_players-WellTyped
      two_payload-encoded

encode_payload-length_example : length two_payload ≤ max_player_db_payload
encode_payload-length_example = encode_payload-length two_players two_payload two_payload-encoded

-- A compression that keeps every byte, and no JSON.
abbrev plain_codecs : Codecs
plain_codecs = record {
  init_ok = true;
  encode_all = λ bs. bs;
  decode_all = λ bs. some bs;
  marshal_indent = λ m. err bad_json;
  unmarshal = λ bs. none;
}

abbrev two_file : Bytes
two_file =
    67 ∷ 87 ∷ 80 ∷ 76 ∷ 65 ∷ 89 ∷ 69 ∷ 82 ∷ 1 ∷ 0 ∷ 1 ∷ 0 ∷ 35 ∷ 0 ∷ 0 ∷ 0 ∷ 0 ∷ 0 ∷ 0 ∷ 0 ∷ 176
    ∷ 13 ∷ 211 ∷ 177 ∷ two_payload

two_file-encoded : encode_player_database plain_codecs two_players (some binary) ≡ ok two_file
unfolding encode_player_database encode_binary_player_database put_uint checksum encode_payload
    append_varint
two_file-encoded = refl

decode-encode_player_database_example :
    (out : Assoc Bytes PlayerData) × (decode_player_database plain_codecs two_file
      ≡ (ok out, binary))
    × ((k : Bytes) → lookup k out ≡ stored (lookup k two_players))
decode-encode_player_database_example =
    decode-encode_player_database plain_codecs two_players two_file (λ p h. refl)
      ((refl, tt), (tt, tt)) two_players-WellTyped two_file-encoded

-- A codec that keeps the map, without what the file does not store.
strip : Assoc Bytes PlayerData → Assoc Bytes PlayerData
strip [] = []
strip ((k, p) ∷ m) = (k, persisted p) ∷ strip m

strip-lookup :
    (k : Bytes) (m : Assoc Bytes PlayerData) → lookup k (strip m) ≡ as_stored (lookup k m)
unfolding lookup strip
strip-lookup k [] = refl
strip-lookup k ((j, p) ∷ m) = ground (arith, strip-lookup k m)

abbrev map_codec : Codec (Assoc Bytes PlayerData)
map_codec = record { decode = λ f. some f; encode = λ m. some (strip m) }

map_codec-ReadsBack : (m : Assoc Bytes PlayerData) → ReadsBack map_codec m
map_codec-ReadsBack m f e = (f, refl, λ k. ap (lookup k) (sym (some-inj e)) ∙ strip-lookup k m)

-- Names that are in lower case already.
abbrev plain_text : Text
plain_text = record { to_lower = λ k. k; trim_space = λ k. k }

-- The change of "al" is pending when the write begins; "zoe" is seen while it runs.
abbrev pending_store : Store
pending_store = record {
  player_list = (97 ∷ 108 ∷ [], al) ∷ [];
  versions = (97 ∷ 108 ∷ [], 1) ∷ [];
  next = 1;
  list_dirty = true;
  stats_dirty = false;
  calls = [];
}

abbrev while_writing : List Edit
while_writing =
    set_level_of (pos 5) (122 ∷ []) (pos 2) false true ∷ see (pos 6) (97 ∷ 108 ∷ []) ∷ []

nothing_else :
    (k : Bytes)
    → lookup k pending_store.versions ≡ none
    → none ≡ as_stored (lookup k pending_store.player_list)
unfolding lookup
nothing_else k h = ground arith

pending_store-Saved : Saved map_codec none pending_store
unfolding lookup
pending_store-Saved = record { old = (omega arith, tt); saved = λ k h. nothing_else k h }

abbrev all_well : WriteEnv
all_well = record { lock_ok = true; read_ok = true; write_ok = true }

write_players-Saved_example :
    Saved map_codec
      (write_players map_codec all_well pending_store none
        (apply_all plain_text while_writing pending_store)).1
      (write_players map_codec all_well pending_store none
        (apply_all plain_text while_writing pending_store)).0
write_players-Saved_example =
    write_players-Saved map_codec plain_text all_well none pending_store while_writing
      pending_store-Saved (((refl, ground arith), refl), (((refl, ground arith), refl), tt))
      (omega arith) (λ m d. map_codec-ReadsBack _)

-- The file's own codec: "al" is encodable, and the file does not exist yet.
al-Encodable : Encodable ((97 ∷ 108 ∷ [], al) ∷ [])
al-Encodable = record {
  distinct = (tt, tt);
  typed = (
    record { named = ground arith; in_range = λ p e. subst InRange (some-inj e) al-InRange },
    tt,
  );
}

merged-Encodable :
    (m : Assoc Bytes PlayerData)
    → some [] ≡ some m
    → Encodable (
        merge_player_changes m
          (snapshot_player_changes pending_store.player_list pending_store.versions))
unfolding merge_player_changes snapshot_player_changes lookup insert erase
merged-Encodable m h =
    subst (λ x. Encodable (merge_player_changes x ((97 ∷ 108 ∷ [], some al) ∷ []))) (some-inj h)
      al-Encodable

nothing_on_disk : Saved (file_codec plain_codecs) none pending_store
unfolding lookup
nothing_on_disk = record { old = (omega arith, tt); saved = λ k h. nothing_else k h }

write_players-OnDisk_example :
    Saved
      (file_codec plain_codecs)
      (write_players
        (file_codec plain_codecs)
        all_well
        pending_store
        none
        (apply_all plain_text while_writing pending_store)).1
      (write_players
        (file_codec plain_codecs)
        all_well
        pending_store
        none
        (apply_all plain_text while_writing pending_store)).0
write_players-OnDisk_example =
    write_players-OnDisk plain_codecs plain_text all_well none pending_store while_writing
      (λ p h. refl) nothing_on_disk
      (((refl, ground arith), refl), (((refl, ground arith), refl), tt)) (omega arith)
      merged-Encodable
