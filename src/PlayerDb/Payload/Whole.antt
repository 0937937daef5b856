-- ===== src/PlayerDb/Payload/Whole.antt =====
-- The round trip of the player database's payload (fact/playerdb_codec.go).
use chat_wire.Common.{
  ℕ, suc, ◌*◌, ◌/◌, ◌≤◌, ◌≡◌, ◌≢◌, refl, sym, ap, ◌∙◌, false, ltb, Option, none, some, [], ◌∷◌,
  ◌++◌, arith, Bytes, bytes_eq, length, All,
}
use mathlib.Core.Path.{subst}
use mathlib.Core.List.{append-nil}
use chat_wire.Common.Assoc.{Assoc, lookup}
use chat_wire.Common.Result.{ok-inj, ok, ◌>>=◌, bind-ok, refuse_if-ok}
use chat_wire.PlayerDb.Data.{
  PlayerData, max_player_db_records, max_player_db_payload, too_many_records,
}
use chat_wire.PlayerDb.Varint.{uvarint_groups, append_uvarint, read-append_uvarint}
use chat_wire.PlayerDb.Payload.{
  append_records, entries, sort_entries, encode_payload, decode_player_db_payload,
}
use chat_wire.PlayerDb.Payload.Sorted.{
  Differs, Distinct, sort_entries-Distinct, sort_entries-lookup, sort_entries-length,
  sort_entries-All,
}
use chat_wire.PlayerDb.Payload.Decode.{records_onto, InRange, persisted}
use chat_wire.PlayerDb.Payload.Encode.{AllShort, append_records-Appended}
use chat_wire.PlayerDb.Payload.RoundTrip.{
  Storable, Fresh, insert_all, or_kept, insert_all-lookup, records_onto-length,
  read_records-records_onto,
}

-- A player in a map of the program: a name that is not empty, and int64s where it is not nil.
pub record WellTyped (e : Bytes × Option PlayerData) : Type 0 where
  pub named : e.0 ≢ []
  pub in_range : (p : PlayerData) → e.1 ≡ some p → InRange p

-- What a decoder gives for a player.
abbrev pub stored : Option (Option PlayerData) → Option PlayerData
stored (some (some p)) = some (persisted p)
stored _ = none

-- The list of players that the encoder writes.
record Collected (players : Assoc Bytes (Option PlayerData)) (es : Assoc Bytes PlayerData)
    : Type 0 where
  count : length es ≡ length players
  storable : All Storable es
  distinct : Distinct es
  found : (k : Bytes) → or_kept (lookup k es) none ≡ stored (lookup k players)
  absent : (k : Bytes) → All (Differs k) players → All (Differs k) es

collected_found :
    (i k : Bytes) (p : PlayerData) (es : Assoc Bytes PlayerData)
    (players : Assoc Bytes (Option PlayerData))
    → or_kept (lookup i es) none ≡ stored (lookup i players)
    → or_kept (lookup i ((k, p) ∷ es)) none ≡ stored (lookup i ((k, some p) ∷ players))
unfolding lookup
collected_found i k p es players h = ground arith

entries-Collected :
    (players : Assoc Bytes (Option PlayerData)) (es : Assoc Bytes PlayerData)
    → Distinct players
    → All WellTyped players
    → entries players ≡ ok es
    → Collected players es
unfolding entries lookup
entries-Collected [] es d t h =
    subst (Collected []) (ok-inj [] es h)
      (record { count = refl; storable = tt; distinct = tt; found = λ k. refl; absent = λ k a. tt })
entries-Collected ((k, none) ∷ players) es d t h = ground arith
entries-Collected ((k, some p) ∷ players) es d t h =
    let (es', e, h1) = bind-ok (entries players) _ es h in
    let c = entries-Collected players es' d.1 t.1 e in
    subst (Collected ((k, some p) ∷ players)) (ok-inj ((k, p) ∷ es') es h1) (record {
      count = ap suc c.count;
      storable = (record { named = t.0.named; in_range = t.0.in_range p refl }, c.storable);
      distinct = (c.absent k d.0, c.distinct);
      found = λ i. collected_found i k p es' players (c.found i);
      absent = λ i a. (a.0, c.absent i a.1);
    })

not_ltb : {a b : ℕ} → ltb a b ≡ false → b ≤ a
not_ltb h = ground arith

no-more : (n : ℕ) → n ≤ max_player_db_records → ltb max_player_db_records n ≡ false
no-more n h = ground arith

fits : (n l : ℕ) → 9 * n ≤ l → ltb (l / 9) n ≡ false
fits n l h = ground arith

none-found : (es : Assoc Bytes PlayerData) → All (Fresh []) es
unfolding lookup
none-found [] = tt
none-found (e ∷ es) = (refl, none-found es)

lookup_sorted :
    (k : Bytes) (es : Assoc Bytes PlayerData)
    → Distinct es
    → lookup k (insert_all (sort_entries es) []) ≡ or_kept (lookup k es) none
unfolding lookup
lookup_sorted k es d =
    insert_all-lookup k (sort_entries es) [] (sort_entries-Distinct es d)
    ∙ ap (λ (o : Option PlayerData). or_kept o none) (sort_entries-lookup k es d)

-- The decoder on the count and the records that the encoder has put down.
decode_records_onto :
    (es : Assoc Bytes PlayerData)
    → length es ≤ max_player_db_records
    → All Storable es
    → All AllShort es
    → Distinct es
    → decode_player_db_payload (append_uvarint [] (length es) ++ records_onto es [])
      ≡ ok (insert_all es [])
unfolding decode_player_db_payload
decode_records_onto es few s sh d =
    rw (read-append_uvarint (length es) (records_onto es []) (omega arith)) rw
      (no-more (length es) few) rw
      (fits (length es) (length (records_onto es [])) (records_onto-length es [] s)) rw
      (read_records-records_onto es [] [] s sh d (none-found es)) refl

-- Whatever the program's map of players is, the decoder takes back the payload that the encoder made
-- of it, and the new map has for every name the same player, without the name, the flag of a ban
-- already made and the spam score, and none where there was none. The conditions are that no name
-- occurs twice, that none is empty and that the numbers are int64s.
pub decode-encode_payload :
    (players : Assoc Bytes (Option PlayerData)) (payload : Bytes)
    → Distinct players
    → All WellTyped players
    → encode_payload players ≡ ok payload
    → (out : Assoc Bytes PlayerData) × (decode_player_db_payload payload ≡ ok out)
      × ((k : Bytes) → lookup k out ≡ stored (lookup k players))
unfolding encode_payload
decode-encode_payload players payload d t h =
    let (few, h1) =
      refuse_if-ok (ltb max_player_db_records (length players)) too_many_records
        (entries players >>= λ es. append_records (append_uvarint [] (length es)) (sort_entries es))
        payload h in
    let (es, e, h2) = bind-ok (entries players) _ payload h1 in
    let c = entries-Collected players es d t e in
    let sorted = sort_entries es in
    let a = append_records-Appended (append_uvarint [] (length es)) sorted payload h2 in
    let written : payload ≡ append_uvarint [] (length sorted) ++ records_onto sorted [] =
      sym (append-nil payload)
      ∙ a.onto []
      ∙ ap (λ (n : ℕ). append_uvarint [] n ++ records_onto sorted [])
          (sym (sort_entries-length es)) in
    let few_sorted : length sorted ≤ max_player_db_records =
      omega (arith, sort_entries-length es, c.count, not_ltb few) in
    (
      insert_all sorted [],
      ap decode_player_db_payload written
          ∙ decode_records_onto sorted (few_sorted) (sort_entries-All Storable es c.storable)
              a.short (sort_entries-Distinct es c.distinct),
      λ k. lookup_sorted k es c.distinct ∙ c.found k,
    )

uvarint-bounded : (n : ℕ) → length (append_uvarint [] n) ≤ max_player_db_payload
unfolding append_uvarint uvarint_groups
uvarint-bounded n = ground arith

-- A payload that the encoder makes is within the limit that the decoder sets.
pub encode_payload-length :
    (players : Assoc Bytes (Option PlayerData)) (payload : Bytes)
    → encode_payload players ≡ ok payload
    → length payload ≤ max_player_db_payload
unfolding encode_payload
encode_payload-length players payload h =
    let (few, h1) =
      refuse_if-ok (ltb max_player_db_records (length players)) too_many_records
        (entries players >>= λ es. append_records (append_uvarint [] (length es)) (sort_entries es))
        payload h in
    let (es, e, h2) = bind-ok (entries players) _ payload h1 in
    (append_records-Appended (append_uvarint [] (length es)) (sort_entries es) payload h2).bounded
      (uvarint-bounded (length es))
