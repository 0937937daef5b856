-- ===== src/PlayerDb/Payload/Encode.antt =====
-- What the encoder of the player database appends (fact/playerdb_codec.go), where it succeeds.
use chat_wire.Common.{
  ◌≤◌, ◌≡◌, sym, ap, ◌∙◌, false, ltb, [], ◌∷◌, ◌++◌, arith, Bytes, bytes_eq, length, All,
}
use mathlib.Core.List.{append_assoc}
use chat_wire.Common.Assoc.{Assoc}
use chat_wire.Common.Result.{ok, ok-inj, bind-ok, refuse_if-ok}
use chat_wire.PlayerDb.Data.{
  PlayerData, string_too_long, payload_too_long, max_player_db_payload, max_player_db_string,
}
use chat_wire.PlayerDb.Varint.{
  append_uvarint, append_varint, append_uvarint-onto, append_varint-onto,
}
use chat_wire.PlayerDb.Payload.{append_player_db_string, append_record, append_records}
use chat_wire.PlayerDb.Payload.Decode.{string_onto, varint_onto, fields_onto, records_onto, Short}

pub record AllShort (e : Bytes × PlayerData) : Type 0 where
  pub name : Short e.0
  pub id : Short e.1.id
  pub reason : Short e.1.ban_reason

record Appended (dst s out : Bytes) : Type 0 where
  short : Short s
  onto : (rest : Bytes) → out ++ rest ≡ dst ++ string_onto s rest

append_string-onto :
    (dst s rest : Bytes) → (append_uvarint dst (length s) ++ s) ++ rest ≡ dst ++ string_onto s rest
append_string-onto dst s rest =
    append_assoc (append_uvarint dst (length s)) s rest
    ∙ append_uvarint-onto dst (length s) (s ++ rest)

append_string-Appended :
    (dst s out : Bytes) → append_player_db_string dst s ≡ ok out → Appended dst s out
unfolding append_player_db_string
append_string-Appended dst s out h =
    let (small, e) =
      refuse_if-ok (ltb max_player_db_string (length s)) string_too_long
        (ok (append_uvarint dst (length s) ++ s)) out h in
    record {
      short = ground arith;
      onto = λ rest.
          ap (λ (l : Bytes). l ++ rest) (sym (ok-inj _ _ e)) ∙ append_string-onto dst s rest;
    }

-- A record that the encoder takes: its strings are short, and what it appends.
record RecordAppended (dst k : Bytes) (p : PlayerData) (out : Bytes) : Type 0 where
  short : AllShort (k, p)
  bounded : length out ≤ max_player_db_payload
  onto : (rest : Bytes) → out ++ rest ≡ dst ++ string_onto k (fields_onto p rest)

-- The four numbers behind a record's strings.
abbrev pub numbers_after : Bytes → PlayerData → Bytes
numbers_after d p =
    append_varint (append_varint (append_varint (append_varint d p.creation) p.last_seen) p.minutes)
      p.sus_score

numbers_after-onto :
    (d : Bytes) (p : PlayerData) (rest : Bytes)
    → numbers_after d p ++ rest
      ≡ d
        ++ varint_onto p.creation
            (varint_onto p.last_seen (varint_onto p.minutes (varint_onto p.sus_score rest)))
numbers_after-onto d p rest =
    append_varint-onto _ p.sus_score rest
    ∙ append_varint-onto _ p.minutes _
    ∙ append_varint-onto _ p.last_seen _
    ∙ append_varint-onto d p.creation _

bounded_by :
    (d out : Bytes)
    → d ≡ out
    → ltb max_player_db_payload (length d) ≡ false
    → length out ≤ max_player_db_payload
bounded_by d out e h = ground arith

append_record-Appended :
    (dst k : Bytes) (p : PlayerData) (out : Bytes)
    → append_record dst k p ≡ ok out
    → RecordAppended dst k p out
unfolding append_record
append_record-Appended dst k p out h =
    let (d1, e1, h1) = bind-ok _ _ out h in
    let (d2, e2, h2) = bind-ok _ _ out h1 in
    let (d3, e3, h3) = bind-ok _ _ out h2 in
    let (small, e4) =
      refuse_if-ok (ltb max_player_db_payload (length (numbers_after d3 p))) payload_too_long
        (ok (numbers_after d3 p)) out h3 in
    let a1 = append_string-Appended dst k d1 e1 in
    let a2 = append_string-Appended _ p.id d2 e2 in
    let a3 = append_string-Appended d2 p.ban_reason d3 e3 in
    record {
      short = record { name = a1.short; id = a2.short; reason = a3.short };
      bounded = bounded_by _ _ (ok-inj _ _ e4) small;
      onto = λ rest.
          ap (λ (l : Bytes). l ++ rest) (sym (ok-inj _ _ e4))
          ∙ numbers_after-onto d3 p rest
          ∙ a3.onto _
          ∙ a2.onto _
          ∙ append_varint-onto d1 p.level _
          ∙ a1.onto _;
    }

-- The records that the encoder takes.
pub record AllAppended (dst : Bytes) (es : Assoc Bytes PlayerData) (out : Bytes) : Type 0 where
  pub short : All AllShort es
  pub bounded : length dst ≤ max_player_db_payload → length out ≤ max_player_db_payload
  pub onto : (rest : Bytes) → out ++ rest ≡ dst ++ records_onto es rest

pub append_records-Appended :
    (dst : Bytes) (es : Assoc Bytes PlayerData) (out : Bytes)
    → append_records dst es ≡ ok out
    → AllAppended dst es out
unfolding append_records records_onto
append_records-Appended dst [] out h = record {
  short = tt;
  bounded = λ b. ground (arith, ok-inj dst out h);
  onto = λ rest. ap (λ (l : Bytes). l ++ rest) (sym (ok-inj dst out h));
}
append_records-Appended dst ((k, p) ∷ es) out h =
    let (d, e, h1) = bind-ok _ _ out h in
    let a = append_record-Appended dst k p d e in
    let as' = append_records-Appended d es out h1 in
    record {
      short = (a.short, as'.short);
      bounded = λ b. as'.bounded a.bounded;
      onto = λ rest. as'.onto rest ∙ a.onto _;
    }
