-- ===== src/PlayerDb/Store/Writing.antt =====
-- No change of a player is lost by a write of the database (fact/playerDB.go, `WritePlayers`), whatever
-- calls change players while the write runs.
use chat_wire.Common.{
  ℕ, ◌+◌, ◌^◌, ◌≤◌, ◌<◌, ◌≡◌, ◌⊎◌, inl, inr, refl, sym, ap, ◌∙◌, Option, none, some, List, arith,
  Bytes, bytes_eq, length, All, ◌==◌, if-All,
}
use chat_wire.Common.Assoc.{Assoc, lookup}
use chat_wire.PlayerDb.Data.{PlayerData}
use chat_wire.PlayerDb.Payload.Decode.{persisted}
use chat_wire.PlayerDb.Store.{Text, Store}
use chat_wire.PlayerDb.Store.Changes.{
  snapshot_player_changes, complete_player_changes, merge_player_changes, WriteEnv, Codec, on_disk,
  encoded, new_file, end_write, write_players,
}
use chat_wire.PlayerDb.Store.Edits.{Edit, Allowed, apply_all, KeptAt, NewAt, Moved, apply_all-Moved}
use chat_wire.PlayerDb.Store.Merging.{merge-lookup, complete-lookup, complete-All}

abbrev pub look : Bytes → Option (Assoc Bytes PlayerData) → Option PlayerData
look k none = none
look k (some m) = lookup k m

-- What the file says of a player.
abbrev pub disk_lookup : {F : Type 0} → Codec F → Option F → Bytes → Option PlayerData
disk_lookup c disk k = look k (on_disk c disk)

abbrev pub as_stored : Option PlayerData → Option PlayerData
as_stored none = none
as_stored (some p) = some (persisted p)

-- The codec reads back what it has written of a map, up to what it does not store.
abbrev pub ReadsBack : {F : Type 0} → Codec F → Assoc Bytes PlayerData → Type 0
ReadsBack {F} c m =
    (f : F)
    → c.encode m ≡ some f
    → (out : Assoc Bytes PlayerData) × (c.decode f ≡ some out)
      × ((k : Bytes) → lookup k out ≡ as_stored (lookup k m))

-- Every name that is not pending is on disk as it is in memory; the pending versions are not newer
-- than the counter.
pub record Saved {F : Type 0} (c : Codec F) (disk : Option F) (s : Store) : Type 0 where
  pub old : All (λ e. e.1 ≤ s.next) s.versions
  pub saved :
      (k : Bytes)
      → lookup k s.versions ≡ none
      → disk_lookup c disk k ≡ as_stored (lookup k s.player_list)

as_stored_idem : (o : Option PlayerData) → as_stored (as_stored o) ≡ as_stored o
as_stored_idem none = refl
as_stored_idem (some p) = refl

-- The new file, under a name that is not pending once the write is over.
module _ {F : Type 0} (c : Codec F) (disk : Option F) (s u : Store) (v : Saved c disk s) where
  written-at :
      (m out : Assoc Bytes PlayerData) (k : Bytes)
      → on_disk c disk ≡ some m
      → lookup k out
        ≡ as_stored
            (lookup k (merge_player_changes m (snapshot_player_changes s.player_list s.versions)))
      → KeptAt k s u ⊎ NewAt k s u
      → (lookup k u.versions ≡ none) ⊎ ((n : ℕ) × (lookup k u.versions ≡ some n) × (n ≤ s.next))
      → lookup k out ≡ as_stored (lookup k u.player_list)
  written-at m out k d e (inl (kp, kv)) (inl h) =
      e
      ∙ ap as_stored (merge-lookup k s.player_list m s.versions)
      ∙ rw (sym kv ∙ h) (
          ap as_stored (sym (ap (look k) d) ∙ v.saved k (sym kv ∙ h))
          ∙ as_stored_idem (lookup k s.player_list)
          ∙ ap as_stored (sym kp))
  written-at m out k d e (inl (kp, kv)) (inr (n, h, l)) =
      e
      ∙ ap as_stored (merge-lookup k s.player_list m s.versions)
      ∙ rw (sym kv ∙ h) (ap as_stored (sym kp))
  written-at m out k d e (inr (n, h, l)) (inl h') = ground arith
  written-at m out k d e (inr (n, h, l)) (inr (n', h', l')) = ground arith

  -- A file that has been written.
  ended-Saved :
      (m out : Assoc Bytes PlayerData) (f : F)
      → on_disk c disk ≡ some m
      → c.decode f ≡ some out
      → ((k : Bytes)
          → lookup k out
            ≡ as_stored (
                lookup k
                  (merge_player_changes m (snapshot_player_changes s.player_list s.versions))))
      → All (λ e. e.1 ≤ u.next) u.versions
      → Moved s u
      → Saved c (some f) (record u { versions = complete_player_changes s.versions u.versions })
  ended-Saved m out f d e back old moved = record {
    old = complete-All _ s.versions u.versions old;
    saved = λ k h. rw e (
        written-at m out k d (back k) (moved.at k)
          (complete-lookup s.next k s.versions u.versions v.old h));
  }

  -- Where nothing is written, what was saved is still saved or pending.
  unwritten-Saved : Moved s u → Saved c disk u
  unwritten-Saved moved = record {
    old = moved.bounded v.old;
    saved = λ k h. moved_saved k h (moved.at k);
  }
    where
      moved_saved :
          (k : Bytes)
          → lookup k u.versions ≡ none
          → KeptAt k s u ⊎ NewAt k s u
          → disk_lookup c disk k ≡ as_stored (lookup k u.player_list)
      moved_saved k h (inl (kp, kv)) = v.saved k (sym kv ∙ h) ∙ ap as_stored (sym kp)
      moved_saved k h (inr (n, e, l)) = ground arith

encoded-some :
    {F : Type 0} (c : Codec F) (changes : Assoc Bytes (Option PlayerData))
    (o : Option (Assoc Bytes PlayerData)) (f : F)
    → encoded c changes o ≡ some f
    → (m : Assoc Bytes PlayerData) × (o ≡ some m)
      × (c.encode (merge_player_changes m changes) ≡ some f)
encoded-some c changes none f h = ground arith
encoded-some c changes (some m) f h = (m, refl, h)

new_file-some :
    {F : Type 0} (c : Codec F) (env : WriteEnv) (changes : Assoc Bytes (Option PlayerData))
    (disk : Option F) (f : F)
    → new_file c env changes disk ≡ some f
    → encoded c changes (on_disk c disk) ≡ some f
unfolding new_file
new_file-some c env changes disk f h = ground arith

-- What the end of a write leaves, whether there is a new file or none.
ended :
    {F : Type 0} (c : Codec F) (disk : Option F) (s u : Store) (new : Option F)
    → Saved c disk s
    → Moved s u
    → ((f : F)
        → new ≡ some f
        → encoded c (snapshot_player_changes s.player_list s.versions) (on_disk c disk) ≡ some f)
    → ((m : Assoc Bytes PlayerData)
        → on_disk c disk ≡ some m
        → ReadsBack c (merge_player_changes m (snapshot_player_changes s.player_list s.versions)))
    → Saved c (end_write s.versions new disk u).1 (end_write s.versions new disk u).0
ended c disk s u none v moved made back =
    let same = unwritten-Saved c disk s u v moved in record { old = same.old; saved = same.saved }
ended c disk s u (some f) v moved made back =
    let (m, d, e) = encoded-some c _ (on_disk c disk) f (made f refl) in
    let (out, read, found) = back m d f e in
    ended-Saved c disk s u v m out f d read found (moved.bounded v.old) moved

finished-Saved :
    {F : Type 0} (c : Codec F) (env : WriteEnv) (disk : Option F) (s u : Store)
    → Saved c disk s
    → Moved s u
    → ((m : Assoc Bytes PlayerData)
        → on_disk c disk ≡ some m
        → ReadsBack c (merge_player_changes m (snapshot_player_changes s.player_list s.versions)))
    → Saved c (write_players c env s disk u).1 (write_players c env s disk u).0
unfolding write_players new_file
finished-Saved {F} c env disk s u v moved back =
    let changes = snapshot_player_changes s.player_list s.versions in
    let nothing = unwritten-Saved c disk s u v moved in
    let Q = λ (o : Store × Option F). Saved c o.1 o.0 in
    if-All Q (length changes == 0) nothing
      (ended c disk s u _ v moved (new_file-some c env changes disk) back)

-- Let everything be saved that is not pending: for every name that is not pending the file has the
-- player that is in memory, up to what it does not store. Then the same holds after a write, whatever
-- calls change players while it runs and whether or not it fails: a change is in the new file, or is
-- still pending and comes with the next write. The conditions: the names of those calls have no blanks
-- around them and are not empty, none is a deletion that the game reports, the version counter does
-- not reach 2^64, and the codec reads back the merged players if it writes them.
pub write_players-Saved :
    {F : Type 0} (c : Codec F) (t : Text) (env : WriteEnv) (disk : Option F) (s : Store)
    (es : List Edit)
    → Saved c disk s
    → All (Allowed t) es
    → s.next + length es < 2 ^ 64
    → ((m : Assoc Bytes PlayerData)
        → on_disk c disk ≡ some m
        → ReadsBack c (merge_player_changes m (snapshot_player_changes s.player_list s.versions)))
    → Saved c
        (write_players c env s disk (apply_all t es s)).1
        (write_players c env s disk (apply_all t es s)).0
write_players-Saved c t env disk s es v allowed room back =
    finished-Saved c env disk s (apply_all t es s) v (apply_all-Moved t es s allowed room) back
