-- ===== src/PlayerDb/Store/Changes.antt =====
-- Loading a player and writing the pending changes (fact/playerDB.go). The file's codec is an argument:
-- `decode` and `encode` are those of fact/playerdb_codec.go in the configured format.
use chat_wire.Common.{
  ℕ, Bool, true, false, not, ◌&&◌, ◌==◌, Option, none, some, List, [], ◌∷◌, ◌++◌, if◌then◌else◌,
  Bytes, bytes_eq, length,
}
use chat_wire.Common.Assoc.{Assoc, lookup, insert, erase}
use chat_wire.PlayerDb.Data.{ℤ, pos, negsuc, zero_ℤ, PlayerData, beq_ℤ, ltb_ℤ}
use chat_wire.PlayerDb.Store.{
  Text, Store, Call, write_ban, write_unban, sync_player_admin_access, whitelist_player, is_blank,
  bad_name, put, call, signal_player_list_dirty,
}

-- `id != ""`.
abbrev pub is_registered : Bytes → Bool
is_registered id = not (is_blank id)

-- `level >= 0`.
abbrev pub natural : ℤ → Bool
natural (pos n) = true
natural (negsuc n) = false

-- The first branches of `addPlayer` on a known player: deleted, banned, unbanned.
unfoldable pub moved : Bytes → ℤ → Bytes → Bool → PlayerData → PlayerData × List Call × Bool
moved k level reason do_ban p =
    if ltb_ℤ level (negsuc 252)
    then (record p { id = 48 ∷ [] }, [], false)
    else if beq_ℤ level (negsuc 0) && natural p.level && do_ban
    then (p, write_ban k reason ∷ [], true)
    else if natural level && beq_ℤ p.level (negsuc 0)
    then (p, write_unban k ∷ [], false)
    else (p, [], false)

-- The level, with the calls where it changes.
unfoldable pub moved_level : Bytes → ℤ → PlayerData → PlayerData × List Call
moved_level k level p = if beq_ℤ level p.level then (p, []) else (
  record p { level = level },
  sync_player_admin_access k p.level level ∷ whitelist_player k level ∷ [],
)

-- The rest of `addPlayer` on a known player: each field is taken over under its own condition.
unfoldable pub refreshed : ℤ → PlayerData → PlayerData → PlayerData
refreshed level new p = record p {
  creation = if ltb_ℤ zero_ℤ new.creation then new.creation else p.creation;
  last_seen = if ltb_ℤ p.last_seen new.last_seen then new.last_seen else p.last_seen;
  id = if natural level && is_registered new.id then new.id else p.id;
  sus_score =
      if ltb_ℤ level (pos 2) && natural level && not (beq_ℤ new.sus_score zero_ℤ)
      then new.sus_score
      else p.sus_score;
  minutes =
      if natural level && ltb_ℤ zero_ℤ new.minutes && ltb_ℤ p.minutes new.minutes
      then new.minutes
      else p.minutes;
}

-- `addPlayer` on the player that the file has under a name; the result says that a ban was written.
unfoldable pub add : Bytes → PlayerData → Bool → Option PlayerData → Store → Store × Bool
unfolding moved moved_level refreshed
add k new do_ban (some p) s =
    let (p1, calls1, banned) = moved k new.level new.ban_reason do_ban p in
    let (p2, calls2) = moved_level k new.level p1 in
    let calls3 =
      if ltb_ℤ p2.last_seen new.last_seen then whitelist_player k new.level ∷ [] else [] in
    (call (calls1 ++ calls2 ++ calls3) (put k (refreshed new.level new p2) s), banned)
add k new do_ban none s =
    let banned = beq_ℤ new.level (negsuc 0) && do_ban in
    let p = record new { name = k; already_banned = false; spam_score = zero_ℤ } in
    (
      call
          ((if banned then write_ban k new.ban_reason ∷ [] else [])
            ++ sync_player_admin_access k zero_ℤ new.level ∷ whitelist_player k new.level ∷ [])
          (put k p s),
      banned,
    )

unfoldable pub add_player : Text → Bytes → PlayerData → Bool → Store → Store × Bool
unfolding add
add_player t iname new do_ban s =
    let k = t.to_lower iname in
    if bad_name iname then (s, false) else add k new do_ban (lookup k s.player_list) s

-- `snapshotPlayerChanges`: for each pending name a copy of the player, or nil where there is none.
-- The versions that it also returns are `s.versions`.
unfoldable pub snapshot_player_changes :
    Assoc Bytes PlayerData → Assoc Bytes ℕ → Assoc Bytes (Option PlayerData)
snapshot_player_changes players [] = []
snapshot_player_changes players ((k, v) ∷ versions) =
    (k, lookup k players) ∷ snapshot_player_changes players versions

-- `completePlayerChanges`: a change is over unless its version has moved on.
abbrev pub is_version : ℕ → Option ℕ → Bool
is_version v none = false
is_version v (some u) = u == v

unfoldable pub complete_player_changes : Assoc Bytes ℕ → Assoc Bytes ℕ → Assoc Bytes ℕ
complete_player_changes [] versions = versions
complete_player_changes ((k, v) ∷ done) versions =
    complete_player_changes done
      (if is_version v (lookup k versions) then erase k versions else versions)

-- `mergePlayerChanges`.
unfoldable pub merge_player_changes :
    Assoc Bytes PlayerData → Assoc Bytes (Option PlayerData) → Assoc Bytes PlayerData
merge_player_changes players [] = players
merge_player_changes players ((k, none) ∷ changes) = merge_player_changes (erase k players) changes
merge_player_changes players ((k, some p) ∷ changes) =
    merge_player_changes (insert k p players) changes

-- What a write meets: whether the lock is taken, the file is read, and the new file is put down.
pub record WriteEnv : Type 0 where
  pub lock_ok : Bool
  pub read_ok : Bool
  pub write_ok : Bool

-- The codec on files of a type `F`; `none` is an error.
pub record Codec (F : Type 0) : Type 0 where
  pub decode : F → Option (Assoc Bytes PlayerData)
  pub encode : Assoc Bytes PlayerData → Option F

-- The players of the file, none of them where it does not exist.
abbrev pub on_disk : {F : Type 0} → Codec F → Option F → Option (Assoc Bytes PlayerData)
on_disk c none = some []
on_disk c (some f) = c.decode f

abbrev pub encoded :
    {F : Type 0}
    → Codec F
    → Assoc Bytes (Option PlayerData)
    → Option (Assoc Bytes PlayerData)
    → Option F
encoded c changes none = none
encoded c changes (some players) = c.encode (merge_player_changes players changes)

-- `WritePlayers` from the lock to the new file: the file, or none where a step fails.
unfoldable pub new_file :
    {F : Type 0} → Codec F → WriteEnv → Assoc Bytes (Option PlayerData) → Option F → Option F
new_file c env changes disk =
    if env.lock_ok && env.read_ok && env.write_ok then encoded c changes (on_disk c disk) else none

abbrev pub end_write : {F : Type 0} → Assoc Bytes ℕ → Option F → Option F → Store → Store × Option F
end_write versions none disk s = (signal_player_list_dirty s, disk)
end_write versions (some f) disk s =
    (record s { versions = complete_player_changes versions s.versions }, some f)

-- `WritePlayers`: `s` is the store when the changes are copied, `now` the store when the write is over,
-- which other calls may have changed.
unfoldable pub write_players :
    {F : Type 0} → Codec F → WriteEnv → Store → Option F → Store → Store × Option F
unfolding new_file snapshot_player_changes complete_player_changes merge_player_changes
write_players c env s disk now =
    let changes = snapshot_player_changes s.player_list s.versions in
    if length changes == 0
    then (now, disk)
    else end_write s.versions (new_file c env changes disk) disk now
