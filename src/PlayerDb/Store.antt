-- ===== src/PlayerDb/Store.antt =====
-- The players in memory (fact/playerDB.go): the changes that players and moderators make, each marked
-- with a version, and the write of the pending changes to the file. `now` is `compactNow()`.
pub mod Changes
pub mod Tracking
pub mod Edits
pub mod Merging
pub mod Loading
pub mod Loaded
pub mod Booting
pub mod Writing
pub mod OnDisk
use chat_wire.Common.{
  ℕ, ◌+◌, ◌%◌, ◌^◌, ◌≡◌, ◌≢◌, Bool, true, false, not, ◌&&◌, ◌||◌, ltb, ◌==◌, Option, none, some,
  List, [], ◌∷◌, ◌++◌, if◌then◌else◌, Bytes, bytes_beq, bytes_eq, length,
}
use chat_wire.Common.Assoc.{Assoc, lookup, insert, erase}
use chat_wire.PlayerDb.Data.{ℤ, pos, negsuc, zero_ℤ, PlayerData, beq_ℤ, ltb_ℤ}

-- Go's `strings.ToLower` and `strings.TrimSpace`.
pub record Text : Type 0 where
  pub to_lower : Bytes → Bytes
  pub trim_space : Bytes → Bytes

-- The calls that go to the game and to the ban list.
pub data Call : Type 0 where
  write_ban : Bytes → Bytes → Call
  write_unban : Bytes → Call
  sync_player_admin_access : Bytes → ℤ → ℤ → Call
  whitelist_player : Bytes → ℤ → Call
  sync_online_player_level : Bytes → ℤ → ℤ → Call

-- `glob.PlayerList`, `playerChanges`, the two dirty flags, and the calls made.
pub record Store : Type 0 where
  pub player_list : Assoc Bytes PlayerData
  pub versions : Assoc Bytes ℕ
  pub next : ℕ
  pub list_dirty : Bool
  pub stats_dirty : Bool
  pub calls : List Call

abbrev pub max_name_length : ℕ
max_name_length = 64

abbrev pub max_ban_reason_length : ℕ
max_ban_reason_length = 1024

abbrev pub is_blank : Bytes → Bool
is_blank [] = true
is_blank (b ∷ bs) = false

abbrev pub bad_name : Bytes → Bool
bad_name pname = is_blank pname || ltb max_name_length (length pname)

abbrev pub put : Bytes → PlayerData → Store → Store
put k p s = record s { player_list = insert k p s.player_list }

abbrev pub call : List Call → Store → Store
call cs s = record s { calls = s.calls ++ cs }

-- `markPlayerDirty`; the counter is a uint64.
pub mark_player_dirty : Text → Bytes → Store → Store
mark_player_dirty t pname s =
    let name = t.to_lower (t.trim_space pname) in
    let n = (s.next + 1) % 2 ^ 64 in
    if is_blank name then s else record s { next = n; versions = insert name n s.versions }

-- `playerChangePending`.
unfoldable pub player_change_pending : Text → Bytes → Store → Bool
player_change_pending t pname s = elim (lookup (t.to_lower pname) s.versions) [
  | none ↦ false
  | some v ↦ true
]

-- `signalPlayerListDirty`, `SetPlayerListDirty` and `SetPlayerStatsDirty`.
abbrev pub signal_player_list_dirty : Store → Store
signal_player_list_dirty s = record s { list_dirty = true }

pub set_player_list_dirty : Text → Bytes → Store → Store
unfolding mark_player_dirty
set_player_list_dirty t pname s = signal_player_list_dirty (mark_player_dirty t pname s)

pub set_player_stats_dirty : Text → Bytes → Store → Store
unfolding mark_player_dirty
set_player_stats_dirty t pname s = record (mark_player_dirty t pname s) { stats_dirty = true }

-- `compactNow()` in the fields of a player that is added.
abbrev pub new_player : Bytes → ℤ → Bytes → Bytes → Bool → ℤ → PlayerData
new_player name level id reason banned now = record {
  name = name;
  level = level;
  id = id;
  ban_reason = reason;
  creation = now;
  last_seen = now;
  minutes = zero_ℤ;
  sus_score = zero_ℤ;
  already_banned = banned;
  spam_score = zero_ℤ;
}

-- `PlayerSetBanReason` on a name in lower case: the store, and whether the player was known.
pub set_ban_reason : Text → ℤ → Bytes → Bytes → Bool → Option PlayerData → Store → Store × Bool
set_ban_reason t now k reason do_ban (some p) s =
    let calls = if do_ban && not p.already_banned then write_ban k reason ∷ [] else [] in
    let p' = record p {
      level = negsuc 0;
      ban_reason = if is_blank reason then p.ban_reason else reason;
      last_seen = zero_ℤ;
      creation = zero_ℤ;
      already_banned = true;
    } in
    (set_player_list_dirty t k (put k p' (call calls s)), true)
set_ban_reason t now k reason do_ban none s =
    let p = new_player k (negsuc 0) [] reason true now in
    (
      set_player_list_dirty t k (call (if do_ban then write_ban k reason ∷ [] else []) (put k p s)),
      false,
    )

pub player_set_ban_reason : Text → ℤ → Bytes → Bytes → Bool → Store → Store × Bool
unfolding set_ban_reason
player_set_ban_reason t now pname reason do_ban s =
    let k = t.to_lower pname in
    if bad_name pname || ltb max_ban_reason_length (length reason)
    then (s, false)
    else set_ban_reason t now k reason do_ban (lookup k s.player_list) s

-- `PlayerSetID`.
pub set_id : Text → ℤ → Bytes → Bytes → ℤ → Option PlayerData → Store → Store × Bool
set_id t now k id level (some p) s =
    let p' = record p { id = id; level = level; last_seen = now } in
    let calls = sync_player_admin_access k p.level level ∷ whitelist_player k level ∷ [] in
    (set_player_list_dirty t k (put k p' (call calls s)), true)
set_id t now k id level none s =
    let calls = sync_player_admin_access k zero_ℤ level ∷ whitelist_player k level ∷ [] in
    (call calls (set_player_list_dirty t k (put k (new_player k level id [] false now) s)), false)

pub player_set_id : Text → ℤ → Bytes → Bytes → ℤ → Store → Store × Bool
unfolding set_id
player_set_id t now pname id level s =
    let k = t.to_lower pname in
    if is_blank id || bad_name pname
    then (s, false)
    else set_id t now k id level (lookup k s.player_list) s

-- `UpdateSeen`.
pub seen : Text → ℤ → Bytes → Option PlayerData → Store → Store
seen t now k none s = s
seen t now k (some p) s = set_player_stats_dirty t k (put k (record p { last_seen = now }) s)

pub update_seen : Text → ℤ → Bytes → Store → Store
unfolding seen
update_seen t now pname s =
    let k = t.to_lower pname in
    if bad_name pname then s else seen t now k (lookup k s.player_list) s

-- The part of `playerLevelSet` on a known player before the Discord id is looked at.
pub change_level : Text → ℤ → Bytes → ℤ → Bool → PlayerData → Store → Store
change_level t now k level touch p s =
    if not (beq_ℤ p.level level)
    then call (whitelist_player k level ∷ []) (
        set_player_list_dirty t k (
          put k (record p { last_seen = now; level = level })
            (call (sync_player_admin_access k p.level level ∷ []) s)))
    else if touch
    then set_player_stats_dirty t k (put k (record p { last_seen = now }) s)
    else s

-- A deleted player loses the Discord id: it becomes "0".
abbrev pub delete_id : Bytes → ℤ → Option PlayerData → Store → Store
delete_id k level none s = s
delete_id k level (some p) s =
    if ltb_ℤ level (negsuc 253) then put k (record p { id = 48 ∷ [] }) s else s

pub level_set : Text → ℤ → Bytes → ℤ → Bool → Bool → Option PlayerData → Store → Store × Bool
unfolding change_level
level_set t now k level modify_only touch (some p) s =
    let s' = change_level t now k level touch p s in
    (delete_id k level (lookup k s'.player_list) s', true)
level_set t now k level true touch none s = (s, false)
level_set t now k level false touch none s = (
  call (sync_player_admin_access k zero_ℤ level ∷ whitelist_player k level ∷ [])
      (set_player_list_dirty t k (put k (new_player k level [] [] false now) s)),
  false,
)

-- `playerLevelSet`; `PlayerLevelSet` touches an unchanged player, `PlayerLevelSetFromGame` does not.
pub player_level_set : Text → ℤ → Bytes → ℤ → Bool → Bool → Store → Store × Bool
unfolding level_set
player_level_set t now pname level modify_only touch s =
    let k = t.to_lower pname in
    if bad_name pname
    then (s, false)
    else level_set t now k level modify_only touch (lookup k s.player_list) s

-- `PlayerLevelGet`.
pub level_get : Text → ℤ → Bytes → Bool → Option PlayerData → Store → Store × ℤ
level_get t now k modify_only (some p) s =
    (set_player_stats_dirty t k (put k (record p { last_seen = now }) s), p.level)
level_get t now k true none s = (s, zero_ℤ)
level_get t now k false none s =
    (set_player_list_dirty t k (put k (new_player k zero_ℤ [] [] false now) s), zero_ℤ)

pub player_level_get : Text → ℤ → Bytes → Bool → Store → Store × ℤ
unfolding level_get
player_level_get t now pname modify_only s =
    let k = t.to_lower pname in
    if bad_name pname then (s, zero_ℤ) else level_get t now k modify_only (lookup k s.player_list) s
