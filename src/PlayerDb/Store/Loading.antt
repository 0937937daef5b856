-- ===== src/PlayerDb/Store/Loading.antt =====
-- `LoadPlayers` of fact/playerDB.go: the file is read into the players in memory. The entries of the file come in
-- the order in which Go's map gives them.
use chat_wire.Common.{
  ℕ, suc, Bool, true, false, not, ◌&&◌, ◌||◌, ltb, ◌==◌, Option, none, some, List, [], ◌∷◌, ◌++◌,
  if◌then◌else◌, Bytes, bytes_beq, bytes_eq,
}
use chat_wire.Common.Assoc.{Assoc, lookup, erase}
use chat_wire.Common.Decimal.{parse_uint}
use chat_wire.PlayerDb.Data.{ℤ, pos, negsuc, zero_ℤ, PlayerData, beq_ℤ, ltb_ℤ}
use chat_wire.PlayerDb.Store.{
  Text, Store, sync_online_player_level, call, player_change_pending, set_player_list_dirty,
}
use chat_wire.PlayerDb.Store.Changes.{add_player}

abbrev pub veteran_thresh : ℤ
veteran_thresh = pos 4320

-- The arguments of `LoadPlayers`.
pub record Mode : Type 0 where
  pub boot : Bool
  pub minimize : Bool
  pub clear_bans : Bool

-- The memory while the entries are gone through; a change of a level is kept with the name, the old and
-- the new level.
pub record Load : Type 0 where
  pub store : Store
  pub changed_names : List Bytes
  pub level_changes : List (Bytes × ℤ × ℤ)
  pub ban_count : ℕ
  pub do_ban : Bool
  pub removed : ℕ

-- A reload while the program runs.
abbrev pub is_reload : Mode → Bool
is_reload m = not m.boot && not m.minimize && not m.clear_bans

abbrev pub is_among : Bytes → List Bytes → Bool
is_among k [] = false
is_among k (j ∷ js) = bytes_beq j k || is_among k js

-- `changedNames[pname] = struct{}{}`.
abbrev pub note_name : Bytes → List Bytes → List Bytes
note_name k ks = if is_among k ks then ks else ks ++ k ∷ []

abbrev pub drop_player : Bytes → Load → Load
drop_player k l = record l {
  removed = suc l.removed;
  store = record l.store { player_list = erase k l.store.player_list };
  changed_names = note_name k l.changed_names;
}

-- The ID is no positive number: old files have reasons of bans there.
abbrev pub is_bad_id : Bytes → Bool
is_bad_id id = elim (parse_uint id) [ none ↦ true | some n ↦ n == 0 ]

abbrev pub without_scores : PlayerData → PlayerData
without_scores p =
    if ltb_ℤ zero_ℤ p.level
    then record p { sus_score = zero_ℤ; ban_reason = []; spam_score = zero_ℤ }
    else p

abbrev pub with_fixed_id : PlayerData → PlayerData
with_fixed_id p = if is_bad_id p.id then record p { ban_reason = p.id; id = [] } else p

abbrev pub without_zero_id : PlayerData → PlayerData
without_zero_id p = if bytes_beq p.id (48 ∷ []) then record p { id = [] } else p

-- What `minimize` makes of a player that it keeps.
abbrev pub minimized : PlayerData → PlayerData
minimized p = without_zero_id (with_fixed_id (without_scores p))

abbrev pub is_promoted : PlayerData → Bool
is_promoted p = beq_ℤ p.level (pos 2) && ltb_ℤ veteran_thresh p.minutes

abbrev pub promoted : PlayerData → PlayerData
promoted p = if is_promoted p then record p { level = pos 3 } else p

abbrev pub level_of : Option PlayerData → ℤ
level_of none = zero_ℤ
level_of (some p) = p.level

abbrev pub is_level_change : Option PlayerData → ℤ → Bool
is_level_change none level = true
is_level_change (some p) level = not (beq_ℤ p.level level)

abbrev pub count_ban : Bool → ℕ → ℕ
count_ban banned n = if banned then suc n else n

-- The end of the loop's body: bans stop after six, a promotion is noted, and the player is added.
abbrev pub add_entry : Text → Mode → Bytes → PlayerData → Option PlayerData → Load → Load
add_entry t m k p previous l =
    let p' = promoted p in
    let do_ban = l.do_ban && not (ltb 5 l.ban_count) in
    let (store, banned) = add_player t k p' (do_ban && not m.boot) l.store in
    record l {
      store = store;
      do_ban = do_ban;
      ban_count = count_ban banned l.ban_count;
      changed_names = if is_promoted p then note_name k l.changed_names else l.changed_names;
      level_changes =
          if is_reload m && is_level_change previous p'.level
          then l.level_changes ++ (k, level_of previous, p'.level) ∷ []
          else l.level_changes;
    }

-- One entry of the file.
unfoldable pub load_entry : Text → Mode → Bytes → PlayerData → Load → Load
load_entry t m k p l =
    if is_reload m && player_change_pending t k l.store
    then l
    else if m.clear_bans && ltb_ℤ p.level zero_ℤ
    then drop_player k l
    else if m.minimize && (beq_ℤ p.level zero_ℤ || beq_ℤ p.level (negsuc 254))
    then drop_player k l
    else if m.minimize
    then add_entry t m k (minimized p) (lookup k l.store.player_list)
        (record l { changed_names = note_name k l.changed_names })
    else add_entry t m k p (lookup k l.store.player_list) l

unfoldable pub load_entries : Text → Mode → Assoc Bytes PlayerData → Load → Load
load_entries t m [] l = l
load_entries t m ((k, p) ∷ players) l = load_entries t m players (load_entry t m k p l)

-- After the loop the game is told of the levels, and the changed names are marked.
abbrev pub tell_levels : List (Bytes × ℤ × ℤ) → Store → Store
tell_levels [] s = s
tell_levels ((k, old, new) ∷ changes) s =
    tell_levels changes (call (sync_online_player_level k old new ∷ []) s)

unfoldable pub mark_names : Text → List Bytes → Store → Store
mark_names t [] s = s
mark_names t (k ∷ ks) s = mark_names t ks (set_player_list_dirty t k s)

abbrev pub begin_load : Store → Load
begin_load s = record {
  store = s;
  changed_names = [];
  level_changes = [];
  ban_count = 0;
  do_ban = true;
  removed = 0;
}

abbrev pub end_load : Text → Load → Store
end_load t l = mark_names t l.changed_names (tell_levels l.level_changes l.store)

-- `LoadPlayers` on what the file is decoded to; nothing happens where it cannot be read or decoded.
unfoldable pub load_players : Text → Mode → Option (Assoc Bytes PlayerData) → Store → Store
load_players t m none s = s
load_players t m (some players) s = end_load t (load_entries t m players (begin_load s))
