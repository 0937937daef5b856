-- ===== src/Examples/Loads.antt =====
-- `LoadPlayers` (fact/playerDB.go) at concrete inputs.
use chat_wire.Common.{ℕ, ◌≡◌, refl, true, false, some, [], ◌∷◌, Bytes, bytes_eq}
use chat_wire.Common.Assoc.{Assoc, lookup}
use chat_wire.PlayerDb.Data.{pos, negsuc, zero_ℤ, PlayerData}
use chat_wire.PlayerDb.Store.{Text, Store}
use chat_wire.PlayerDb.Store.Changes.{Codec}
use chat_wire.PlayerDb.Store.Loading.{Mode, load_players}
use chat_wire.PlayerDb.Store.Loaded.{load_players-Left}

abbrev as_is : Text
as_is = record { to_lower = λ k. k; trim_space = λ k. k }

-- "al" has played for four days.
abbrev al : Bytes
al = 97 ∷ 108 ∷ []

abbrev member : PlayerData
member = record {
  name = al;
  level = pos 2;
  id = 49 ∷ [];
  ban_reason = [];
  creation = pos 10;
  last_seen = pos 20;
  minutes = pos 5760;
  sus_score = zero_ℤ;
  already_banned = false;
  spam_score = zero_ℤ;
}

abbrev banned_member : PlayerData
banned_member = record member { level = negsuc 0; ban_reason = 104 ∷ [] }

abbrev stored_member : PlayerData
stored_member = record member { name = [] }

-- A ban that is not written yet.
abbrev with_change : Store
with_change = record {
  player_list = (al, banned_member) ∷ [];
  versions = (al, 7) ∷ [];
  next = 7;
  list_dirty = true;
  stats_dirty = false;
  calls = [];
}

abbrev written : Store
written = record with_change { player_list = (al, member) ∷ []; versions = []; list_dirty = false }

abbrev reload_mode : Mode
reload_mode = record { boot = false; minimize = false; clear_bans = false }

change_pending : lookup al with_change.versions ≡ some 7
unfolding lookup
change_pending = refl

load_players-Left_example :
    (let u = load_players as_is reload_mode (some ((al, member) ∷ [])) with_change in
      (lookup al u.player_list ≡ lookup al ((al, banned_member) ∷ []))
      × ((w : ℕ) × (lookup al u.versions ≡ some w)))
load_players-Left_example =
    load_players-Left as_is reload_mode ((al, member) ∷ []) with_change al 7 refl change_pending

abbrev plain_codec : Codec (Assoc Bytes PlayerData)
plain_codec = record { decode = λ f. some f; encode = λ m. some m }

abbrev new_process : Store
new_process = record written { player_list = []; next = 0 }
