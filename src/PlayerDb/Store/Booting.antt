-- ===== src/PlayerDb/Store/Booting.antt =====
-- A start of the program (fact/playerDB.go): `LoadPlayers` at boot, and after what was written before.
use chat_wire.Common.{
  ◌≡◌, true, false, Option, none, some, [], ◌∷◌, Bytes, bytes_beq, bytes_eq, All,
}
use chat_wire.Common.Assoc.{Assoc, lookup}
use chat_wire.PlayerDb.Data.{zero_ℤ, PlayerData}
use chat_wire.PlayerDb.Store.{Text, Store, bad_name}
use chat_wire.PlayerDb.Store.Loading.{Mode, promoted}

abbrev pub boot_mode : Mode
boot_mode = record { boot = true; minimize = false; clear_bans = false }

-- A name of the file is in lower case and neither empty nor too long.
abbrev pub FitsName : Text → Bytes × PlayerData → Type 0
FitsName t e = (t.to_lower e.0 ≡ e.0) × (bad_name e.0 ≡ false)

-- No name stands in the file twice.
unfoldable pub OneName : Assoc Bytes PlayerData → Type 0
OneName [] = Unit
OneName ((k, p) ∷ players) = All (λ e. bytes_beq k e.0 ≡ false) players × OneName players

-- A player of the file in memory: a member who has played for three days is a veteran, and what the file
-- does not have is new.
abbrev pub in_memory : Bytes → PlayerData → PlayerData
in_memory k p = record (promoted p) { name = k; already_banned = false; spam_score = zero_ℤ }

abbrev pub loaded : Bytes → Option PlayerData → Option PlayerData
loaded k none = none
loaded k (some p) = some (in_memory k p)

abbrev pub or_else : Option PlayerData → Option PlayerData → Option PlayerData
or_else none o = o
or_else (some p) o = some p

abbrev pub Fresh : Assoc Bytes PlayerData → Bytes × PlayerData → Type 0
Fresh list e = lookup e.0 list ≡ none
