-- ===== src/Examples/Maps.antt =====
-- Map exchange strings (fact/mapExchange.go) at concrete inputs.
use chat_wire.Common.{ℕ, ◌≡◌, refl, [], ◌∷◌, Bytes}
use chat_wire.Common.Int.{◌+ℤ◌}
use chat_wire.Common.Result.{err}
use chat_wire.MapExchange.Settings.{map_gen_settings}
use chat_wire.MapExchange.Reader.{text_too_long, read, read_uint}
use chat_wire.MapExchange.Parse.{version_at_least, read_version, parse_raw, unreadable, origin}
use chat_wire.MapExchange.Parse.Failing.{parse_raw-failed}

-- Twelve bytes end in the middle of the first autoplace control.
abbrev cut_off : Bytes
cut_off = 2 ∷ 0 ∷ 0 ∷ 0 ∷ 0 ∷ 0 ∷ 0 ∷ 0 ∷ 0 ∷ 1 ∷ 200 ∷ 5 ∷ []

parse_raw-failed_example : parse_raw {J = ℕ} cut_off ≡ err (unreadable text_too_long)
unfolding read_version read_uint read map_gen_settings version_at_least ◌+ℤ◌
parse_raw-failed_example = parse_raw-failed cut_off (5 ∷ []) text_too_long origin refl refl
