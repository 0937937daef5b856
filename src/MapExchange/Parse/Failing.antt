-- ===== src/MapExchange/Parse/Failing.antt =====
-- A map exchange string with settings that cannot be read (fact/mapExchange.go).
use chat_wire.Common.{◌≡◌, false, ltb, Bytes, length}
use chat_wire.Common.Result.{err}
use chat_wire.MapExchange.Format.{Position}
use chat_wire.MapExchange.Settings.{map_gen_settings, map_settings}
use chat_wire.MapExchange.Reader.{Parser, ParseError, read, read_uint}
use chat_wire.MapExchange.Errors.{failed, read-Idle}
use chat_wire.MapExchange.Parse.{
  Version, at_least_v2, at_least_v21, read_version, new_parser, unreadable, finish, parse_raw,
}

-- The version of a string, and the parser after its map generation settings.
abbrev pub version_of : Bytes → Version
version_of raw = (read_version (new_parser raw)).0

abbrev pub after_gen : Bytes → Parser
after_gen raw =
    (read (map_gen_settings (at_least_v2 (version_of raw)))
      (read_uint 1 (read_version (new_parser raw)).1).1).1

-- If the parser meets an error in the version or the map generation settings of a string of four bytes or
-- more, then the string is refused with that error, whatever bytes are left.
pub parse_raw-failed :
    {J : Type 0} (raw bs : Bytes) (e : ParseError) (last : Position)
    → ltb (length raw) 4 ≡ false
    → after_gen raw ≡ failed bs e last
    → parse_raw {J = J} raw ≡ err (unreadable e)
unfolding parse_raw finish read_uint
parse_raw-failed raw bs e last long h =
    let v = version_of raw in
    rw (long, h, read-Idle (map_settings (at_least_v2 v) (at_least_v21 v)) bs e last)
