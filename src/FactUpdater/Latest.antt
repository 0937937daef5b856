-- ===== src/FactUpdater/Latest.antt =====
-- The choice of the release (factUpdater/latest.go). What the chat is told is left out.
use chat_wire.Common.{Bool, not, Option, List, [], if◌then◌else◌, Bytes}
use chat_wire.Common.Decimal.{text}
use chat_wire.Common.Result.{Result, ok, err, ◌>>=◌, some_or}
use chat_wire.FactUpdater.Versions.{
  VersionInts, UpdateError, InfoData, zero_version, parse_version_string, is_version_newer_than,
  is_version_equal, get_factorio_version, http_failed, bad_json,
}
use chat_wire.FactUpdater.Package.{Site, Effect, full_package}

abbrev pub release_url : Bytes
release_url = text "https://factorio.com/api/latest-releases"

-- The headless versions of the two channels, as they are written.
pub record Releases : Type 0 where
  pub stable : Bytes
  pub experimental : Bytes

-- `parseStringsLatest` sets both versions or none; its error is not looked at.
abbrev pub both_versions :
    Result UpdateError VersionInts → Result UpdateError VersionInts → VersionInts × VersionInts
both_versions (ok s) (ok x) = (s, x)
both_versions (ok s) (err e) = (zero_version, zero_version)
both_versions (err e) x = (zero_version, zero_version)

abbrev pub parse_strings_latest : Releases → VersionInts × VersionInts
parse_strings_latest r =
    both_versions (parse_version_string r.stable) (parse_version_string r.experimental)

-- What the choice meets: the lock on the shared files, the binary and its output, and the list as JSON.
pub record Host : Type 0 where
  pub lock_ok : Bool
  pub xreleases : Bool
  pub has_binary : Bool
  pub output : Option Bytes
  pub decode : Bytes → Option Releases
  pub site : Site

abbrev pub of_channel : Bool → VersionInts × VersionInts → VersionInts
of_channel x (stable, experimental) = if x then experimental else stable

-- `quickLatest`.
unfoldable pub quick_latest : Host → Bool → Result UpdateError VersionInts
quick_latest h x = some_or http_failed (h.site.http_get release_url) >>= λ body.
    some_or bad_json (h.decode body) >>= λ r. ok (of_channel x (parse_strings_latest r))

pub data UpdateOutcome : Type 0 where
  busy : UpdateOutcome
  failed : UpdateError → UpdateOutcome
  installed : VersionInts → UpdateOutcome
  upgraded : VersionInts → VersionInts → UpdateOutcome
  up_to_date newer_than_channel : UpdateOutcome

abbrev pub new_info : Host → InfoData
new_info h = record {
  version = [];
  distro = text "linux64";
  build = text "headless";
  xreleases = h.xreleases;
  vers_int = zero_version;
}

abbrev pub outcome_of : Result UpdateError (Unit {0}) → UpdateOutcome → UpdateOutcome
outcome_of (ok done) o = o
outcome_of (err e) o = failed e

-- The package of a version is installed.
abbrev pub install_version :
    Host → InfoData → VersionInts → UpdateOutcome → List Effect × UpdateOutcome
install_version h i v o =
    let (effects, result) = full_package h.site (record i { vers_int = v }) in
    (effects, outcome_of result o)

-- With `force` the release is installed whatever is there.
abbrev pub force_latest : Host → Result UpdateError VersionInts → List Effect × UpdateOutcome
force_latest h (err e) = ([], failed e)
force_latest h (ok v) = install_version h (new_info h) v (installed v)

abbrev pub compare_latest :
    Host → InfoData → Result UpdateError VersionInts → List Effect × UpdateOutcome
compare_latest h i (err e) = ([], failed e)
compare_latest h i (ok v) =
    let done = install_version h i v (upgraded i.vers_int v) in
    if is_version_newer_than v i.vers_int
    then done
    else if is_version_equal v i.vers_int
    then ([], up_to_date)
    else ([], newer_than_channel)

abbrev pub check_latest : Host → Result UpdateError InfoData → List Effect × UpdateOutcome
check_latest h (err e) = ([], failed e)
check_latest h (ok i) = compare_latest h i (quick_latest h i.xreleases)

-- `doQuickLatest`: what is done outside, and what is answered.
unfoldable pub do_quick_latest : Host → Bool → List Effect × UpdateOutcome
do_quick_latest h force =
    if not h.lock_ok
    then ([], busy)
    else if force
    then force_latest h (quick_latest h h.xreleases)
    else check_latest h (get_factorio_version h.has_binary h.output (new_info h))
