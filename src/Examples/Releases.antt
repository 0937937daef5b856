-- ===== src/Examples/Releases.antt =====
-- An update of the game (factUpdater/) at concrete inputs.
use chat_wire.Common.{
  ◌≡◌, refl, true, false, Option, some, [], if◌then◌else◌, Bytes, bytes_beq, map,
}
use chat_wire.Common.Decimal.{text, split, numeral, parse_uint, decimal}
use chat_wire.FactUpdater.Versions.{
  parse_version_string, get_factorio_version, first_line, int_to_string,
}
use chat_wire.FactUpdater.Package.{
  Site, sha256_url, file_checks, find_sum, get_sha256, check_full_package, fetched, full_package,
}
use chat_wire.FactUpdater.Latest.{Host, release_url, quick_latest, do_quick_latest}
use chat_wire.FactUpdater.Verified.{touches, Updates, do_quick_latest-Updates}

-- The list of releases is empty, the sums name one file, and every other answer is the package.
abbrev url_answers : Bytes → Option Bytes
url_answers url =
    if bytes_beq url release_url
    then some []
    else if bytes_beq url sha256_url
    then some (text "ab12  factorio-headless_linux_2.0.60.tar.xz")
    else some (text "package")

abbrev a_site : Site
a_site = record {
  http_get = url_answers;
  hex_sha256 = λ package_bytes. text "ab12";
  equal_fold = bytes_beq;
  unxz = λ package_bytes. some package_bytes;
  tar_entries =
      λ archive. some (map (λ name. record { is_regular = true; name = name }) file_checks);
  binary = text "/srv/factorio/bin/x64/factorio";
  quits = true;
  untars = true;
}

abbrev a_host : Host
a_host = record {
  lock_ok = true;
  xreleases = false;
  has_binary = true;
  output = some (text "Version: 2.0.55 (build 1, linux64, headless)");
  decode = λ body. some (record { stable = text "2.0.60"; experimental = text "2.1.4" });
  site = a_site;
}

files_replaced : touches (do_quick_latest a_host false).0 ≡ true
unfolding int_to_string decimal do_quick_latest quick_latest get_factorio_version first_line
    parse_version_string parse_uint numeral split full_package fetched get_sha256 find_sum
    check_full_package
files_replaced = refl

do_quick_latest-Updates_example : (a_host.lock_ok ≡ true) × Updates a_host false
do_quick_latest-Updates_example = do_quick_latest-Updates a_host false files_replaced
