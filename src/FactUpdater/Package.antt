-- ===== src/FactUpdater/Package.antt =====
-- The download of the game, its verification and its installation (factUpdater/fullPackage.go and
-- `checkInstallTar` of factUpdater/factUpdater.go).
use chat_wire.Common.{
  ℕ, ◌-◌, Bool, true, false, not, ◌&&◌, ◌||◌, ltb, ◌==◌, Option, none, some, List, [], ◌∷◌, ◌++◌,
  if◌then◌else◌, Bytes, bytes_beq, length, take,
}
use chat_wire.Common.Decimal.{text, push, split}
use chat_wire.Common.Result.{Result, ok, err, ◌>>=◌, ◌>>◌, refuse_if, some_or}
use chat_wire.FactUpdater.Versions.{
  int_to_string, UpdateError, InfoData, http_failed, bad_sums, no_sum, bad_checksum, bad_xz,
  bad_tar, missing_file, bad_path, not_stopped, untar_failed,
}

-- A header of a tar file.
pub record TarEntry : Type 0 where
  pub is_regular : Bool
  pub name : Bytes

-- What the update meets. `http_get` gives the body; `hex_sha256` is the digest in hexadecimal; `unxz` and
-- `tar_entries` are the readers of the archive; `quits` and `untars` say whether
-- the game stops and the archive is unpacked.
pub record Site : Type 0 where
  pub http_get : Bytes → Option Bytes
  pub hex_sha256 : Bytes → Bytes
  pub equal_fold : Bytes → Bytes → Bool
  pub unxz : Bytes → Option Bytes
  pub tar_entries : Bytes → Option (List TarEntry)
  pub binary : Bytes
  pub quits : Bool
  pub untars : Bool

-- What is done outside, in its order.
pub data Effect : Type 0 where
  update_in_progress : Bool → Effect
  removed : Bytes → Effect
  unpacked : Bytes → Bytes → Effect
  version_recorded : Bytes → Effect
  marked_updated : Effect

abbrev pub base_download_url : Bytes
base_download_url = text "https://www.factorio.com/get-download/"

abbrev pub sha256_url : Bytes
sha256_url = text "https://www.factorio.com/download/sha256sums/"

-- `strings.Split` at two equal bytes.
abbrev pub split_pair : ℕ → Bytes → List Bytes
split_pair c [] = [] ∷ []
split_pair c (x ∷ []) = (x ∷ []) ∷ []
split_pair c (x ∷ y ∷ s) = elim (x == c && y == c) [
  | true ↦ [] ∷ split_pair c s
  | false ↦ push x (split_pair c (y ∷ s))
]

-- The sum and the file of a line.
abbrev pub sum_line : List Bytes → Option (Bytes × Bytes)
sum_line (sum ∷ file ∷ []) = some (sum, file)
sum_line _ = none

abbrev pub sum_or :
    Bytes → Option (Bytes × Bytes) → Result UpdateError Bytes → Result UpdateError Bytes
sum_or name none rest = err bad_sums
sum_or name (some (sum, file)) rest = if bytes_beq name file then ok sum else rest

unfoldable pub find_sum : Bytes → List Bytes → Result UpdateError Bytes
find_sum name [] = err no_sum
find_sum name (line ∷ lines) =
    let rest = find_sum name lines in sum_or name (sum_line (split_pair 32 line)) rest

-- `getSHA256`.
unfoldable pub get_sha256 : Site → Bytes → Result UpdateError Bytes
get_sha256 e name = some_or http_failed (e.http_get sha256_url) >>= λ data_bytes.
    find_sum name (split 10 data_bytes)

-- `fileChecks` of `checkInstallTar`.
abbrev pub file_checks : List Bytes
file_checks =
    text "factorio/data/eula.txt"
    ∷ text "factorio/data/licenses.txt"
    ∷ text "factorio/data/credits.txt"
    ∷ text "factorio/data/changelog.txt"
    ∷ text "factorio/data/core/backers.json"
    ∷ text "factorio/data/core/data.lua"
    ∷ text "factorio/data/core/info.json"
    ∷ []

abbrev pub has_file : Bytes → List TarEntry → Bool
has_file name [] = false
has_file name (e ∷ es) = (e.is_regular && bytes_beq name e.name) || has_file name es

abbrev pub all_files : List Bytes → List TarEntry → Bool
all_files [] es = true
all_files (f ∷ fs) es = has_file f es && all_files fs es

-- `checkInstallTar` and `checkFullPackage`.
abbrev pub check_install_tar : Site → Bytes → Result UpdateError (Unit {0})
check_install_tar e archive = some_or bad_tar (e.tar_entries archive) >>= λ es.
    refuse_if (not (all_files file_checks es)) missing_file

unfoldable pub check_full_package : Site → Bytes → Result UpdateError Bytes
check_full_package e data_bytes =
    some_or bad_xz (e.unxz data_bytes) >>= λ archive. check_install_tar e archive >> ok archive

abbrev pub branch : InfoData → Bytes
branch i = if i.xreleases then text "latest" else text "stable"

abbrev pub package_url : InfoData → Bytes
package_url i = base_download_url ++ branch i ++ text "/" ++ i.build ++ text "/" ++ i.distro

abbrev pub trim_64 : Bytes → Bytes
trim_64 [] = []
trim_64 (x ∷ []) = x ∷ []
trim_64 (x ∷ y ∷ []) = if x == 54 && y == 52 then [] else x ∷ y ∷ []
trim_64 (x ∷ y ∷ z ∷ s) = x ∷ trim_64 (y ∷ z ∷ s)

-- `fakeName`, the name of the file in the list of sums.
abbrev pub fake_name : InfoData → Bytes
fake_name i =
    text "factorio-"
    ++ i.build
    ++ text "_"
    ++ trim_64 i.distro
    ++ text "_"
    ++ int_to_string i.vers_int
    ++ text ".tar.xz"

abbrev pub join : List Bytes → Bytes
join [] = []
join (p ∷ []) = p
join (p ∷ q ∷ ps) = p ++ text "/" ++ join (q ∷ ps)

-- `factPath`, the folder that the game's own folder is in.
abbrev pub fact_path : Site → Result UpdateError Bytes
fact_path e =
    let parts = split 47 e.binary in
    if ltb (length parts) 4 then err bad_path else ok (join (take (length parts - 4) parts))

-- The first half of `fullPackage`: the archive, and the folder it goes to.
unfoldable pub fetched : Site → InfoData → Result UpdateError (Bytes × Bytes)
fetched e i = some_or http_failed (e.http_get (package_url i)) >>= λ data_bytes.
    get_sha256 e (fake_name i) >>= λ sum.
    refuse_if (not (e.equal_fold (e.hex_sha256 data_bytes) sum)) bad_checksum
    >> check_full_package e data_bytes
    >>= λ archive. fact_path e >>= λ path. ok (archive, path)

-- The second half: the game is stopped, and its files are replaced.
abbrev pub removals : Bytes → List Effect
removals path =
    removed (path ++ text "/factorio/bin")
    ∷ removed (path ++ text "/factorio/config")
    ∷ removed (path ++ text "/factorio/data")
    ∷ removed (path ++ text "/factorio/temp")
    ∷ removed (path ++ text "/factorio/bin")
    ∷ []

abbrev pub install : Site → InfoData → Bytes → Bytes → List Effect × Result UpdateError (Unit {0})
install e i archive path =
    if not e.quits
    then (update_in_progress true ∷ update_in_progress false ∷ [], err not_stopped)
    else if not e.untars
    then (
      update_in_progress true ∷ removals path
          ++ unpacked path archive ∷ update_in_progress false ∷ [],
      err untar_failed,
    )
    else (
      update_in_progress true ∷ removals path
          ++ unpacked path archive
            ∷ version_recorded (int_to_string i.vers_int)
            ∷ marked_updated
            ∷ update_in_progress false
            ∷ [],
      ok tt,
    )

-- `fullPackage`: what is done outside, and its result.
abbrev pub install_fetched :
    Site
    → InfoData
    → Result UpdateError (Bytes × Bytes)
    → List Effect × Result UpdateError (Unit {0})
install_fetched e i (err why) = ([], err why)
install_fetched e i (ok (archive, path)) = install e i archive path

unfoldable pub full_package : Site → InfoData → List Effect × Result UpdateError (Unit {0})
full_package e i = install_fetched e i (fetched e i)
