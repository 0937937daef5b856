-- ===== src/ModUpdate/Merge.antt =====
-- The list of installed mods (modupdate/util.go): the files that are there and Factorio's own list.
pub mod Installed
use chat_wire.Common.{
  Option, none, some, if-All, ◌≡◌, arith, String, str_eq, eq_iff, Bool, true, false, ◌||◌, List, [],
  ◌∷◌, ◌++◌, if◌then◌else◌, All, All-append, if-cases, refl, ◌∙◌,
}

-- `modZipInfo`, as far as the merge uses it.
pub record ModZipInfo : Type 0 where
  pub name : String
  pub version : String
  pub enabled : Bool

-- `ModData` of mod-list.json.
pub record ModData : Type 0 where
  pub name : String
  pub enabled : Bool

-- `IsBaseMod`.
unfoldable pub is_base_mod : String → Bool
is_base_mod dep =
    str_eq dep "base"
    || str_eq dep "elevated-rails"
    || str_eq dep "quality"
    || str_eq dep "space-age"
    || str_eq dep "recycler"

abbrev pub has_name : String → List ModZipInfo → Bool
has_name n [] = false
has_name n (item ∷ items) = str_eq item.name n || has_name n items

-- The first loop: a file of a mod that is not in the list yet.
abbrev pub add_file : List ModZipInfo → ModZipInfo → List ModZipInfo
add_file installed f =
    if has_name f.name installed then installed else installed ++ record f { enabled = true } ∷ []

unfoldable pub add_files : List ModZipInfo → List ModZipInfo → List ModZipInfo
add_files installed [] = installed
add_files installed (f ∷ fs) = add_files (add_file installed f) fs

-- `installedMods[i].Enabled = mod.Enabled` for the first item of the name.
unfoldable pub enable : ModData → List ModZipInfo → List ModZipInfo
enable m [] = []
enable m (item ∷ items) =
    let rest = enable m items in
    if str_eq item.name m.name then record item { enabled = m.enabled } ∷ items else item ∷ rest

-- The second loop; `FactorioVersion` is an argument.
abbrev pub listed_mod : String → ModData → ModZipInfo
listed_mod factorio_version m = record {
  name = m.name;
  version = if is_base_mod m.name then factorio_version else "0.0.0";
  enabled = m.enabled;
}

abbrev pub add_mod : String → List ModZipInfo → ModData → List ModZipInfo
add_mod factorio_version installed m =
    if has_name m.name installed
    then enable m installed
    else installed ++ listed_mod factorio_version m ∷ []

unfoldable pub add_mods : String → List ModZipInfo → List ModData → List ModZipInfo
add_mods factorio_version installed [] = installed
add_mods factorio_version installed (m ∷ ms) =
    add_mods factorio_version (add_mod factorio_version installed m) ms

-- `MergeModLists`.
unfoldable pub merge_mod_lists : String → List ModZipInfo → List ModData → List ModZipInfo
merge_mod_lists factorio_version files mods = add_mods factorio_version (add_files [] files) mods
