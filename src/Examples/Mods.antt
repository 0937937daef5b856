-- ===== src/Examples/Mods.antt =====
-- Versions of mods (modupdate/util.go) at concrete inputs.
use chat_wire.Common.{◌≡◌, ◌↔◌, refl, true, [], ◌∷◌, Bytes, false, some}
use chat_wire.Common.Int.{pos, zero_ℤ}
use chat_wire.Common.Result.{ok}
use chat_wire.Common.Decimal.{split}
use chat_wire.ModUpdate.Versions.{
  eo_greater, eo_lesseq, IntVersion, parse_int, version_to_int, check_version, parse_operator,
  operator_to_string,
}
use chat_wire.ModUpdate.Merge.{ModZipInfo, ModData, merge_mod_lists}
use chat_wire.ModUpdate.Merge.Installed.{Unique, enabled_of, merge_mod_lists-Unique}
use chat_wire.ModUpdate.Order.{Means, check_version_iff, parse-operator_to_string}

-- "1.2" and "1.10.0".
abbrev short : Bytes
short = 49 ∷ 46 ∷ 50 ∷ []

abbrev long : Bytes
long = 49 ∷ 46 ∷ 49 ∷ 48 ∷ 46 ∷ 48 ∷ []

abbrev short_version : IntVersion
short_version = record { major = pos 1; minor = pos 2; patch = zero_ℤ }

abbrev long_version : IntVersion
long_version = record { major = pos 1; minor = pos 10; patch = pos 0 }

short-read : version_to_int short ≡ ok short_version
unfolding version_to_int split parse_int
short-read = refl

long-read : version_to_int long ≡ ok long_version
unfolding version_to_int split parse_int
long-read = refl

check_version_iff_example :
    (check_version eo_greater short long ≡ ok true) ↔ Means eo_greater long_version short_version
check_version_iff_example =
    check_version_iff eo_greater short long short_version long_version short-read long-read

parse-operator_to_string_example : parse_operator (operator_to_string eo_lesseq) ≡ eo_lesseq
parse-operator_to_string_example = parse-operator_to_string eo_lesseq

abbrev a_file : ModZipInfo
a_file = record { name = "flib"; version = "0.15.0"; enabled = false }

abbrev not_flib : ModData
not_flib = record { name = "flib"; enabled = false }

abbrev space_age : ModData
space_age = record { name = "space-age"; enabled = true }

merge_mod_lists-Unique_example :
    (let merged = merge_mod_lists "2.0.55" (a_file ∷ a_file ∷ []) (not_flib ∷ space_age ∷ []) in
      Unique merged × (enabled_of "flib" merged ≡ some false))
merge_mod_lists-Unique_example =
    merge_mod_lists-Unique "2.0.55" (a_file ∷ a_file ∷ []) [] not_flib (space_age ∷ []) (refl, tt)
