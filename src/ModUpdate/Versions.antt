-- ===== src/ModUpdate/Versions.antt =====
-- Versions of mods and the comparison that a dependency asks for (modupdate/util.go).
use chat_wire.Common.{
  ℕ, ◌-◌, ◌^◌, Bool, not, Option, none, some, List, [], ◌∷◌, if◌then◌else◌, ltb, leb, ◌==◌, Bytes,
  bytes_beq,
}
use chat_wire.Common.Int.{ℤ, pos, negsuc, zero_ℤ, beq_ℤ, ltb_ℤ}
use chat_wire.Common.Decimal.{numeral, digits, split}
use chat_wire.Common.Result.{Result, ok, err, ◌>>=◌, some_or}

-- The operators of modupdate/struct.go.
pub data Operator : Type 0 where
  eo_error eo_less eo_lesseq eo_equal eo_greatereq eo_greater : Operator

pub data VersionError : Type 0 where
  malformed not_a_number invalid_comparison : VersionError

-- `intVersion`.
pub record IntVersion : Type 0 where
  pub major : ℤ
  pub minor : ℤ
  pub patch : ℤ

-- `strconv.ParseInt` in base 10 for 64 bits.
abbrev pub as_positive : Option ℕ → Option ℤ
as_positive none = none
as_positive (some n) = if ltb n (2 ^ 63) then some (pos n) else none

abbrev pub as_negative : Option ℕ → Option ℤ
as_negative none = none
as_negative (some n) =
    if n == 0 then some zero_ℤ else if leb n (2 ^ 63) then some (negsuc (n - 1)) else none

unfoldable pub parse_int : Bytes → Option ℤ
unfolding numeral
parse_int [] = none
parse_int (c ∷ s) =
    if c == 45
    then as_negative (digits s)
    else if c == 43
    then as_positive (digits s)
    else as_positive (digits (c ∷ s))

abbrev pub number : Bytes → Result VersionError ℤ
unfolding parse_int
number s = some_or not_a_number (parse_int s)

-- `versionToInt` on the parts between the dots: the third is 0 where there are two.
abbrev pub of_parts : List Bytes → Result VersionError IntVersion
of_parts (a ∷ b ∷ []) = do
  major ← number a
  minor ← number b
  ok (record { major = major; minor = minor; patch = zero_ℤ })
of_parts (a ∷ b ∷ c ∷ []) = do
  major ← number a
  minor ← number b
  patch ← number c
  ok (record { major = major; minor = minor; patch = patch })
of_parts _ = err malformed

unfoldable pub version_to_int : Bytes → Result VersionError IntVersion
version_to_int data_bytes = of_parts (split 46 data_bytes)

-- `compareVersions`.
abbrev pub compare_versions : Operator → ℤ → ℤ → Result VersionError Bool
compare_versions eo_less a b = ok (ltb_ℤ b a)
compare_versions eo_lesseq a b = ok (not (ltb_ℤ a b))
compare_versions eo_equal a b = ok (beq_ℤ b a)
compare_versions eo_greatereq a b = ok (not (ltb_ℤ b a))
compare_versions eo_greater a b = ok (ltb_ℤ a b)
compare_versions eo_error a b = err invalid_comparison

-- `checkVersion` on two parsed versions: the first part that differs decides.
abbrev pub check_parsed : Operator → IntVersion → IntVersion → Result VersionError Bool
check_parsed operator local remote =
    if not (beq_ℤ remote.major local.major)
    then compare_versions operator local.major remote.major
    else if not (beq_ℤ remote.minor local.minor)
    then compare_versions operator local.minor remote.minor
    else if not (beq_ℤ remote.patch local.patch)
    then compare_versions operator local.patch remote.patch
    else compare_versions operator zero_ℤ zero_ℤ

-- `checkVersion`.
unfoldable pub check_version : Operator → Bytes → Bytes → Result VersionError Bool
check_version operator local remote = do
  c ← version_to_int local
  r ← version_to_int remote
  check_parsed operator c r

-- `parseOperator`.
unfoldable pub parse_operator : Bytes → Operator
parse_operator s =
    if bytes_beq s (60 ∷ [])
    then eo_less
    else if bytes_beq s (60 ∷ 61 ∷ [])
    then eo_lesseq
    else if bytes_beq s (61 ∷ [])
    then eo_equal
    else if bytes_beq s (62 ∷ 61 ∷ [])
    then eo_greatereq
    else if bytes_beq s (62 ∷ [])
    then eo_greater
    else eo_error

-- `operatorToString`.
unfoldable pub operator_to_string : Operator → Bytes
operator_to_string eo_less = 60 ∷ []
operator_to_string eo_lesseq = 60 ∷ 61 ∷ []
operator_to_string eo_equal = 61 ∷ []
operator_to_string eo_greatereq = 62 ∷ 61 ∷ []
operator_to_string eo_greater = 62 ∷ []
operator_to_string eo_error = 69 ∷ 82 ∷ 82 ∷ []
