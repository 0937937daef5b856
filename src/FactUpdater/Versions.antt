-- ===== src/FactUpdater/Versions.antt =====
-- Versions of the game and how they are read (factUpdater/util.go, factUpdater/factUpdater.go).
use chat_wire.Common.{
  ℕ, suc, ◌++◌, ◌-◌, ◌^◌, Bool, true, false, not, ◌&&◌, ltb, ◌==◌, Option, List, [], ◌∷◌,
  if◌then◌else◌, Bytes, bytes_beq,
}
use chat_wire.Common.Decimal.{text, split, parse_uint, decimal}
use chat_wire.Common.Int.{ℤ, pos, negsuc, zero_ℤ, beq_ℤ, ltb_ℤ}
use chat_wire.Common.Result.{Result, ok, err, ◌>>=◌, some_or}

-- `versionInts`.
pub record VersionInts : Type 0 where
  pub a : ℤ
  pub b : ℤ
  pub c : ℤ

abbrev pub zero_version : VersionInts
zero_version = record { a = zero_ℤ; b = zero_ℤ; c = zero_ℤ }

-- The errors, without their texts.
pub data UpdateError : Type 0 where
  malformed_version no_version_line factorio_quit no_binary not_started http_failed bad_json :
      UpdateError
  bad_sums no_sum bad_checksum bad_xz bad_tar missing_file bad_path not_stopped untar_failed :
      UpdateError

-- `int(n)` of a uint64.
abbrev pub to_int : ℕ → ℤ
to_int n = if ltb n (2 ^ 63) then pos n else negsuc (2 ^ 64 - 1 - n)

abbrev pub part : Bytes → Result UpdateError ℤ
part s = some_or malformed_version (parse_uint s) >>= λ n. ok (to_int n)

abbrev pub of_numbers : List Bytes → Result UpdateError VersionInts
of_numbers (x ∷ y ∷ z ∷ []) =
    part x >>= λ a. part y >>= λ b. part z >>= λ c. ok (record { a = a; b = b; c = c })
of_numbers _ = err malformed_version

abbrev pub is_empty : Bytes → Bool
is_empty [] = true
is_empty (x ∷ s) = false

-- `parseVersionString`; "." is 46.
unfoldable pub parse_version_string : Bytes → Result UpdateError VersionInts
parse_version_string input = if is_empty input then ok zero_version else of_numbers (split 46 input)

-- An int as "%v" prints it: "-" is 45, and a uint64 has at most twenty digits.
abbrev pub print_int : ℤ → Bytes
print_int (pos n) = decimal 20 n []
print_int (negsuc n) = 45 ∷ decimal 20 (suc n) []

-- `IntToString`.
unfoldable pub int_to_string : VersionInts → Bytes
unfolding decimal
int_to_string v = print_int v.a ++ 46 ∷ print_int v.b ++ 46 ∷ print_int v.c

-- `isVersionNewerThan` and `isVersionEqual`.
abbrev pub is_version_newer_than : VersionInts → VersionInts → Bool
is_version_newer_than v w =
    if not (beq_ℤ v.a w.a)
    then ltb_ℤ w.a v.a
    else if not (beq_ℤ v.b w.b)
    then ltb_ℤ w.b v.b
    else ltb_ℤ w.c v.c

abbrev pub is_version_equal : VersionInts → VersionInts → Bool
is_version_equal v w = beq_ℤ v.a w.a && beq_ℤ v.b w.b && beq_ℤ v.c w.c

-- `InfoData`.
pub record InfoData : Type 0 where
  pub version : Bytes
  pub distro : Bytes
  pub build : Bytes
  pub xreleases : Bool
  pub vers_int : VersionInts

-- `strings.TrimSuffix` of one byte.
abbrev pub trim_last : ℕ → Bytes → Bytes
trim_last c [] = []
trim_last c (x ∷ []) = if x == c then [] else x ∷ []
trim_last c (x ∷ y ∷ s) = x ∷ trim_last c (y ∷ s)

-- A line of the game's output, in words: the version with the build and the distribution, the end of the
-- game, or neither.
pub data Line : Type 0 where
  versioned : Bytes → Bytes → Bytes → Line
  goodbye other : Line

abbrev pub line_of : List Bytes → Line
line_of (w0 ∷ w1 ∷ w2 ∷ w3 ∷ w4 ∷ w5 ∷ ws) =
    if bytes_beq w0 (text "Version:")
    then versioned w1 (trim_last 41 w5) (trim_last 44 w4)
    else if bytes_beq w1 (text "Goodbye")
    then goodbye
    else other
line_of _ = other

abbrev pub found_version : InfoData → Bytes → Bytes → VersionInts → InfoData
found_version i build distro v = record i {
  vers_int = if is_empty i.version then v else i.vers_int;
  build = if is_empty i.build then build else i.build;
  distro = if is_empty i.distro then distro else i.distro;
}

-- The first line that decides.
abbrev pub or_line : Line → Line → Line
or_line (versioned v build distro) rest = versioned v build distro
or_line goodbye rest = goodbye
or_line other rest = rest

unfoldable pub first_line : List Bytes → Line
first_line [] = other
first_line (line ∷ lines) = or_line (line_of (split 32 line)) (first_line lines)

-- `parseFactorioVersion`, with `saveFoundVersion` on what it finds.
abbrev pub of_line : InfoData → Line → Result UpdateError InfoData
of_line i (versioned v build distro) =
    parse_version_string v >>= λ w. ok (found_version i build distro w)
of_line i goodbye = err factorio_quit
of_line i other = err no_version_line

-- `GetFactorioVersion`: whether there is a binary, and its output, none where it does not start.
unfoldable pub get_factorio_version : Bool → Option Bytes → InfoData → Result UpdateError InfoData
get_factorio_version found output i =
    if not (is_empty i.version)
    then ok i
    else if not found
    then err no_binary
    else some_or not_started output >>= λ out. of_line i (first_line (split 10 out))
