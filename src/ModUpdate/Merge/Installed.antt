-- ===== src/ModUpdate/Merge/Installed.antt =====
-- What the merged list of mods has (modupdate/util.go).
use chat_wire.Common.{
  Option, none, some, if-All, ◌≡◌, arith, String, str_eq, eq_iff, Bool, true, false, List, [], ◌∷◌,
  ◌++◌, if◌then◌else◌, All, All-append, if-cases, refl, ◌∙◌,
}
use chat_wire.ModUpdate.Merge.{
  ModZipInfo, ModData, has_name, add_file, add_files, enable, listed_mod, add_mod, add_mods,
  merge_mod_lists,
}

-- No name occurs twice.
abbrev pub OtherName : String → ModZipInfo → Type 0
OtherName n item = str_eq item.name n ≡ false

abbrev pub Unique : List ModZipInfo → Type 0
Unique [] = Unit {0}
Unique (item ∷ items) = All (OtherName item.name) items × Unique items

absent_name :
    (n : String) (items : List ModZipInfo) → has_name n items ≡ false → All (OtherName n) items
absent_name n [] h = tt
absent_name n (item ∷ items) h = (ground arith, absent_name n items (ground arith))

other_sym : (a b : String) → str_eq a b ≡ false → str_eq b a ≡ false
other_sym a b h = ground (arith, eq_iff a b, eq_iff b a)

Unique-snoc :
    (items : List ModZipInfo) (new : ModZipInfo)
    → All (OtherName new.name) items
    → Unique items
    → Unique (items ++ new ∷ [])
Unique-snoc [] new a u = (tt, tt)
Unique-snoc (item ∷ items) new a u = (
  All-append (OtherName item.name) items (new ∷ []) u.0 (other_sym item.name new.name a.0, tt),
  Unique-snoc items new a.1 u.1,
)

enable-OtherName :
    (n : String) (m : ModData) (items : List ModZipInfo)
    → All (OtherName n) items
    → All (OtherName n) (enable m items)
unfolding enable
enable-OtherName n m [] a = tt
enable-OtherName n m (item ∷ items) a =
    if-cases (All (OtherName n)) (str_eq item.name m.name) (λ e. a)
      (λ e. (a.0, enable-OtherName n m items a.1))

enable-Unique : (m : ModData) (items : List ModZipInfo) → Unique items → Unique (enable m items)
unfolding enable
enable-Unique m [] u = tt
enable-Unique m (item ∷ items) u =
    if-cases Unique (str_eq item.name m.name) (λ e. u)
      (λ e. (enable-OtherName item.name m items u.0, enable-Unique m items u.1))

add_file-Unique :
    (installed : List ModZipInfo) (f : ModZipInfo)
    → Unique installed
    → Unique (add_file installed f)
add_file-Unique installed f u =
    if-cases Unique (has_name f.name installed) (λ e. u)
      (λ e. Unique-snoc installed (record f { enabled = true }) (absent_name f.name installed e) u)

add_files-Unique :
    (installed fs : List ModZipInfo) → Unique installed → Unique (add_files installed fs)
unfolding add_files
add_files-Unique installed [] u = u
add_files-Unique installed (f ∷ fs) u =
    add_files-Unique (add_file installed f) fs (add_file-Unique installed f u)

add_mod-Unique :
    (version : String) (installed : List ModZipInfo) (m : ModData)
    → Unique installed
    → Unique (add_mod version installed m)
add_mod-Unique version installed m u =
    if-cases Unique (has_name m.name installed) (λ e. enable-Unique m installed u)
      (λ e. Unique-snoc installed (listed_mod version m) (absent_name m.name installed e) u)

add_mods-Unique :
    (version : String) (installed : List ModZipInfo) (ms : List ModData)
    → Unique installed
    → Unique (add_mods version installed ms)
unfolding add_mods
add_mods-Unique version installed [] u = u
add_mods-Unique version installed (m ∷ ms) u =
    add_mods-Unique version (add_mod version installed m) ms (add_mod-Unique version installed m u)

-- Whether the mod of a name is enabled, by its first item.
abbrev pub enabled_of : String → List ModZipInfo → Option Bool
enabled_of n [] = none
enabled_of n (item ∷ items) = if str_eq item.name n then some item.enabled else enabled_of n items

enabled-snoc :
    (n : String) (items : List ModZipInfo) (new : ModZipInfo)
    → str_eq new.name n ≡ false
    → enabled_of n (items ++ new ∷ []) ≡ enabled_of n items
enabled-snoc n [] new h = rw (h)
enabled-snoc n (item ∷ items) new h = rw (enabled-snoc n items new h)

enabled-own :
    (items : List ModZipInfo) (new : ModZipInfo)
    → has_name new.name items ≡ false
    → enabled_of new.name (items ++ new ∷ []) ≡ some new.enabled
enabled-own [] new h = rw ((eq_iff new.name new.name).1 refl)
enabled-own (item ∷ items) new h = ground (arith, enabled-own items new)

enable_other :
    (n : String) (m : ModData) (items : List ModZipInfo)
    → str_eq m.name n ≡ false
    → enabled_of n (enable m items) ≡ enabled_of n items
unfolding enable
enable_other n m [] h = refl
enable_other n m (item ∷ items) h =
    ground (
      arith,
      enable_other n m items h,
      eq_iff item.name m.name,
      eq_iff item.name n,
      eq_iff m.name n,
    )

enable_own :
    (m : ModData) (items : List ModZipInfo)
    → has_name m.name items ≡ true
    → enabled_of m.name (enable m items) ≡ some m.enabled
unfolding enable
enable_own m [] h = absurd (ground arith)
enable_own m (item ∷ items) h = ground (arith, enable_own m items)

added_other :
    (version n : String) (installed : List ModZipInfo) (m : ModData)
    → str_eq m.name n ≡ false
    → enabled_of n (add_mod version installed m) ≡ enabled_of n installed
added_other version n installed m h =
    if-All (λ r. enabled_of n r ≡ enabled_of n installed) (has_name m.name installed)
      (enable_other n m installed h) (enabled-snoc n installed (listed_mod version m) h)

added_own :
    (version : String) (installed : List ModZipInfo) (m : ModData)
    → enabled_of m.name (add_mod version installed m) ≡ some m.enabled
added_own version installed m =
    if-cases (λ r. enabled_of m.name r ≡ some m.enabled) (has_name m.name installed)
      (λ e. enable_own m installed e) (λ e. enabled-own installed (listed_mod version m) e)

abbrev pub OtherMod : ModData → ModData → Type 0
OtherMod m other = str_eq other.name m.name ≡ false

later_others :
    (version : String) (installed : List ModZipInfo) (m : ModData) (later : List ModData)
    → All (OtherMod m) later
    → enabled_of m.name installed ≡ some m.enabled
    → enabled_of m.name (add_mods version installed later) ≡ some m.enabled
unfolding add_mods
later_others version installed m [] a h = h
later_others version installed m (x ∷ later) a h =
    later_others version (add_mod version installed x) m later a.1
      (added_other version m.name installed x a.0 ∙ h)

last_decides :
    (version : String) (installed : List ModZipInfo) (before : List ModData) (m : ModData)
    (later : List ModData)
    → All (OtherMod m) later
    → enabled_of m.name (add_mods version installed (before ++ m ∷ later)) ≡ some m.enabled
unfolding add_mods
last_decides version installed [] m later a =
    later_others version (add_mod version installed m) m later a (added_own version installed m)
last_decides version installed (x ∷ before) m later a =
    last_decides version (add_mod version installed x) before m later a

-- The merged list has no name twice, and a mod of Factorio's list is in it, enabled as the last entry of its name says,
-- whether or not there is a file of the mod.
pub merge_mod_lists-Unique :
    (version : String) (files : List ModZipInfo) (before : List ModData) (m : ModData)
    (later : List ModData)
    → All (OtherMod m) later
    → (let merged = merge_mod_lists version files (before ++ m ∷ later) in
        Unique merged × (enabled_of m.name merged ≡ some m.enabled))
unfolding merge_mod_lists
merge_mod_lists-Unique version files before m later a = (
  add_mods-Unique version (add_files [] files) (before ++ m ∷ later) (add_files-Unique [] files tt),
  last_decides version (add_files [] files) before m later a,
)
