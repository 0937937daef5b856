-- ===== src/FactUpdater/Verified.antt =====
-- When the game's files are replaced (factUpdater/).
use chat_wire.Common.{
  ◌≡◌, refl, Bool, true, false, not, some, List, [], ◌∷◌, if◌then◌else◌, ◌⊎◌, inl, inr, Bytes,
  Bool-cases, arith,
}
use chat_wire.Common.Result.{
  Result, ok, err, ◌>>◌, refuse_if, some_or, bind-ok, some_or-ok, refuse_if-ok,
}
use chat_wire.Common.Int.{beq_ℤ, beq_ℤ_iff, ltb_ℤ}
use chat_wire.FactUpdater.Versions.{
  VersionInts, UpdateError, InfoData, is_version_newer_than, is_version_equal, get_factorio_version,
  http_failed, bad_xz, bad_tar, bad_checksum,
}
use chat_wire.FactUpdater.Package.{
  Site, Effect, TarEntry, package_url, get_sha256, fake_name, check_full_package, check_install_tar,
  all_files, file_checks, fetched, install, install_fetched, full_package, update_in_progress,
  removed, unpacked, version_recorded, marked_updated,
}
use chat_wire.FactUpdater.Latest.{
  Host, UpdateOutcome, busy, upgraded, new_info, quick_latest, install_version, force_latest,
  compare_latest, check_latest, do_quick_latest,
}

-- A file of the game is removed or written.
abbrev pub touches : List Effect → Bool
touches [] = false
touches (update_in_progress b ∷ es) = touches es
touches (removed path ∷ es) = true
touches (unpacked path archive ∷ es) = true
touches (version_recorded v ∷ es) = touches es
touches (marked_updated ∷ es) = touches es

-- The package of a version has the published sum of the file of that version, holds every file that is
-- asked for, and the game has stopped.
pub record Verified (e : Site) (i : InfoData) : Type 0 where
  pub bundle : Bytes
  pub sum : Bytes
  pub archive : Bytes
  pub headers : List TarEntry
  pub downloaded : e.http_get (package_url i) ≡ some bundle
  pub published : get_sha256 e (fake_name i) ≡ ok sum
  pub same_sum : e.equal_fold (e.hex_sha256 bundle) sum ≡ true
  pub decompressed : e.unxz bundle ≡ some archive
  pub listed : e.tar_entries archive ≡ some headers
  pub complete : all_files file_checks headers ≡ true
  pub stopped : e.quits ≡ true

not_refused :
    (b : Bool) (why : UpdateError) (u : Unit {0}) → refuse_if (not b) why ≡ ok u → b ≡ true
not_refused true why u h = refl
not_refused false why u h = ground arith

fetched-Verified :
    (e : Site) (i : InfoData) (r : Bytes × Bytes)
    → fetched e i ≡ ok r
    → e.quits ≡ true
    → Verified e i
unfolding fetched check_full_package
fetched-Verified e i r h q =
    let got = bind-ok (some_or http_failed (e.http_get (package_url i))) _ r h in
    let sum = bind-ok (get_sha256 e (fake_name i)) _ r got.2 in
    let same = e.equal_fold (e.hex_sha256 got.0) sum.0 in
    let checked =
      bind-ok (refuse_if (not same) bad_checksum >> check_full_package e got.0) _ r sum.2 in
    let agrees =
      refuse_if-ok (not same) bad_checksum (check_full_package e got.0) checked.0 checked.1 in
    let unpacks = bind-ok (some_or bad_xz (e.unxz got.0)) _ checked.0 agrees.1 in
    let whole = bind-ok (check_install_tar e unpacks.0) _ checked.0 unpacks.2 in
    let lists = bind-ok (some_or bad_tar (e.tar_entries unpacks.0)) _ whole.0 whole.1 in
    record {
      bundle = got.0;
      sum = sum.0;
      archive = unpacks.0;
      headers = lists.0;
      downloaded = some_or-ok http_failed _ got.0 got.1;
      published = sum.1;
      same_sum = ground (arith, agrees.0);
      decompressed = some_or-ok bad_xz _ unpacks.0 unpacks.1;
      listed = some_or-ok bad_tar _ lists.0 lists.1;
      complete = not_refused _ _ whole.0 lists.2;
      stopped = q;
    }

module _ (e : Site) (i : InfoData) where
  touching_stopped :
      (archive path : Bytes) → touches (install e i archive path).0 ≡ true → e.quits ≡ true
  touching_stopped archive path h = elim (Bool-cases e.quits) [
    | inl q ↦ q
    | inr q ↦ absurd (ground arith)
  ]

  touching_fetched :
      (r : Result UpdateError (Bytes × Bytes))
      → fetched e i ≡ r
      → touches (install_fetched e i r).0 ≡ true
      → Verified e i
  touching_fetched (err why) h t = absurd (ground arith)
  touching_fetched (ok (archive, path)) h t =
      fetched-Verified e i (archive, path) h (touching_stopped archive path t)

  full_package-Verified : touches (full_package e i).0 ≡ true → Verified e i
  unfolding full_package
  full_package-Verified t = touching_fetched (fetched e i) refl t

-- Of three branches only the first one touches a file.
touching_branch :
    (b c : Bool) (done : List Effect × UpdateOutcome) (o o' : UpdateOutcome)
    → touches (if b then done else if c then ([], o) else ([], o')).0 ≡ true
    → (b ≡ true) × (touches done.0 ≡ true)
touching_branch true c done o o' t = (refl, t)
touching_branch false true done o o' t = absurd (ground arith)
touching_branch false false done o o' t = absurd (ground arith)

-- The version is the newer one: the first of the three numbers that differs is greater.
abbrev pub Newer : VersionInts → VersionInts → Type 0
Newer v w =
    (ltb_ℤ w.a v.a ≡ true)
    ⊎ ((v.a ≡ w.a) × ((ltb_ℤ w.b v.b ≡ true) ⊎ ((v.b ≡ w.b) × (ltb_ℤ w.c v.c ≡ true))))

is_version_newer_than-Newer : (v w : VersionInts) → is_version_newer_than v w ≡ true → Newer v w
is_version_newer_than-Newer v w h = elim (Bool-cases (beq_ℤ v.a w.a)) [
  | inr d ↦ inl (ground arith)
  | inl e ↦ inr (
    (beq_ℤ_iff v.a w.a).0 e,
    elim (Bool-cases (beq_ℤ v.b w.b)) [
      | inr d ↦ inl (ground arith)
      | inl f ↦ inr ((beq_ℤ_iff v.b w.b).0 f, ground arith)
    ],
  )
]

-- What an update that replaces files has found: the release of the channel, whose package is verified, and, without
-- `force`, an installed version that is older.
unfoldable pub Updates : Host → Bool → Type 0
Updates h true =
    (v : VersionInts) × (quick_latest h h.xreleases ≡ ok v)
    × Verified h.site (record (new_info h) { vers_int = v })
Updates h false =
    (v : VersionInts) × (i : InfoData) × (get_factorio_version h.has_binary h.output (new_info h)
      ≡ ok i)
    × (quick_latest h i.xreleases ≡ ok v)
    × Newer v i.vers_int
    × Verified h.site (record i { vers_int = v })

module _ (h : Host) where
  touching_force :
      (r : Result UpdateError VersionInts)
      → quick_latest h h.xreleases ≡ r
      → touches (force_latest h r).0 ≡ true
      → Updates h true
  unfolding Updates
  touching_force (err why) e t = absurd (ground arith)
  touching_force (ok v) e t =
      (v, e, full_package-Verified h.site (record (new_info h) { vers_int = v }) t)

  touching_compare :
      (i : InfoData) (r : Result UpdateError VersionInts)
      → get_factorio_version h.has_binary h.output (new_info h) ≡ ok i
      → quick_latest h i.xreleases ≡ r
      → touches (compare_latest h i r).0 ≡ true
      → Updates h false
  unfolding Updates
  touching_compare i (err why) g e t = absurd (ground arith)
  touching_compare i (ok v) g e t =
      let done = install_version h i v (upgraded i.vers_int v) in
      let n =
        touching_branch (is_version_newer_than v i.vers_int) (is_version_equal v i.vers_int) done _
          _ t in
      (
        v,
        i,
        g,
        e,
        is_version_newer_than-Newer v i.vers_int n.0,
        full_package-Verified h.site (record i { vers_int = v }) n.1,
      )

  touching_check :
      (r : Result UpdateError InfoData)
      → get_factorio_version h.has_binary h.output (new_info h) ≡ r
      → touches (check_latest h r).0 ≡ true
      → Updates h false
  touching_check (err why) g t = absurd (ground arith)
  touching_check (ok i) g t = touching_compare i (quick_latest h i.xreleases) g refl t

unlocked :
    (b : Bool) (x : List Effect × UpdateOutcome)
    → touches (if not b then ([], busy) else x).0 ≡ true
    → (b ≡ true) × (touches x.0 ≡ true)
unlocked true x t = (refl, t)
unlocked false x t = absurd (ground arith)

-- An update removes or writes a file of the game only if it has the lock on the shared files and there is a release
-- of the channel such that the downloaded package has the sum that is published for the file of exactly that
-- version, holds every required file as a regular one, and the game has stopped; and, without `force`, only if that
-- version is newer than the one that the game reports: the first of the three numbers that differs is greater.
pub do_quick_latest-Updates :
    (h : Host) (force : Bool)
    → touches (do_quick_latest h force).0 ≡ true
    → (h.lock_ok ≡ true) × Updates h force
unfolding do_quick_latest
do_quick_latest-Updates h true t =
    let u = unlocked h.lock_ok (force_latest h (quick_latest h h.xreleases)) t in
    (u.0, touching_force h (quick_latest h h.xreleases) refl u.1)
do_quick_latest-Updates h false t =
    let found = get_factorio_version h.has_binary h.output (new_info h) in
    let u = unlocked h.lock_ok (check_latest h found) t in (u.0, touching_check h found refl u.1)
