-- ===== src/PlayerDb/Store/Merging.antt =====
-- What a write of the player database merges and completes (fact/playerDB.go), by lookups.
use chat_wire.Common.{
  ℕ, ◌≤◌, ◌≡◌, ◌⊎◌, inl, inr, refl, Option, none, some, [], ◌∷◌, arith, Bytes, bytes_beq_iff,
  bytes_eq, All, if◌then◌else◌, Option-cases, if-All,
}
use chat_wire.Common.Assoc.{Assoc, lookup, erase, insert, lookup-erase, lookup-insert, erase-All}
use chat_wire.PlayerDb.Data.{PlayerData}
use chat_wire.PlayerDb.Store.Changes.{
  is_version, snapshot_player_changes, complete_player_changes, merge_player_changes,
}

-- A pending name is taken from memory, every other from the file.
abbrev pub pick : Option ℕ → Option PlayerData → Option PlayerData → Option PlayerData
pick none mine theirs = theirs
pick (some v) mine theirs = mine

pub merge-lookup :
    (k : Bytes) (players m : Assoc Bytes PlayerData) (versions : Assoc Bytes ℕ)
    → lookup k (merge_player_changes m (snapshot_player_changes players versions))
      ≡ pick (lookup k versions) (lookup k players) (lookup k m)
unfolding merge_player_changes snapshot_player_changes lookup
merge-lookup k players m [] = refl
merge-lookup k players m ((j, v) ∷ versions) = elim (Option-cases (lookup j players)) [
  | inl e ↦
      ground
        (arith, merge-lookup k players (erase j m) versions, lookup-erase j k m, bytes_beq_iff j k)
  | inr (p, e) ↦ ground (
    arith,
    merge-lookup k players (insert j p m) versions,
    lookup-insert j k p m,
    bytes_beq_iff j k,
  )
]

-- One turn of `complete_player_changes`.
abbrev pub done_one : Bytes → ℕ → Assoc Bytes ℕ → Assoc Bytes ℕ
done_one j v versions = if is_version v (lookup j versions) then erase j versions else versions

ended-one :
    (n : ℕ) (k j : Bytes) (v : ℕ) (versions : Assoc Bytes ℕ)
    → v ≤ n
    → lookup k (done_one j v versions) ≡ none
    → (lookup k versions ≡ none) ⊎ ((u : ℕ) × (lookup k versions ≡ some u) × (u ≤ n))
ended-one n k j v versions b h = elim (Option-cases (lookup k versions)) [
  | inl e ↦ inl e
  | inr (w, e) ↦ inr (w, e, ground (arith, lookup-erase j k versions, bytes_beq_iff j k))
]

still-one :
    (k j : Bytes) (v : ℕ) (versions : Assoc Bytes ℕ) (u : ℕ)
    → lookup k (done_one j v versions) ≡ some u
    → lookup k versions ≡ some u
still-one k j v versions u h = ground (arith, lookup-erase j k versions)

-- A change that is over was not newer than the copies.
pub complete-lookup :
    (n : ℕ) (k : Bytes) (done versions : Assoc Bytes ℕ)
    → All (λ e. e.1 ≤ n) done
    → lookup k (complete_player_changes done versions) ≡ none
    → (lookup k versions ≡ none) ⊎ ((v : ℕ) × (lookup k versions ≡ some v) × (v ≤ n))
unfolding complete_player_changes
complete-lookup n k [] versions b h = inl h
complete-lookup n k ((j, v) ∷ done) versions b h =
    let next = done_one j v versions in
    elim (complete-lookup n k done next b.1 h) [
      | inl e ↦ ended-one n k j v versions b.0 e
      | inr (u, e, l) ↦ inr (u, still-one k j v versions u e, l)
    ]

pub complete-All :
    (P : Bytes × ℕ → Type 0) (done versions : Assoc Bytes ℕ)
    → All P versions
    → All P (complete_player_changes done versions)
unfolding complete_player_changes
complete-All P [] versions h = h
complete-All P ((j, n) ∷ done) versions h =
    complete-All P done (done_one j n versions)
      (if-All (All P) (is_version n (lookup j versions)) (erase-All P j versions h) h)
