-- ===== src/PlayerDb/Store/Tracking.antt =====
-- Each change of a player is marked (fact/playerDB.go): what a call leaves alone, and the version that
-- it gives to what it changes.
use chat_wire.Common.{
  ℕ, suc, ◌^◌, ◌≤◌, ◌<◌, ◌≡◌, ◌≢◌, ◌⊎◌, inl, inr, refl, Bool, true, false, not, Option, none, some,
  [], arith, Bytes, bytes_beq, bytes_beq_iff, bytes_eq, if-All, All, All-map,
}
use mathlib.Core.Path.{subst, sym}
use chat_wire.Common.Assoc.{Assoc, lookup, insert, lookup-insert, erase-All}
use chat_wire.PlayerDb.Data.{ℤ, negsuc, PlayerData, ltb_ℤ, beq_ℤ}
use chat_wire.PlayerDb.Store.{
  Text, Store, mark_player_dirty, set_player_list_dirty, set_player_stats_dirty, set_ban_reason,
  set_id, seen, change_level, delete_id, level_set, level_get, put, call,
}

abbrev pub AtMost : ℕ → Bytes × ℕ → Type 0
AtMost n e = e.1 ≤ n

-- The players and the versions change at most under the name `k`, which gets the next version.
pub record Changed (k : Bytes) (players players' : Assoc Bytes PlayerData)
    (versions versions' : Assoc Bytes ℕ) (next : ℕ) : Type 0 where
  pub marked : lookup k versions' ≡ some (suc next)
  pub bounded : All (AtMost next) versions → All (AtMost (suc next)) versions'
  pub players_kept : (j : Bytes) → bytes_beq k j ≡ false → lookup j players' ≡ lookup j players
  pub versions_kept : (j : Bytes) → bytes_beq k j ≡ false → lookup j versions' ≡ lookup j versions

abbrev pub Touched : Bytes → Store → Store → Type 0
Touched k s u =
    (u.next ≡ suc s.next) × Changed k s.player_list u.player_list s.versions u.versions s.next

-- A call changes nothing, or touches one name.
abbrev pub Same : Store → Store → Type 0
Same s u = (u.next ≡ s.next) × (u.player_list ≡ s.player_list) × (u.versions ≡ s.versions)

abbrev pub Tracked : Bytes → Store → Store → Type 0
Tracked k s u = Same s u ⊎ Touched k s u

pub unchanged : {k : Bytes} (s : Store) → Tracked k s s
unchanged s = inl (refl, refl, refl)

-- A name that is its own key once it is in lower case: it has no blanks around it.
abbrev pub Plain : Text → Bytes → Type 0
Plain t k = (t.to_lower (t.trim_space k) ≡ k) × (k ≢ [])

abbrev pub Room : Store → Type 0
Room s = suc s.next < 2 ^ 64

beq_self : (k : Bytes) → bytes_beq k k ≡ true
beq_self k = ground (arith, bytes_beq_iff k k)

abbrev pub marked_store : Bytes → Store → Store
marked_store k s = record s { next = suc s.next; versions = insert k (suc s.next) s.versions }

mark-lem :
    (t : Text) (k : Bytes) (s : Store)
    → Plain t k
    → Room s
    → mark_player_dirty t k s ≡ marked_store k s
unfolding mark_player_dirty
mark-lem t k s plain room = rw plain.0 (ground arith)

marked-AtMost :
    (k : Bytes) (n : ℕ) (versions : Assoc Bytes ℕ)
    → All (AtMost n) versions
    → All (AtMost (suc n)) (insert k (suc n) versions)
unfolding insert
marked-AtMost k n versions b = (
  omega arith,
  erase-All (AtMost (suc n)) k versions
      (All-map (AtMost n) (AtMost (suc n)) (λ e h. omega (arith, h)) versions b),
)

marked_store-Touched :
    (k : Bytes) (p : PlayerData) (s : Store) → Touched k s (marked_store k (put k p s))
marked_store-Touched k p s = (
  refl,
  record {
    marked = rw (lookup-insert k k (suc s.next) s.versions) (rw (beq_self k) refl);
    bounded = λ b. marked-AtMost k s.next s.versions b;
    players_kept = λ j h. rw (lookup-insert k j p s.player_list) (rw h refl);
    versions_kept = λ j h. rw (lookup-insert k j (suc s.next) s.versions) (rw h refl);
  },
)

-- A player put down and marked, by either of the two calls that mark.
list-Touched :
    (t : Text) (k : Bytes) (p : PlayerData) (s : Store)
    → Plain t k
    → Room s
    → Touched k s (set_player_list_dirty t k (put k p s))
unfolding set_player_list_dirty
list-Touched t k p s plain room =
    rw (mark-lem t k (put k p s) plain room) (marked_store-Touched k p s)

stats-Touched :
    (t : Text) (k : Bytes) (p : PlayerData) (s : Store)
    → Plain t k
    → Room s
    → Touched k s (set_player_stats_dirty t k (put k p s))
unfolding set_player_stats_dirty
stats-Touched t k p s plain room =
    rw (mark-lem t k (put k p s) plain room) (marked_store-Touched k p s)

pub set_ban_reason-Touched :
    (t : Text) (now : ℤ) (k reason : Bytes) (do_ban : Bool) (o : Option PlayerData) (s : Store)
    → Plain t k
    → Room s
    → Touched k s (set_ban_reason t now k reason do_ban o s).0
unfolding set_ban_reason
set_ban_reason-Touched t now k reason do_ban (some p) s plain room =
    list-Touched t k _ (call _ s) plain room
set_ban_reason-Touched t now k reason do_ban none s plain room =
    list-Touched t k _ (call _ s) plain room

pub set_id-Touched :
    (t : Text) (now : ℤ) (k id : Bytes) (level : ℤ) (o : Option PlayerData) (s : Store)
    → Plain t k
    → Room s
    → Touched k s (set_id t now k id level o s).0
unfolding set_id
set_id-Touched t now k id level (some p) s plain room = list-Touched t k _ (call _ s) plain room
set_id-Touched t now k id level none s plain room = list-Touched t k _ s plain room

pub seen-Tracked :
    (t : Text) (now : ℤ) (k : Bytes) (o : Option PlayerData) (s : Store)
    → Plain t k
    → Room s
    → Tracked k s (seen t now k o s)
unfolding seen
seen-Tracked t now k none s plain room = unchanged s
seen-Tracked t now k (some p) s plain room = inr (stats-Touched t k _ s plain room)

put-Touched : (k : Bytes) (p : PlayerData) (s u : Store) → Touched k s u → Touched k s (put k p u)
put-Touched k p s u h = (
  h.0,
  record {
    marked = h.1.marked;
    bounded = h.1.bounded;
    players_kept = λ j d. rw (lookup-insert k j p u.player_list) (rw d (h.1.players_kept j d));
    versions_kept = h.1.versions_kept;
  },
)

delete_id-Touched :
    (k : Bytes) (level : ℤ) (o : Option PlayerData) (s u : Store)
    → Touched k s u
    → Touched k s (delete_id k level o u)
delete_id-Touched k level none s u h = h
delete_id-Touched k level (some p) s u h =
    if-All (Touched k s) (ltb_ℤ level (negsuc 253)) (put-Touched k _ s u h) h

change_level-Touched :
    (t : Text) (now : ℤ) (k : Bytes) (level : ℤ) (p : PlayerData) (s : Store)
    → Plain t k
    → Room s
    → Touched k s (change_level t now k level true p s)
unfolding change_level
change_level-Touched t now k level p s plain room =
    if-All (Touched k s) (not (beq_ℤ p.level level)) (list-Touched t k _ (call _ s) plain room)
      (stats-Touched t k _ s plain room)

change_level-Tracked :
    (t : Text) (now : ℤ) (k : Bytes) (level : ℤ) (touch : Bool) (p : PlayerData) (s : Store)
    → Plain t k
    → Room s
    → Tracked k s (change_level t now k level touch p s)
unfolding change_level
change_level-Tracked t now k level touch p s plain room =
    if-All (Tracked k s) (not (beq_ℤ p.level level))
      (inr (list-Touched t k _ (call _ s) plain room))
      (if-All (Tracked k s) touch (inr (stats-Touched t k _ s plain room)) (unchanged s))

not_deleted :
    (k : Bytes) (level : ℤ) (o : Option PlayerData) (u : Store)
    → ltb_ℤ level (negsuc 253) ≡ false
    → delete_id k level o u ≡ u
not_deleted k level none u h = refl
not_deleted k level (some p) u h = rw h refl

-- A level that is set marks the player, unless it is reported from the game and unchanged.
pub level_set-Tracked :
    (t : Text) (now : ℤ) (k : Bytes) (level : ℤ) (modify_only touch : Bool) (o : Option PlayerData)
    (s : Store)
    → Plain t k
    → Room s
    → (touch ≡ true) ⊎ (ltb_ℤ level (negsuc 253) ≡ false)
    → Tracked k s (level_set t now k level modify_only touch o s).0
unfolding level_set
level_set-Tracked t now k level true touch none s plain room h = unchanged s
level_set-Tracked t now k level false touch none s plain room h =
    inr (list-Touched t k _ s plain room)
level_set-Tracked t now k level modify_only touch (some p) s plain room (inl e) = inr (
    delete_id-Touched k level _ s _ (
      subst (λ b. Touched k s (change_level t now k level b p s)) (sym e)
        (change_level-Touched t now k level p s plain room)))
level_set-Tracked t now k level modify_only touch (some p) s plain room (inr e) =
    rw (not_deleted k level _ (change_level t now k level touch p s) e)
      (change_level-Tracked t now k level touch p s plain room)

pub level_get-Tracked :
    (t : Text) (now : ℤ) (k : Bytes) (modify_only : Bool) (o : Option PlayerData) (s : Store)
    → Plain t k
    → Room s
    → Tracked k s (level_get t now k modify_only o s).0
unfolding level_get
level_get-Tracked t now k modify_only (some p) s plain room = inr (stats-Touched t k _ s plain room)
level_get-Tracked t now k true none s plain room = unchanged s
level_get-Tracked t now k false none s plain room = inr (list-Touched t k _ s plain room)
