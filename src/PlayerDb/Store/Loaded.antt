-- ===== src/PlayerDb/Store/Loaded.antt =====
-- What `LoadPlayers` (fact/playerDB.go) leaves and what it loads.
use chat_wire.Common.{
  ℕ, ◌≡◌, refl, ap, ◌∙◌, Bool, true, false, Option, none, some, List, [], ◌∷◌, if-All, Bool-cases,
  inl, inr, Bytes, bytes_beq, bytes_beq_iff, bytes_eq, arith,
}
use chat_wire.Common.Assoc.{Assoc, lookup, insert, lookup-insert}
use chat_wire.PlayerDb.Data.{ℤ, PlayerData}
use chat_wire.PlayerDb.Store.{
  Text, Store, player_change_pending, set_player_list_dirty, mark_player_dirty, bad_name, put,
  is_blank,
}
use chat_wire.PlayerDb.Store.Changes.{add, add_player}
use chat_wire.PlayerDb.Store.Loading.{
  Mode, Load, is_reload, promoted, load_entry, load_entries, tell_levels, mark_names, begin_load,
  load_players,
}

-- A store in which the name is pending has the player that it had, and the name is still pending.
unfoldable Left : Bytes → Option PlayerData → Store → Type 0
Left k o s = (lookup k s.player_list ≡ o) × ((v : ℕ) × (lookup k s.versions ≡ some v))

module _ (t : Text) (k : Bytes) (o : Option PlayerData) where
  Left-put :
      (j : Bytes) (p : PlayerData) (s : Store)
      → bytes_beq j k ≡ false
      → Left k o s
      → Left k o (put j p s)
  unfolding Left
  Left-put j p s other h = (lookup-insert j k p s.player_list ∙ rw (other) h.0, h.1)

  Left-add :
      (j : Bytes) (p : PlayerData) (b : Bool) (q : Option PlayerData) (s : Store)
      → bytes_beq j k ≡ false
      → Left k o s
      → Left k o (add j p b q s).0
  unfolding add Left
  Left-add j p b none s other h = Left-put j _ s other h
  Left-add j p b (some q) s other h = Left-put j _ s other h

  -- An entry whose name in lower case is another one.
  Left-add_player :
      (j : Bytes) (p : PlayerData) (b : Bool) (s : Store)
      → bytes_beq (t.to_lower j) k ≡ false
      → Left k o s
      → Left k o (add_player t j p b s).0
  unfolding add_player
  Left-add_player j p b s other h =
      if-All (λ (r : Store × Bool). Left k o r.0) (bad_name j) h
        (Left-add (t.to_lower j) p b (lookup (t.to_lower j) s.player_list) s other h)

  pending_other :
      (j : Bytes) (s : Store)
      → player_change_pending t j s ≡ false
      → Left k o s
      → bytes_beq (t.to_lower j) k ≡ false
  unfolding player_change_pending Left
  pending_other j s p h = elim (Bool-cases (bytes_beq (t.to_lower j) k)) [
    | inl e ↦ absurd (
        ground (
          arith,
          h.1.1,
          ap (λ (x : Bytes). lookup x s.versions) ((bytes_beq_iff (t.to_lower j) k).0 e),
        ))
    | inr e ↦ e
  ]

  Left-load_entry :
      (m : Mode) (j : Bytes) (p : PlayerData) (l : Load)
      → is_reload m ≡ true
      → Left k o l.store
      → Left k o (load_entry t m j p l).store
  unfolding load_entry
  Left-load_entry m j p l r h = elim (Bool-cases (player_change_pending t j l.store)) [
    | inl e ↦ rw (r, e) h
    | inr e ↦
        let clear : m.clear_bans ≡ false = ground arith in
        let keep : m.minimize ≡ false = ground arith in
        rw (r, e, clear, keep)
          (Left-add_player j (promoted p) _ l.store (pending_other j l.store e h) h)
  ]

  Left-load_entries :
      (m : Mode) (players : Assoc Bytes PlayerData) (l : Load)
      → is_reload m ≡ true
      → Left k o l.store
      → Left k o (load_entries t m players l).store
  unfolding load_entries
  Left-load_entries m [] l r h = h
  Left-load_entries m ((j, p) ∷ players) l r h =
      Left-load_entries m players (load_entry t m j p l) r (Left-load_entry m j p l r h)

  Left-tell_levels :
      (cs : List (Bytes × ℤ × ℤ)) (s : Store) → Left k o s → Left k o (tell_levels cs s)
  unfolding Left
  Left-tell_levels [] s h = h
  Left-tell_levels ((j, old, new) ∷ cs) s h = Left-tell_levels cs _ h

  still_pending :
      (j : Bytes) (n : ℕ) (versions : Assoc Bytes ℕ)
      → ((v : ℕ) × (lookup k versions ≡ some v))
      → (w : ℕ) × (lookup k (insert j n versions) ≡ some w)
  still_pending j n versions h = elim (Bool-cases (bytes_beq j k)) [
    | inl e ↦ (n, lookup-insert j k n versions ∙ rw (e) refl)
    | inr e ↦ (h.0, lookup-insert j k n versions ∙ rw (e) h.1)
  ]

  Left-set_player_list_dirty :
      (j : Bytes) (s : Store) → Left k o s → Left k o (set_player_list_dirty t j s)
  unfolding set_player_list_dirty mark_player_dirty Left
  Left-set_player_list_dirty j s h =
      if-All (Left k o) (is_blank (t.to_lower (t.trim_space j))) h
        (h.0, still_pending (t.to_lower (t.trim_space j)) _ s.versions h.1)

  Left-mark_names : (js : List Bytes) (s : Store) → Left k o s → Left k o (mark_names t js s)
  unfolding mark_names
  Left-mark_names [] s h = h
  Left-mark_names (j ∷ js) s h = Left-mark_names js _ (Left-set_player_list_dirty j s h)

-- A reload of the file while the program runs does not touch a player with a change that is not written yet:
-- the player stays as it is in memory, and the change is still pending, whatever the file has.
pub load_players-Left :
    (t : Text) (m : Mode) (players : Assoc Bytes PlayerData) (s : Store) (k : Bytes) (v : ℕ)
    → is_reload m ≡ true
    → lookup k s.versions ≡ some v
    → (let u = load_players t m (some players) s in
        (lookup k u.player_list ≡ lookup k s.player_list)
        × ((w : ℕ) × (lookup k u.versions ≡ some w)))
unfolding load_players Left
load_players-Left t m players s k v r e =
    let o = lookup k s.player_list in
    let l = load_entries t m players (begin_load s) in
    Left-mark_names t k o l.changed_names _ (
      Left-tell_levels t k o l.level_changes _
        (Left-load_entries t k o m players (begin_load s) r (refl, (v, e))))
