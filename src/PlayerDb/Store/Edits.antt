-- ===== src/PlayerDb/Store/Edits.antt =====
-- Any sequence of the calls of fact/playerDB.go that change players.
use chat_wire.Common.{
  ℕ, suc, ◌+◌, ◌^◌, ◌≤◌, ◌<◌, ◌≡◌, ◌⊎◌, inl, inr, refl, ap, ◌∙◌, Bool, true, false, ltb, some, List,
  [], ◌∷◌, arith, Bytes, bytes_beq, bytes_beq_iff, bytes_eq, length, if-All, Bool-cases, ◌||◌, All,
}
use chat_wire.Common.Assoc.{lookup}
use chat_wire.PlayerDb.Data.{ℤ, negsuc, ltb_ℤ}
use chat_wire.PlayerDb.Store.{
  Text, Store, is_blank, bad_name, max_ban_reason_length, player_set_ban_reason, player_set_id,
  update_seen, player_level_set, player_level_get,
}
use chat_wire.PlayerDb.Store.Tracking.{
  AtMost, Tracked, Plain, Room, unchanged, set_ban_reason-Touched, set_id-Touched, seen-Tracked,
  level_set-Tracked, level_get-Tracked,
}

-- A call, with its arguments; the number of each is `compactNow()`.
pub data Edit : Type 0 where
  set_ban_reason_of : ℤ → Bytes → Bytes → Bool → Edit
  set_id_of : ℤ → Bytes → Bytes → ℤ → Edit
  see : ℤ → Bytes → Edit
  set_level_of : ℤ → Bytes → ℤ → Bool → Bool → Edit
  get_level_of : ℤ → Bytes → Bool → Edit

pub apply : Text → Edit → Store → Store
apply t (set_ban_reason_of now k reason do_ban) s =
    (player_set_ban_reason t now k reason do_ban s).0
apply t (set_id_of now k id level) s = (player_set_id t now k id level s).0
apply t (see now k) s = update_seen t now k s
apply t (set_level_of now k level modify_only touch) s =
    (player_level_set t now k level modify_only touch s).0
apply t (get_level_of now k modify_only) s = (player_level_get t now k modify_only s).0

pub apply_all : Text → List Edit → Store → Store
unfolding apply
apply_all t [] s = s
apply_all t (e ∷ es) s = apply_all t es (apply t e s)

abbrev pub subject : Edit → Bytes
subject (set_ban_reason_of now k reason do_ban) = k
subject (set_id_of now k id level) = k
subject (see now k) = k
subject (set_level_of now k level modify_only touch) = k
subject (get_level_of now k modify_only) = k

-- A level of -255 or less that is reported from the game, not set by ChatWire.
abbrev pub reported_deletion : Edit → Bool
reported_deletion (set_level_of now k level modify_only true) = false
reported_deletion (set_level_of now k level modify_only false) = ltb_ℤ level (negsuc 253)
reported_deletion _ = false

-- The name has no blanks around it, and the call is no deletion that the game reports.
abbrev pub Allowed : Text → Edit → Type 0
Allowed t e = Plain t (t.to_lower (subject e)) × (reported_deletion e ≡ false)

apply-Tracked :
    (t : Text) (e : Edit) (s : Store)
    → Allowed t e
    → Room s
    → Tracked (t.to_lower (subject e)) s (apply t e s)
unfolding apply player_set_ban_reason player_set_id update_seen player_level_set player_level_get
apply-Tracked t (set_ban_reason_of now n reason do_ban) s a room =
    if-All (λ (o : Store × Bool). Tracked (t.to_lower n) s o.0)
      (bad_name n || ltb max_ban_reason_length (length reason)) (unchanged s)
      (inr (set_ban_reason-Touched t now _ reason do_ban _ s a.0 room))
apply-Tracked t (set_id_of now n id level) s a room =
    if-All (λ (o : Store × Bool). Tracked (t.to_lower n) s o.0) (is_blank id || bad_name n)
      (unchanged s) (inr (set_id-Touched t now _ id level _ s a.0 room))
apply-Tracked t (see now n) s a room =
    if-All (Tracked (t.to_lower n) s) (bad_name n) (unchanged s) (seen-Tracked t now _ _ s a.0 room)
apply-Tracked t (set_level_of now n level modify_only true) s a room =
    if-All (λ (o : Store × Bool). Tracked (t.to_lower n) s o.0) (bad_name n) (unchanged s)
      (level_set-Tracked t now _ level modify_only true _ s a.0 room (inl refl))
apply-Tracked t (set_level_of now n level modify_only false) s a room =
    if-All (λ (o : Store × Bool). Tracked (t.to_lower n) s o.0) (bad_name n) (unchanged s)
      (level_set-Tracked t now _ level modify_only false _ s a.0 room (inr a.1))
apply-Tracked t (get_level_of now n modify_only) s a room =
    if-All (λ (o : Store × ℤ). Tracked (t.to_lower n) s o.0) (bad_name n) (unchanged s)
      (level_get-Tracked t now _ modify_only _ s a.0 room)

-- Under a name, nothing has changed, or a version newer than all the old ones stands there.
abbrev pub KeptAt : Bytes → Store → Store → Type 0
KeptAt k s u =
    (lookup k u.player_list ≡ lookup k s.player_list) × (lookup k u.versions ≡ lookup k s.versions)

abbrev pub NewAt : Bytes → Store → Store → Type 0
NewAt k s u = (v : ℕ) × (lookup k u.versions ≡ some v) × (s.next < v)

pub record Moved (s u : Store) : Type 0 where
  pub grown : s.next ≤ u.next
  pub bounded : All (AtMost s.next) s.versions → All (AtMost u.next) u.versions
  pub at : (k : Bytes) → KeptAt k s u ⊎ NewAt k s u

-- One touched name.
touched-at : (j k : Bytes) (s u : Store) → Tracked j s u → KeptAt k s u ⊎ NewAt k s u
touched-at j k s u (inl h) = inl (ap (lookup k) h.1, ap (lookup k) h.2)
touched-at j k s u (inr h) = elim (Bool-cases (bytes_beq j k)) [
  | inl e ↦ inr (suc s.next, ground (arith, h.1.marked, bytes_beq_iff j k), omega arith)
  | inr e ↦ inl (h.1.players_kept k e, h.1.versions_kept k e)
]

moved-at :
    (k : Bytes) (s u w : Store)
    → s.next ≤ u.next
    → KeptAt k s u ⊎ NewAt k s u
    → KeptAt k u w ⊎ NewAt k u w
    → KeptAt k s w ⊎ NewAt k s w
moved-at k s u w g a (inr (v, e, l)) = inr (v, e, omega arith)
moved-at k s u w g (inl a) (inl b) = inl (b.0 ∙ a.0, b.1 ∙ a.1)
moved-at k s u w g (inr (v, e, l)) (inl b) = inr (v, b.1 ∙ e, l)

pub Tracked-next :
    (j : Bytes) (s u : Store) → Tracked j s u → (s.next ≤ u.next) × (u.next ≤ suc s.next)
Tracked-next j s u (inl h) = (omega (arith, h.0), omega (arith, h.0))
Tracked-next j s u (inr h) = (omega (arith, h.0), omega (arith, h.0))

Tracked-AtMost :
    (j : Bytes) (s u : Store)
    → Tracked j s u
    → All (AtMost s.next) s.versions
    → All (AtMost u.next) u.versions
Tracked-AtMost j s u (inl h) b = rw h.0 (rw h.2 b)
Tracked-AtMost j s u (inr h) b = rw h.0 (h.1.bounded b)

-- Any calls, as long as the counter does not wrap around.
pub apply_all-Moved :
    (t : Text) (es : List Edit) (s : Store)
    → All (Allowed t) es
    → s.next + length es < 2 ^ 64
    → Moved s (apply_all t es s)
unfolding apply_all
apply_all-Moved t [] s a room = record {
  grown = omega arith;
  bounded = λ b. b;
  at = λ k. inl (refl, refl);
}
apply_all-Moved t (e ∷ es) s a room =
    let one = apply-Tracked t e s a.0 (omega arith) in
    let (lo, hi) = Tracked-next _ s (apply t e s) one in
    let rest = apply_all-Moved t es (apply t e s) a.1 (omega arith) in
    record {
      grown = omega (arith, rest.grown);
      bounded = λ b. rest.bounded (Tracked-AtMost _ s (apply t e s) one b);
      at = λ k.
          moved-at k s (apply t e s) (apply_all t es (apply t e s)) lo
            (touched-at (t.to_lower (subject e)) k s (apply t e s) one) (rest.at k);
    }
