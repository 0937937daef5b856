-- ===== src/MapVotes/Tally.antt =====
-- What `TallyMapVotes` (fact/voteMap.go) counts.
use chat_wire.Common.{
  ℕ, ◌+◌, ◌*◌, ◌≡◌, refl, ap, String, str_eq, string_eq, Bool, true, false, not, ◌&&◌, ◌||◌, ltb,
  List, [], ◌∷◌, ◌++◌, if◌then◌else◌, inl, inr, Bool-cases, arith,
}
use chat_wire.MapVotes.Votes.{
  Vote, Count, VoteBox, minute, mark, mark_all, is_valid, points, valid_votes, bump, has_selection,
  add_count, recount, tally_map_votes,
}

-- A vote that counts: it is not void, has not expired and is at most six hours old.
unfoldable pub counts : ℕ → Vote → Bool
counts now v = not v.voided && not v.expired && not (ltb (v.time + 360 * minute) now)

-- The points of a selection, and all points.
unfoldable pub points_for : ℕ → String → List Vote → ℕ
points_for now s [] = 0
points_for now s (v ∷ vs) =
    let rest = points_for now s vs in
    if counts now v && str_eq v.selection s then points v + rest else rest

unfoldable pub all_points : ℕ → List Vote → ℕ
all_points now [] = 0
all_points now (v ∷ vs) =
    let rest = all_points now vs in if counts now v then points v + rest else rest

-- What the tally says of a selection: its first entry, or nothing.
unfoldable pub tally_count : String → List Count → ℕ
tally_count s [] = 0
tally_count s (a ∷ as') =
    let rest = tally_count s as' in if str_eq a.selection s then a.count else rest

unfoldable pub total : List Count → ℕ
total [] = 0
total (a ∷ as') = a.count + total as'

-- No selection stands in the tally twice.
unfoldable pub Distinct : List Count → Type 0
Distinct [] = Unit
Distinct (a ∷ as') = (has_selection a.selection as' ≡ false) × Distinct as'

-- The points of a marked vote for a selection.
unfoldable own_points : String → Vote → ℕ
own_points s v = if is_valid v && str_eq v.selection s then points v else 0

has_selection-bump :
    (s r : String) (n : ℕ) (t : List Count) → has_selection r (bump s n t) ≡ has_selection r t
unfolding bump
has_selection-bump s r n [] = refl
has_selection-bump s r n (a ∷ as') = ground (arith, has_selection-bump s r n as')

tally_count-bump :
    (s r : String) (n : ℕ) (t : List Count)
    → tally_count r (bump s n t)
      ≡ (if str_eq s r && has_selection r t then tally_count r t + n else tally_count r t)
unfolding bump tally_count
tally_count-bump s r n [] = ground arith
tally_count-bump s r n (a ∷ as') = ground (
  arith,
  tally_count-bump s r n as',
  string_eq.beq_iff s r,
  string_eq.beq_iff s a.selection,
  string_eq.beq_iff r a.selection,
  string_eq.beq_iff a.selection r,
)

same_selection :
    (s r : String) (t : List Count) → str_eq s r ≡ true → has_selection s t ≡ has_selection r t
same_selection s r t h = ap (λ (u : String). has_selection u t) ((string_eq.beq_iff s r).0 h)

total-bump :
    (s : String) (n : ℕ) (t : List Count)
    → Distinct t
    → total (bump s n t) ≡ (if has_selection s t then total t + n else total t)
unfolding bump total Distinct
total-bump s n [] h = refl
total-bump s n (a ∷ as') h = elim (Bool-cases (str_eq s a.selection)) [
  | inl e ↦ ground (arith, total-bump s n as' h.1, h.0, same_selection s a.selection as' e)
  | inr e ↦ ground (arith, total-bump s n as' h.1)
]

Distinct-bump : (s : String) (n : ℕ) (t : List Count) → Distinct t → Distinct (bump s n t)
unfolding bump Distinct
Distinct-bump s n [] h = tt
Distinct-bump s n (a ∷ as') h = elim (Bool-cases (str_eq s a.selection)) [
  | inl e ↦ rw (e, has_selection-bump s a.selection n as') (h.0, Distinct-bump s n as' h.1)
  | inr e ↦ rw (e, has_selection-bump s a.selection n as') (h.0, Distinct-bump s n as' h.1)
]

module _ (c : Count) where
  tally_count-append :
      (r : String) (t : List Count)
      → has_selection c.selection t ≡ false
      → tally_count r (t ++ c ∷ [])
        ≡ (if str_eq c.selection r then tally_count r t + c.count else tally_count r t)
  unfolding tally_count
  tally_count-append r [] h = ground arith
  tally_count-append r (a ∷ as') h = ground (
    arith,
    tally_count-append r as',
    string_eq.beq_iff c.selection r,
    string_eq.beq_iff c.selection a.selection,
    string_eq.beq_iff a.selection r,
  )

  total-append : (t : List Count) → total (t ++ c ∷ []) ≡ total t + c.count
  unfolding total
  total-append [] = omega arith
  total-append (a ∷ as') = omega (arith, total-append as')

  has_selection-append :
      (r : String) (t : List Count)
      → has_selection r (t ++ c ∷ []) ≡ (has_selection r t || str_eq r c.selection)
  has_selection-append r [] = ground arith
  has_selection-append r (a ∷ as') = ground (arith, has_selection-append r as')

  Distinct-append :
      (t : List Count) → has_selection c.selection t ≡ false → Distinct t → Distinct (t ++ c ∷ [])
  unfolding Distinct
  Distinct-append [] h d = (refl, tt)
  Distinct-append (a ∷ as') h d = (
    ground (
      arith,
      has_selection-append a.selection as',
      string_eq.beq_iff c.selection a.selection,
      string_eq.beq_iff a.selection c.selection,
      d.0,
    ),
    Distinct-append as' (ground arith) d.1,
  )

absent : (r : String) (t : List Count) → has_selection r t ≡ false → tally_count r t ≡ 0
unfolding tally_count
absent r [] h = refl
absent r (a ∷ as') h =
    ground (arith, absent r as', string_eq.beq_iff r a.selection, string_eq.beq_iff a.selection r)

-- One vote is added to the tally.
module _ (v : Vote) where
  tally_count-add_count :
      (r : String) (t : List Count)
      → tally_count r (add_count v t)
        ≡ (if str_eq v.selection r then tally_count r t + points v else tally_count r t)
  tally_count-add_count r t = elim (Bool-cases (has_selection v.selection t)) [
    | inl e ↦
        ground (arith, tally_count-bump v.selection r (points v) t, same_selection v.selection r t)
    | inr e ↦
        rw (e) (tally_count-append (record { selection = v.selection; count = points v }) r t e)
  ]

  total-add_count : (t : List Count) → Distinct t → total (add_count v t) ≡ total t + points v
  total-add_count t d = elim (Bool-cases (has_selection v.selection t)) [
    | inl e ↦ ground (arith, total-bump v.selection (points v) t d)
    | inr e ↦ ground (arith, total-append (record { selection = v.selection; count = points v }) t)
  ]

  Distinct-add_count : (t : List Count) → Distinct t → Distinct (add_count v t)
  Distinct-add_count t d = elim (Bool-cases (has_selection v.selection t)) [
    | inl e ↦ rw (e) (Distinct-bump v.selection (points v) t d)
    | inr e ↦ rw (e) (Distinct-append (record { selection = v.selection; count = points v }) t e d)
  ]

-- What a vote adds to a selection, and the sum over the marked votes.
unfoldable marked_points : String → List Vote → ℕ
marked_points s [] = 0
marked_points s (v ∷ vs) = own_points s v + marked_points s vs

tally_count-recount :
    (r : String) (vs : List Vote) (t : List Count)
    → tally_count r (recount vs t) ≡ tally_count r t + marked_points r vs
unfolding recount marked_points own_points
tally_count-recount r [] t = omega arith
tally_count-recount r (v ∷ vs) t = elim (Bool-cases (is_valid v)) [
  | inl e ↦
      rw (e, tally_count-recount r vs (add_count v t), tally_count-add_count v r t) (ground arith)
  | inr e ↦ rw (e, tally_count-recount r vs t) (omega arith)
]

Distinct-recount : (vs : List Vote) (t : List Count) → Distinct t → Distinct (recount vs t)
unfolding recount
Distinct-recount [] t d = d
Distinct-recount (v ∷ vs) t d = elim (Bool-cases (is_valid v)) [
  | inl e ↦ rw (e) (Distinct-recount vs (add_count v t) (Distinct-add_count v t d))
  | inr e ↦ rw (e) (Distinct-recount vs t d)
]

total-recount :
    (vs : List Vote) (t : List Count) → Distinct t → total (recount vs t) ≡ total t + valid_votes vs
unfolding recount
total-recount [] t d = omega arith
total-recount (v ∷ vs) t d = elim (Bool-cases (is_valid v)) [
  | inl e ↦
      rw (e, total-recount vs (add_count v t) (Distinct-add_count v t d), total-add_count v t d)
        (omega arith)
  | inr e ↦ rw (e, total-recount vs t d) (omega arith)
]

is_valid-mark : (now : ℕ) (v : Vote) → is_valid (mark now v) ≡ counts now v
unfolding counts
is_valid-mark now v = ground arith

points-mark : (now : ℕ) (v : Vote) → points (mark now v) ≡ points v
points-mark now v = ground arith

selection-mark : (now : ℕ) (v : Vote) → (mark now v).selection ≡ v.selection
selection-mark now v = ground arith

marked_points-mark_all :
    (now : ℕ) (s : String) (vs : List Vote)
    → marked_points s (mark_all now vs) ≡ points_for now s vs
unfolding marked_points points_for own_points
marked_points-mark_all now s [] = refl
marked_points-mark_all now s (v ∷ vs) =
    rw
      (
        is_valid-mark now v,
        points-mark now v,
        selection-mark now v,
        marked_points-mark_all now s vs,
      )
      (ground arith)

valid_votes-mark_all :
    (now : ℕ) (vs : List Vote) → valid_votes (mark_all now vs) ≡ all_points now vs
unfolding all_points
valid_votes-mark_all now [] = refl
valid_votes-mark_all now (v ∷ vs) =
    rw (is_valid-mark now v, points-mark now v, valid_votes-mark_all now vs) refl

-- The tally says of every selection the points of the votes for it that are not void, not expired and at
-- most six hours old; no selection stands in it twice; and its total is the number of points
-- that is reported.
pub tally_map_votes-counted :
    (now : ℕ) (b : VoteBox)
    → (let c = tally_map_votes now b in
        ((s : String) → tally_count s c.0.tally ≡ points_for now s b.votes)
        × Distinct c.0.tally
        × (total c.0.tally ≡ c.1)
        × (c.1 ≡ all_points now b.votes))
unfolding tally_map_votes Distinct total tally_count
tally_map_votes-counted now b = (
  λ s. omega (
    arith,
    tally_count-recount s (mark_all now b.votes) [],
    marked_points-mark_all now s b.votes,
  ),
  Distinct-recount (mark_all now b.votes) [] tt,
  omega (arith, total-recount (mark_all now b.votes) [] tt),
  valid_votes-mark_all now b.votes,
)
