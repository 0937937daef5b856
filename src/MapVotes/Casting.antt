-- ===== src/MapVotes/Casting.antt =====
-- When a vote changes the map, and the minute after it (`CheckVote` of fact/voteMap.go).
use chat_wire.Common.{
  ℕ, suc, ◌+◌, ◌≤◌, ◌<◌, ◌≡◌, refl, String, str_eq, string_eq, Bool, true, false, Option, none,
  some, List, [], ◌∷◌, arith,
}
use chat_wire.MapVotes.Votes.{
  Vote, Count, VoteBox, Voter, Meets, Reply, Placed, minute, round_second, votes_needed, mark_all,
  has_selection, tally_map_votes, place, chosen, change_map, settle, after_place, in_cooldown,
  before_votes, let_vote, check_vote, placed, refused,
}
use chat_wire.MapVotes.Tally.{points_for, tally_count, Distinct, tally_map_votes-counted}

chosen_none : (s : String) (t : List Count) → chosen t ≡ none → tally_count s t < votes_needed
unfolding chosen tally_count
chosen_none s [] h = omega arith
chosen_none s (a ∷ as') h = ground (arith, chosen_none s as')

not_there :
    (s r : String) (t : List Count)
    → has_selection r t ≡ false
    → chosen t ≡ some s
    → str_eq r s ≡ false
unfolding chosen
not_there s r [] h e = absurd (ground arith)
not_there s r (a ∷ as') h e = ground (arith, not_there s r as', string_eq.beq_iff r s)

chosen_some :
    (s : String) (t : List Count) → Distinct t → chosen t ≡ some s → votes_needed ≤ tally_count s t
unfolding chosen tally_count Distinct
chosen_some s [] d e = absurd (ground arith)
chosen_some s (a ∷ as') d e =
    ground (
      arith,
      chosen_some s as' d.1,
      not_there s a.selection as' d.0,
      string_eq.beq_iff a.selection s,
    )

-- No selection has the points, and the map stays; or one has, the votes are cleared, and the map is
-- changed to it.
unfoldable pub Settled : Meets → VoteBox → List Vote → VoteBox → Option String → Type 0
Settled m b vs c none =
    ((s : String) → points_for m.recounted_at s vs < votes_needed)
    × (c.votes ≡ mark_all m.recounted_at vs)
    × ((s : String) → tally_count s c.tally ≡ points_for m.recounted_at s vs)
    × Distinct c.tally
    × (c.last_map_change ≡ b.last_map_change)
    × (c.num_changes ≡ b.num_changes)
Settled m b vs c (some s) =
    (votes_needed ≤ points_for m.recounted_at s vs)
    × (c.votes ≡ [])
    × (c.tally ≡ [])
    × (c.last_map_change ≡ some (round_second m.changed_at))
    × (c.num_changes ≡ suc b.num_changes)

settle-Settled :
    (m : Meets) (b : VoteBox) (vs : List Vote) (o : Option String)
    → chosen ((tally_map_votes m.recounted_at (record b { votes = vs })).0.tally) ≡ o
    → (let r = settle m.recounted_at m.changed_at (record b { votes = vs }) in
        Settled m b vs r.0 r.1)
unfolding tally_map_votes Settled
settle-Settled m b vs none e =
    let counted = tally_map_votes-counted m.recounted_at (record b { votes = vs }) in
    rw (e)
      (λ s. omega (arith, counted.0 s, chosen_none s _ e), refl, counted.0, counted.1, refl, refl)
settle-Settled m b vs (some s) e =
    let counted = tally_map_votes-counted m.recounted_at (record b { votes = vs }) in
    rw (e) (omega (arith, counted.0 s, chosen_some s _ counted.1 e), refl, refl, refl, refl)

-- A vote that is placed: the user is told so, and the map is changed to a selection if and only if one has two
-- points among the votes as they are then. Where it is changed, the votes and the tally are cleared, the nearest
-- second is kept as the time of the change, and the change is counted. Where it is not, the votes are those, marked
-- anew as they expire, the tally says the points of each selection once, and the time and the number of changes stay.
pub check_vote-Settled :
    (equal_fold : String → String → Bool) (u : Voter) (arg : String) (m : Meets) (b : VoteBox)
    (said : Reply) (vs : List Vote)
    → before_votes equal_fold u arg m b ≡ none
    → place equal_fold u arg m.cast_at (mark_all m.counted_at b.votes) ≡ placed said vs
    → (let r = check_vote equal_fold u arg m b in (r.1 ≡ said) × Settled m b vs r.0 r.2)
unfolding check_vote tally_map_votes Settled
check_vote-Settled equal_fold u arg m b said vs go p =
    rw (go, p) (refl, settle-Settled m (tally_map_votes m.counted_at b).0 vs _ refl)

kept_change :
    (now : ℕ) (b : VoteBox) (s : String) (o : Option String)
    → (change_map now b o).1 ≡ some s
    → (change_map now b o).0.last_map_change ≡ some (round_second now)
kept_change now b s none h = absurd (ground arith)
kept_change now b s (some r) h = refl

kept_after :
    (m : Meets) (b : VoteBox) (s : String) (p : Placed)
    → (after_place m b p).2 ≡ some s
    → (after_place m b p).0.last_map_change ≡ some (round_second m.changed_at)
unfolding tally_map_votes
kept_after m b s (refused r) h = absurd (ground arith)
kept_after m b s (placed r vs) h = kept_change m.changed_at _ s _ h

-- Every map change starts the cooldown.
kept :
    (equal_fold : String → String → Bool) (u : Voter) (arg : String) (m : Meets) (b : VoteBox)
    (s : String) (o : Option Reply)
    → (let_vote equal_fold u arg m b o).2 ≡ some s
    → (let_vote equal_fold u arg m b o).0.last_map_change ≡ some (round_second m.changed_at)
unfolding tally_map_votes
kept equal_fold u arg m b s none h = kept_after m _ s _ h
kept equal_fold u arg m b s (some r) h = absurd (ground arith)

in_time :
    (now last : ℕ) (o : Option ℕ) → o ≡ some last → now < last + minute → in_cooldown now o ≡ true
in_time now last none e early = absurd (ground arith)
in_time now last (some t) e early = ground arith

stays :
    (equal_fold : String → String → Bool) (u : Voter) (arg : String) (m : Meets) (b : VoteBox)
    (o : Option Reply)
    → before_votes equal_fold u arg m b ≡ o
    → in_cooldown m.cooldown_at b.last_map_change ≡ true
    → (let r = let_vote equal_fold u arg m b o in (r.0 ≡ b) × (r.2 ≡ none))
stays equal_fold u arg m b none e c = absurd (ground arith)
stays equal_fold u arg m b (some r) e c = (refl, refl)

-- A vote less than a minute after the last change.
pub refused-cooldown :
    (equal_fold : String → String → Bool) (u : Voter) (arg : String) (m : Meets) (b : VoteBox)
    (last : ℕ)
    → b.last_map_change ≡ some last
    → m.cooldown_at < last + minute
    → (let r = check_vote equal_fold u arg m b in (r.0 ≡ b) × (r.2 ≡ none))
unfolding check_vote
refused-cooldown equal_fold u arg m b last e early =
    stays equal_fold u arg m b _ refl (in_time m.cooldown_at last b.last_map_change e early)

-- For a minute from the second that is nearest to a map change every vote is refused: the box stays as it is and the
-- map does not change.
pub check_vote-cooldown :
    (equal_fold : String → String → Bool) (u u' : Voter) (arg arg' s : String) (m m' : Meets)
    (b : VoteBox)
    → (check_vote equal_fold u arg m b).2 ≡ some s
    → m'.cooldown_at < round_second m.changed_at + minute
    → (let c = (check_vote equal_fold u arg m b).0 in
        let r = check_vote equal_fold u' arg' m' c in (r.0 ≡ c) × (r.2 ≡ none))
unfolding check_vote
check_vote-cooldown equal_fold u u' arg arg' s m m' b h early =
    let c = (check_vote equal_fold u arg m b).0 in
    refused-cooldown equal_fold u' arg' m' c (round_second m.changed_at)
      (kept equal_fold u arg m b s _ h) early
