-- ===== src/MapVotes/Limits.antt =====
-- The limit on changes of a vote (`CheckVote` and `TallyMapVotes` of fact/voteMap.go), over time.
use chat_wire.Common.{
  ℕ, ◌≤◌, ◌+◌, ◌*◌, String, str_eq, Bool, not, ◌&&◌, ltb, leb, Option, none, some, List, [], ◌∷◌,
  if-All, if-cases, arith, All,
}
use chat_wire.MapVotes.Votes.{
  Vote, VoteBox, Voter, Meets, Reply, Placed, refused, placed, mark, mark_all, max_vote_changes,
  max_votes_per_map, minute, vote_again, is_of, place, change_map, after_place, before_votes,
  let_vote, check_vote, tally_map_votes,
}
use chat_wire.MapVotes.OneEach.{PlacedAll, behind-PlacedAll}

-- The vote has been changed twice at most.
abbrev pub Limited : Vote → Type 0
Limited v = v.num_changes ≤ max_vote_changes

-- Uses of the command, one after the other.
unfoldable pub check_votes :
    (String → String → Bool) → List (Voter × String × Meets) → VoteBox → VoteBox
check_votes fold [] b = b
check_votes fold ((u, arg, m) ∷ cs) b = check_votes fold cs (check_vote fold u arg m b).0

Limited-mark : (now : ℕ) (v : Vote) → Limited v → Limited (mark now v)
Limited-mark now v h = ground arith

Limited-mark_all : (now : ℕ) (vs : List Vote) → All Limited vs → All Limited (mark_all now vs)
Limited-mark_all now [] h = tt
Limited-mark_all now (v ∷ vs) h = (Limited-mark now v h.0, Limited-mark_all now vs h.1)

module _ (fold : String → String → Bool) where
  -- A vote is changed only below the limit, and a vote that is cast again starts anew.
  vote_again-Limited :
      (u : Voter) (arg : String) (now : ℕ) (v : Vote) (vs : List Vote)
      → All Limited vs
      → PlacedAll fold Limited (vote_again u arg now v vs)
  unfolding PlacedAll
  vote_again-Limited u arg now v vs h =
      if-cases (PlacedAll fold Limited)
        (not (str_eq v.selection arg) && not v.voided && ltb v.num_changes max_vote_changes)
        (λ below. (ground arith, h))
        (λ above. if-All (PlacedAll fold Limited) (leb max_vote_changes v.num_changes) tt (
          if-All (PlacedAll fold Limited) (ltb now (v.time + 5 * minute)) tt (
            if-All (PlacedAll fold Limited) (not u.moderator && leb max_votes_per_map v.total_votes)
              tt (omega arith, h))))

  place-Limited :
      (u : Voter) (arg : String) (now : ℕ) (vs : List Vote)
      → All Limited vs
      → PlacedAll fold Limited (place fold u arg now vs)
  unfolding place PlacedAll
  place-Limited u arg now [] h = (omega arith, tt)
  place-Limited u arg now (v ∷ vs) h =
      if-All (PlacedAll fold Limited) (is_of fold u v) (vote_again-Limited u arg now v vs h.1) (
        behind-PlacedAll fold Limited u arg now v (place fold u arg now vs) h.0
          (place-Limited u arg now vs h.1))

  change_map-Limited :
      (now : ℕ) (b : VoteBox) (o : Option String)
      → All Limited b.votes
      → All Limited (change_map now b o).0.votes
  change_map-Limited now b none h = h
  change_map-Limited now b (some s) h = tt

  after_place-Limited :
      (m : Meets) (b : VoteBox) (p : Placed)
      → All Limited b.votes
      → PlacedAll fold Limited p
      → All Limited (after_place m b p).0.votes
  unfolding PlacedAll tally_map_votes
  after_place-Limited m b (refused r) h o = h
  after_place-Limited m b (placed r vs) h o =
      change_map-Limited m.changed_at _ _ (Limited-mark_all m.recounted_at vs o)

  let_vote-Limited :
      (u : Voter) (arg : String) (m : Meets) (b : VoteBox) (o : Option Reply)
      → All Limited b.votes
      → All Limited (let_vote fold u arg m b o).0.votes
  unfolding tally_map_votes
  let_vote-Limited u arg m b (some r) h = h
  let_vote-Limited u arg m b none h =
      let marked = Limited-mark_all m.counted_at b.votes h in
      after_place-Limited m _ _ marked
        (place-Limited u arg m.cast_at (mark_all m.counted_at b.votes) marked)

-- After any uses of the command in any order the counter of changes of every vote is two at most, if it was
-- so before.
pub check_votes-Limited :
    (fold : String → String → Bool) (cs : List (Voter × String × Meets)) (b : VoteBox)
    → All Limited b.votes
    → All Limited (check_votes fold cs b).votes
unfolding check_votes check_vote
check_votes-Limited fold [] b h = h
check_votes-Limited fold ((u, arg, m) ∷ cs) b h =
    check_votes-Limited fold cs (check_vote fold u arg m b).0
      (let_vote-Limited fold u arg m b (before_votes fold u arg m b) h)
