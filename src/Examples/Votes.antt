-- ===== src/Examples/Votes.antt =====
-- Votes on the map (fact/voteMap.go) at concrete inputs.
use chat_wire.Common.{
  ℕ, ◌*◌, ◌+◌, ◌≡◌, refl, sym, ◌∙◌, String, str_eq, string_eq, true, false, some, none, List, [],
  ◌∷◌, arith, All, map,
}
use chat_wire.MapVotes.Votes.{
  Vote, VoteBox, Voter, Meets, minute, check_vote, place, placed, voted, new_vote, recount, chosen,
  bump, tally_map_votes,
}
use chat_wire.MapVotes.Tally.{
  tally_map_votes-counted, tally_count, total, Distinct, points_for, all_points,
}
use chat_wire.MapVotes.Casting.{Settled, check_vote-Settled, check_vote-cooldown}
use chat_wire.MapVotes.Limits.{Limited, check_votes, check_votes-Limited}
use chat_wire.MapVotes.OneEach.{Folds, OneEach, check_vote-OneEach}

-- A veteran and a regular user.
abbrev veteran_user : Voter
veteran_user = record {
  id = "17";
  username = "ann";
  regular = true;
  veteran = true;
  moderator = false;
  supporter = false;
  admin = false;
}

abbrev regular_user : Voter
regular_user = record {
  id = "23";
  username = "bob";
  regular = true;
  veteran = false;
  moderator = false;
  supporter = false;
  admin = false;
}

abbrev bobs_vote : Vote
bobs_vote = record {
  name = "bob";
  disc_id = "23";
  moderator = false;
  supporter = false;
  veteran = false;
  total_votes = 0;
  selection = "autosave3";
  num_changes = 0;
  time = 1000 * minute;
  voided = false;
  expired = false;
}

abbrev one_vote : VoteBox
one_vote = record { votes = bobs_vote ∷ []; tally = []; last_map_change = none; num_changes = 4 }

abbrev meets : ℕ → Meets
meets t = record {
  booted = true;
  running = true;
  save_found = true;
  save_good = true;
  cooldown_at = t;
  counted_at = t;
  cast_at = t;
  recounted_at = t;
  changed_at = t;
}

str_eq-Folds : Folds str_eq
unfolding Folds
str_eq-Folds = (
  λ a. (string_eq.beq_iff a a).1 refl,
  λ a b h. (string_eq.beq_iff b a).1 (sym ((string_eq.beq_iff a b).0 h)),
  λ a b c h k.
      (string_eq.beq_iff a c).1 ((string_eq.beq_iff a b).0 h ∙ (string_eq.beq_iff b c).0 k),
)

tally_map_votes-counted_example :
    (let c = tally_map_votes (1200 * minute) one_vote in
      ((s : String) → tally_count s c.0.tally ≡ points_for (1200 * minute) s (bobs_vote ∷ []))
      × Distinct c.0.tally
      × (total c.0.tally ≡ c.1)
      × (c.1 ≡ all_points (1200 * minute) (bobs_vote ∷ [])))
tally_map_votes-counted_example = tally_map_votes-counted (1200 * minute) one_vote

-- The veteran's vote and the other user's are for the same save.
abbrev both_votes : List Vote
both_votes = bobs_vote ∷ new_vote veteran_user "autosave3" (1001 * minute) ∷ []

cast_after :
    place str_eq veteran_user "autosave3" (1001 * minute) (bobs_vote ∷ []) ≡ placed voted both_votes
unfolding place
cast_after = refl

check_vote-Settled_example :
    (let r = check_vote str_eq veteran_user "autosave3" (meets (1001 * minute)) one_vote in
      (r.1 ≡ voted) × Settled (meets (1001 * minute)) one_vote both_votes r.0 r.2)
check_vote-Settled_example =
    check_vote-Settled str_eq veteran_user "autosave3" (meets (1001 * minute)) one_vote voted
      both_votes refl cast_after

changes :
    (check_vote str_eq veteran_user "autosave3" (meets (1001 * minute)) one_vote).2
    ≡ some "autosave3"
unfolding check_vote tally_map_votes place recount chosen bump
changes = refl

check_vote-cooldown_example :
    (let c = (check_vote str_eq veteran_user "autosave3" (meets (1001 * minute)) one_vote).0 in
      let r = check_vote str_eq regular_user "autosave5" (meets (1001 * minute + 5)) c in
      (r.0 ≡ c) × (r.2 ≡ none))
check_vote-cooldown_example =
    check_vote-cooldown str_eq veteran_user regular_user "autosave3" "autosave5" "autosave3"
      (meets (1001 * minute)) (meets (1001 * minute + 5)) one_vote changes (omega arith)

one_each : OneEach str_eq one_vote.votes
unfolding OneEach
one_each = (tt, tt)

check_vote-OneEach_example :
    OneEach str_eq
      (check_vote str_eq regular_user "autosave5" (meets (1001 * minute)) one_vote).0.votes
check_vote-OneEach_example =
    check_vote-OneEach str_eq str_eq-Folds regular_user "autosave5" (meets (1001 * minute)) one_vote
      one_each

-- The other user changes the vote twice, and is refused the third time.
abbrev changed_minds : List (Voter × String × Meets)
changed_minds =
    (regular_user, "autosave5", meets (1001 * minute))
    ∷ (regular_user, "autosave3", meets (1002 * minute))
    ∷ (regular_user, "autosave5", meets (1003 * minute))
    ∷ []

twice_changed : map (λ v. v.num_changes) (check_votes str_eq changed_minds one_vote).votes ≡ 2 ∷ []
unfolding check_votes check_vote tally_map_votes place recount chosen bump
twice_changed = refl

check_votes-Limited_example : All Limited (check_votes str_eq changed_minds one_vote).votes
check_votes-Limited_example = check_votes-Limited str_eq changed_minds one_vote (omega arith, tt)
