-- ===== src/MapVotes/Files.antt =====
-- The file of the votes (`WriteVotes` and `ReadVotes` of fact/voteMap.go). JSON and the disk are arguments; the
-- tally and the time of the last change are not in the file.
use chat_wire.Common.{
  ℕ, ◌+◌, ◌<◌, ◌≡◌, refl, String, Bool, true, false, none, some, List, [], if◌then◌else◌,
}
use chat_wire.MapVotes.Votes.{Vote, VoteBox, Voter, Meets, minute, round_second, check_vote}
use chat_wire.MapVotes.Casting.{refused-cooldown}

-- The fields of `VoteContainerData` that JSON keeps.
pub record VoteFile : Type 0 where
  pub version : String
  pub votes : List Vote
  pub num_changes : ℕ

-- What is found on the disk.
pub data OnDisk : Type 0 where
  no_file unreadable bad_json : OnDisk
  stored : VoteFile → OnDisk

abbrev pub vote_file : VoteBox → VoteFile
vote_file b = record { version = "0.0.1"; votes = b.votes; num_changes = b.num_changes }

-- `WriteVotes`: the disk, and whether the file was written.
unfoldable pub write_votes : Bool → VoteBox → OnDisk → OnDisk × Bool
write_votes works b disk = if works then (stored (vote_file b), true) else (disk, false)

-- `createVoteContainer`, with what the file has; the clock stands in for the last change.
abbrev pub read_box : ℕ → VoteFile → VoteBox
read_box now f = record {
  votes = f.votes;
  tally = [];
  last_map_change = some (round_second now);
  num_changes = f.num_changes;
}

-- `ReadVotes`.
unfoldable pub read_votes : ℕ → OnDisk → VoteBox → VoteBox × Bool
read_votes now no_file b = (b, true)
read_votes now unreadable b = (b, false)
read_votes now bad_json b = (b, false)
read_votes now (stored f) b = (read_box now f, true)

-- Votes that were written are read again, with the number of changes, and for a minute after that, from
-- the nearest second, every vote is refused.
pub read-write_votes :
    (equal_fold : String → String → Bool) (b new : VoteBox) (disk : OnDisk) (now : ℕ) (u : Voter)
    (arg : String) (m : Meets)
    → m.cooldown_at < round_second now + minute
    → (let c = (read_votes now (write_votes true b disk).0 new).0 in
        let r = check_vote equal_fold u arg m c in
        (c.votes ≡ b.votes) × (c.num_changes ≡ b.num_changes) × (r.0 ≡ c) × (r.2 ≡ none))
unfolding write_votes read_votes
read-write_votes equal_fold b new disk now u arg m early =
    let r =
      refused-cooldown equal_fold u arg m (read_box now (vote_file b)) (round_second now) refl
        early in
    (refl, refl, r.0, r.1)
