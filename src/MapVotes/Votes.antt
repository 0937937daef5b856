-- ===== src/MapVotes/Votes.antt =====
-- The box of votes, its count and the vote of a user (fact/voteMap.go). Times are in nanoseconds; the clock is
-- read once for each count. Go's `strings.EqualFold`, the roles of the user, the answers on the save and the
-- clock are arguments.
use chat_wire.Common.{
  ℕ, suc, ◌+◌, ◌*◌, ◌/◌, String, str_eq, Bool, true, false, not, ◌&&◌, ◌||◌, ltb, leb, Option, none,
  some, List, [], ◌∷◌, ◌++◌, if◌then◌else◌,
}

-- `MapVoteData`.
pub record Vote : Type 0 where
  pub name : String
  pub disc_id : String
  pub moderator : Bool
  pub supporter : Bool
  pub veteran : Bool
  pub total_votes : ℕ
  pub selection : String
  pub num_changes : ℕ
  pub time : ℕ
  pub voided : Bool
  pub expired : Bool

-- `VoteTallyData`.
pub record Count : Type 0 where
  pub selection : String
  pub count : ℕ

-- `VoteContainerData`; the time of the last change is none where it is zero.
pub record VoteBox : Type 0 where
  pub votes : List Vote
  pub tally : List Count
  pub last_map_change : Option ℕ
  pub num_changes : ℕ

abbrev pub minute : ℕ
minute = 60000000000

abbrev pub votes_needed : ℕ
votes_needed = 2

abbrev pub max_vote_changes : ℕ
max_vote_changes = 2

abbrev pub max_votes_per_map : ℕ
max_votes_per_map = 10

-- `VoidAllVotes`.
abbrev pub void_all_votes : VoteBox → VoteBox
void_all_votes b = record b { votes = []; tally = [] }

abbrev pub is_privileged : Vote → Bool
is_privileged v = v.moderator || v.supporter || v.veteran

-- The first loop of `TallyMapVotes` on one vote.
abbrev pub mark : ℕ → Vote → Vote
mark now v =
    if v.voided
    then record v { num_changes = 0 }
    else if ltb (v.time + 360 * minute) now || v.expired
    then record v { expired = true; num_changes = 0 }
    else v

abbrev pub mark_all : ℕ → List Vote → List Vote
mark_all now [] = []
mark_all now (v ∷ vs) = mark now v ∷ mark_all now vs

-- A marked vote that counts, and its points.
abbrev pub is_valid : Vote → Bool
is_valid v = not v.voided && not v.expired

abbrev pub points : Vote → ℕ
points v = if is_privileged v then 2 else 1

-- `validVotes`.
abbrev pub valid_votes : List Vote → ℕ
valid_votes [] = 0
valid_votes (v ∷ vs) = if is_valid v then points v + valid_votes vs else valid_votes vs

-- The inner loop over the tally: every entry of the selection gets the points, and `skipAdd` is set.
unfoldable pub bump : String → ℕ → List Count → List Count
bump s n [] = []
bump s n (a ∷ as') =
    let rest = bump s n as' in
    if str_eq s a.selection then record a { count = a.count + n } ∷ rest else a ∷ rest

abbrev pub has_selection : String → List Count → Bool
has_selection s [] = false
has_selection s (a ∷ as') = str_eq s a.selection || has_selection s as'

abbrev pub add_count : Vote → List Count → List Count
add_count v t =
    if has_selection v.selection t
    then bump v.selection (points v) t
    else t ++ record { selection = v.selection; count = points v } ∷ []

-- The recount.
unfoldable pub recount : List Vote → List Count → List Count
recount [] t = t
recount (v ∷ vs) t = recount vs (if is_valid v then add_count v t else t)

-- `TallyMapVotes`: the box and the number of points.
unfoldable pub tally_map_votes : ℕ → VoteBox → VoteBox × ℕ
tally_map_votes now b =
    let votes = mark_all now b.votes in
    (record b { votes = votes; tally = recount votes [] }, valid_votes votes)

-- Who votes: the names, and what Discord says of the roles.
pub record Voter : Type 0 where
  pub id : String
  pub username : String
  pub regular : Bool
  pub veteran : Bool
  pub moderator : Bool
  pub supporter : Bool
  pub admin : Bool

-- What `CheckVote` meets: whether the game is up, the save that is asked for, and the clock.
pub record Meets : Type 0 where
  pub booted : Bool
  pub running : Bool
  pub save_found : Bool
  pub save_good : Bool
  pub cooldown_at : ℕ
  pub counted_at : ℕ
  pub cast_at : ℕ
  pub recounted_at : ℕ
  pub changed_at : ℕ

-- What the user is told.
pub data Reply : Type 0 where
  ignored not_running no_role no_save bad_save map_cooldown : Reply
  no_more_changes vote_cooldown no_more_votes changed voted : Reply

abbrev pub new_vote : Voter → String → ℕ → Vote
new_vote u arg now = record {
  name = u.username;
  disc_id = u.id;
  moderator = u.moderator;
  supporter = u.supporter;
  veteran = u.veteran;
  total_votes = 0;
  selection = arg;
  num_changes = 0;
  time = now;
  voided = false;
  expired = false;
}

abbrev pub changed_vote : String → ℕ → Vote → Vote
changed_vote arg now v = record v {
  selection = arg;
  time = now;
  voided = false;
  expired = false;
  num_changes = suc v.num_changes;
  total_votes = suc v.total_votes;
}

-- The votes with the user's, or why there is none.
pub data Placed : Type 0 where
  refused : Reply → Placed
  placed : Reply → List Vote → Placed

abbrev pub behind : Vote → Placed → Placed
behind v (refused r) = refused r
behind v (placed r vs) = placed r (v ∷ vs)

-- The user's vote is there already: it is changed, stays, or is cast again in its place.
abbrev pub vote_again : Voter → String → ℕ → Vote → List Vote → Placed
vote_again u arg now v vs =
    if not (str_eq v.selection arg) && not v.voided && ltb v.num_changes max_vote_changes
    then placed changed (changed_vote arg now v ∷ vs)
    else if leb max_vote_changes v.num_changes
    then refused no_more_changes
    else if ltb now (v.time + 5 * minute)
    then refused vote_cooldown
    else if not u.moderator && leb max_votes_per_map v.total_votes
    then refused no_more_votes
    else placed voted (record (new_vote u arg now) { total_votes = 1 } ∷ vs)

module _ (equal_fold : String → String → Bool) where
  abbrev pub is_of : Voter → Vote → Bool
  is_of u v = equal_fold v.disc_id u.id && equal_fold v.name u.username

  -- The loop over the votes: the first one of the user, or a new one at the end.
  unfoldable pub place : Voter → String → ℕ → List Vote → Placed
  place u arg now [] = placed voted (new_vote u arg now ∷ [])
  place u arg now (v ∷ vs) =
      let rest = place u arg now vs in
      if is_of u v then vote_again u arg now v vs else behind v rest

-- The first selection with enough points.
unfoldable pub chosen : List Count → Option String
chosen [] = none
chosen (a ∷ as') =
    let rest = chosen as' in if leb votes_needed a.count then some a.selection else rest

-- Go's `Round(time.Second)`: the nearest second, a half of one up.
abbrev pub round_second : ℕ → ℕ
round_second t = (t + 500000000) / 1000000000 * 1000000000

-- The votes are in: they are counted, and the map is changed where they are enough. The third part is
-- the argument of `DoChangeMap`.
abbrev pub change_map : ℕ → VoteBox → Option String → VoteBox × Option String
change_map now b none = (b, none)
change_map now b (some s) = (
  void_all_votes
      (record b { last_map_change = some (round_second now); num_changes = suc b.num_changes }),
  some s,
)

abbrev pub settle : ℕ → ℕ → VoteBox → VoteBox × Option String
settle counted now b = let (c, n) = tally_map_votes counted b in change_map now c (chosen c.tally)

abbrev pub after_place : Meets → VoteBox → Placed → VoteBox × Reply × Option String
after_place m b (refused r) = (b, r, none)
after_place m b (placed r vs) =
    let (c, map) = settle m.recounted_at m.changed_at (record b { votes = vs }) in (c, r, map)

abbrev pub in_cooldown : ℕ → Option ℕ → Bool
in_cooldown now none = false
in_cooldown now (some last) = ltb now (last + minute)

-- The tests that come before the votes.
abbrev pub before_votes : (String → String → Bool) → Voter → String → Meets → VoteBox → Option Reply
before_votes equal_fold u arg m b =
    if equal_fold arg "already-skipped"
    then some ignored
    else if not m.booted || not m.running
    then some not_running
    else if not u.veteran && not u.regular && not u.moderator && not u.admin
    then some no_role
    else if not (equal_fold arg "new-map") && not (equal_fold arg "skip-reset") && not m.save_found
    then some no_save
    else if not (equal_fold arg "new-map") && not (equal_fold arg "skip-reset") && not m.save_good
    then some bad_save
    else if in_cooldown m.cooldown_at b.last_map_change
    then some map_cooldown
    else none

-- `CheckVote`: the box, what the user is told, and the map to change to.
abbrev pub let_vote :
    (String → String → Bool)
    → Voter
    → String
    → Meets
    → VoteBox
    → Option Reply
    → VoteBox × Reply × Option String
let_vote equal_fold u arg m b (some r) = (b, r, none)
let_vote equal_fold u arg m b none =
    let (c, n) = tally_map_votes m.counted_at b in
    after_place m c (place equal_fold u arg m.cast_at c.votes)

unfoldable pub check_vote :
    (String → String → Bool) → Voter → String → Meets → VoteBox → VoteBox × Reply × Option String
check_vote equal_fold u arg m b = let_vote equal_fold u arg m b (before_votes equal_fold u arg m b)
