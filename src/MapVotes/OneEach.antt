-- ===== src/MapVotes/OneEach.antt =====
-- A user has at most one vote (`CheckVote` of fact/voteMap.go).
use chat_wire.Common.{
  ℕ, ◌+◌, ◌*◌, ◌≡◌, String, str_eq, ltb, leb, if-All, Bool, true, false, not, ◌&&◌, Option, none,
  some, List, [], ◌∷◌, if-cases, arith, All, All-map,
}
use chat_wire.MapVotes.Votes.{
  Vote, VoteBox, Voter, Meets, Reply, Placed, minute, max_vote_changes, max_votes_per_map, mark,
  mark_all, tally_map_votes, is_of, place, vote_again, behind, new_vote, changed_vote, change_map,
  after_place, before_votes, let_vote, check_vote, placed, refused,
}

-- What Go documents of `strings.EqualFold`: equality under case folding.
unfoldable pub Folds : (String → String → Bool) → Type 0
Folds fold =
    ((a : String) → fold a a ≡ true)
    × ((a b : String) → fold a b ≡ true → fold b a ≡ true)
    × ((a b c : String) → fold a b ≡ true → fold b c ≡ true → fold a c ≡ true)

module _ (fold : String → String → Bool) where
  abbrev pub same_user : Vote → Vote → Bool
  same_user v w = fold v.disc_id w.disc_id && fold v.name w.name

  -- No two votes are of the same user.
  unfoldable pub OneEach : List Vote → Type 0
  OneEach [] = Unit
  OneEach (v ∷ vs) = All (λ w. same_user v w ≡ false) vs × OneEach vs

  unfoldable pub PlacedAll : (Vote → Type 0) → Placed → Type 0
  PlacedAll P (refused r) = Unit
  PlacedAll P (placed r vs) = All P vs

  unfoldable PlacedOnce : Placed → Type 0
  PlacedOnce (refused r) = Unit
  PlacedOnce (placed r vs) = OneEach vs

  module _ (folds : Folds fold) where
    -- The votes of the same user are told from others alike.
    alike : (v v' w : Vote) → same_user v v' ≡ true → same_user v w ≡ false → same_user v' w ≡ false
    unfolding Folds
    alike v v' w h n =
        ground (arith, folds.2 v.disc_id v'.disc_id w.disc_id, folds.2 v.name v'.name w.name)

    from_new :
        (u : Voter) (arg : String) (now : ℕ) (v w : Vote)
        → is_of fold u v ≡ true
        → same_user v w ≡ false
        → same_user (new_vote u arg now) w ≡ false
    from_new u arg now v w h n = alike v (new_vote u arg now) w h n

  -- What holds of the votes and of the ones that are made of them holds of the votes with the user's.
  module _ (P : Vote → Type 0) (u : Voter) (arg : String) (now : ℕ) where
    vote_again-PlacedAll :
        (v : Vote) (vs : List Vote)
        → P (changed_vote arg now v)
        → P (record (new_vote u arg now) { total_votes = 1 })
        → All P vs
        → PlacedAll P (vote_again u arg now v vs)
    unfolding PlacedAll
    vote_again-PlacedAll v vs c n h =
        if-All (PlacedAll P)
          (not (str_eq v.selection arg) && not v.voided && ltb v.num_changes max_vote_changes)
          (c, h)
          (if-All (PlacedAll P) (leb max_vote_changes v.num_changes) tt (
            if-All (PlacedAll P) (ltb now (v.time + 5 * minute)) tt (
              if-All (PlacedAll P) (not u.moderator && leb max_votes_per_map v.total_votes) tt
                (n, h))))

    pub behind-PlacedAll : (v : Vote) (p : Placed) → P v → PlacedAll P p → PlacedAll P (behind v p)
    unfolding PlacedAll
    behind-PlacedAll v (refused r) pv h = tt
    behind-PlacedAll v (placed r vs) pv h = (pv, h)

    place-PlacedAll :
        ((v : Vote) → P v → P (changed_vote arg now v))
        → P (new_vote u arg now)
        → P (record (new_vote u arg now) { total_votes = 1 })
        → (vs : List Vote) → All P vs
        → PlacedAll P (place fold u arg now vs)
    unfolding place PlacedAll
    place-PlacedAll c n k [] h = (n, tt)
    place-PlacedAll c n k (v ∷ vs) h =
        if-All (PlacedAll P) (is_of fold u v) (vote_again-PlacedAll v vs (c v h.0) k h.1)
          (behind-PlacedAll v (place fold u arg now vs) h.0 (place-PlacedAll c n k vs h.1))

  module _ (folds : Folds fold) (u : Voter) (arg : String) (now : ℕ) where
    vote_again-PlacedOnce :
        (v : Vote) (vs : List Vote)
        → is_of fold u v ≡ true
        → OneEach (v ∷ vs)
        → PlacedOnce (vote_again u arg now v vs)
    unfolding PlacedOnce OneEach
    vote_again-PlacedOnce v vs own h =
        let new =
          All-map (λ w. same_user v w ≡ false) (λ w. same_user (new_vote u arg now) w ≡ false)
            (λ w. from_new folds u arg now v w own) vs h.0 in
        if-All PlacedOnce
          (not (str_eq v.selection arg) && not v.voided && ltb v.num_changes max_vote_changes) h
          (if-All PlacedOnce (leb max_vote_changes v.num_changes) tt (
            if-All PlacedOnce (ltb now (v.time + 5 * minute)) tt (
              if-All PlacedOnce (not u.moderator && leb max_votes_per_map v.total_votes) tt
                (new, h.1))))

    behind-PlacedOnce :
        (v : Vote) (p : Placed)
        → PlacedAll (λ w. same_user v w ≡ false) p
        → PlacedOnce p
        → PlacedOnce (behind v p)
    unfolding PlacedAll PlacedOnce OneEach
    behind-PlacedOnce v (refused r) a o = tt
    behind-PlacedOnce v (placed r vs) a o = (a, o)

    place-PlacedOnce : (vs : List Vote) → OneEach vs → PlacedOnce (place fold u arg now vs)
    unfolding place PlacedOnce OneEach
    place-PlacedOnce [] h = (tt, tt)
    place-PlacedOnce (v ∷ vs) h =
        if-cases PlacedOnce (is_of fold u v) (λ own. vote_again-PlacedOnce v vs own h)
          (λ other.
            behind-PlacedOnce v (place fold u arg now vs)
              (place-PlacedAll (λ w. same_user v w ≡ false) u arg now (λ w e. e) other other vs h.0)
              (place-PlacedOnce vs h.1))

  same_user-mark : (now : ℕ) (v w : Vote) → same_user (mark now v) (mark now w) ≡ same_user v w
  same_user-mark now v w = ground arith

  apart-mark_all :
      (now : ℕ) (v : Vote) (vs : List Vote)
      → All (λ w. same_user v w ≡ false) vs
      → All (λ w. same_user (mark now v) w ≡ false) (mark_all now vs)
  apart-mark_all now v [] h = tt
  apart-mark_all now v (w ∷ vs) h = (rw (same_user-mark now v w) h.0, apart-mark_all now v vs h.1)

  OneEach-mark_all : (now : ℕ) (vs : List Vote) → OneEach vs → OneEach (mark_all now vs)
  unfolding OneEach
  OneEach-mark_all now [] h = tt
  OneEach-mark_all now (v ∷ vs) h = (apart-mark_all now v vs h.0, OneEach-mark_all now vs h.1)

  OneEach-change_map :
      (now : ℕ) (b : VoteBox) (o : Option String)
      → OneEach b.votes
      → OneEach (change_map now b o).0.votes
  unfolding OneEach
  OneEach-change_map now b none h = h
  OneEach-change_map now b (some s) h = tt

  OneEach-after_place :
      (m : Meets) (b : VoteBox) (p : Placed)
      → OneEach b.votes
      → PlacedOnce p
      → OneEach (after_place m b p).0.votes
  unfolding PlacedOnce tally_map_votes
  OneEach-after_place m b (refused r) h o = h
  OneEach-after_place m b (placed r vs) h o =
      OneEach-change_map m.changed_at _ _ (OneEach-mark_all m.recounted_at vs o)

  OneEach-let_vote :
      Folds fold
      → (u : Voter) (arg : String) (m : Meets) (b : VoteBox) (o : Option Reply) → OneEach b.votes
      → OneEach (let_vote fold u arg m b o).0.votes
  unfolding tally_map_votes
  OneEach-let_vote folds u arg m b none h =
      let marked = OneEach-mark_all m.counted_at b.votes h in
      OneEach-after_place m _ _ marked
        (place-PlacedOnce folds u arg m.cast_at (mark_all m.counted_at b.votes) marked)
  OneEach-let_vote folds u arg m b (some r) h = h

-- Where Go's case folding is an equivalence and no two votes are of the same user, the same holds after any
-- use of the command, whatever it answers.
pub check_vote-OneEach :
    (fold : String → String → Bool)
    → Folds fold
    → (u : Voter) (arg : String) (m : Meets) (b : VoteBox) → OneEach fold b.votes
    → OneEach fold (check_vote fold u arg m b).0.votes
unfolding check_vote
check_vote-OneEach fold folds u arg m b h =
    OneEach-let_vote fold folds u arg m b (before_votes fold u arg m b) h
