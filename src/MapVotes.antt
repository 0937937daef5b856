-- ===== src/MapVotes.antt =====
-- Votes on the map (fact/voteMap.go).
pub mod Votes
pub mod Tally
pub mod Casting
pub mod OneEach
pub mod Limits
pub mod Files
