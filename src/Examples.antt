-- ===== src/Examples.antt =====
-- Runs of the code at concrete inputs, for the theorems that have hypotheses, and tests.
mod Managers
mod Players
mod Operations
mod Maps
mod SignIn
mod Mods
mod Votes
mod Notices
mod Loads
mod Releases
