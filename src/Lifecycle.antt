-- ===== src/Lifecycle.antt =====
-- The controller of the Factorio process (fact/lifecycle.go): its state, its queue of requests, the
-- handlers of asynchronous events, the stop and start sequences and one round of its loop.
pub mod State
pub mod Queue
pub mod Events
pub mod Stop
pub mod Execute
pub mod Checks
pub mod Induction
pub mod Invariant
pub mod Stopping
pub mod Launching
pub mod Succession
pub mod Choice
pub mod Termination
pub mod Crashes
pub mod Outdated
pub mod Run
