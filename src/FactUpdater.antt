-- ===== src/FactUpdater.antt =====
-- Updates of the game (factUpdater/).
pub mod Versions
pub mod Package
pub mod Latest
pub mod Verified
