-- ===== src/MapExchange.antt =====
-- Map exchange strings of Factorio (fact/mapExchange.go).
pub mod Format
pub mod Reader
pub mod Settings
pub mod Errors
pub mod Parse
