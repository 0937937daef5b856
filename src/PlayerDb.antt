-- ===== src/PlayerDb.antt =====
-- The player database: its binary codec (fact/playerdb_codec.go).
pub mod Data
pub mod Varint
pub mod Payload
pub mod Envelope
pub mod Store
