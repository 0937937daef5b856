-- ===== src/ModUpdate.antt =====
-- Updates of mods (modupdate/).
pub mod Versions
pub mod Order
pub mod Merge
