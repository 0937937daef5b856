-- ===== src/WebApi.antt =====
-- The server of the web control panel (webapi/).
pub mod Auth
