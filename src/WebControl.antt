-- ===== src/WebControl.antt =====
-- Operations that the web control panel starts (webcontrol/jobs.go).
pub mod Jobs
