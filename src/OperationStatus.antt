-- ===== src/OperationStatus.antt =====
-- The operation that the chat is told about (fact/operation_status.go).
pub mod State
pub mod Calls
pub mod Steps
pub mod Announced
pub mod Counting
pub mod Superseded
pub mod Replaced
