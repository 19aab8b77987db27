-- ===== src/Windows.antt =====
-- The CPU windows of inventory dispatch (internal/state/cpu_feedback.go).
pub mod Types
pub mod Valid
pub mod Operations
pub mod Parts
pub mod Kept
pub mod Settle
pub mod Safety
pub mod Cooldown
pub mod Recover
pub mod Tests
