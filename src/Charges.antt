-- ===== src/Charges.antt =====
-- The SELF CPU charge ledger of one store (internal/state/cpu_charges.go): sessions begin, are sampled,
-- finish or are recovered, and each known CPU nanosecond is charged once and repaid by a wait.
pub mod Types
pub mod Tests
pub mod Valid
pub mod Steps
pub mod Open
pub mod Outcomes
pub mod Live
pub mod Finish
pub mod Begin
pub mod Sample
pub mod Ledger
pub mod Safety
