-- ===== src/Metadata.antt =====
-- The ledger of metadata reservations (internal/state/metadata_budget.go).
pub mod Types
pub mod Tests
pub mod Read
pub mod Operations
pub mod Sound
pub mod Reserve
pub mod Charged
pub mod Balance
pub mod Reserved
pub mod Recover
pub mod Settle
pub mod Settled
