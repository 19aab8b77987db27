-- ===== src/Queue.antt =====
-- The queue of background jobs (internal/state/queue.go).
pub mod Types
pub mod Operations
pub mod Order
pub mod Leases
pub mod Enqueue
pub mod Tests
