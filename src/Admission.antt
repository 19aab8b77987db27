-- ===== src/Admission.antt =====
-- The period admission of CPU charges (internal/state/cpu_charge_admission.go and
-- internal/state/cpu_charge_admission_transitions.go).
pub mod Types
pub mod Valid
pub mod Steps
pub mod Operations
pub mod Slots
pub mod Charged
pub mod Rolls
pub mod Kept
pub mod Advance
pub mod Limited
pub mod Gaps
pub mod Sound
pub mod Safety
pub mod Latch
pub mod Runs
pub mod Histories
mod Tests
