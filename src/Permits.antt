-- ===== src/Permits.antt =====
-- The admission of the scanner's source calls: the permit window of a metadata reservation
-- (internal/worker/metadata_window.go), the pacer in front of it (internal/worker/api_pacing.go), the
-- startup allowance (internal/inventory/permit.go) and the process's CPU clock
-- (internal/worker/cpu_clock.go).
pub mod Window
pub mod Pacer
pub mod Bounds
pub mod Spacing
mod Tests
