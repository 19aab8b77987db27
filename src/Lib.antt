-- ===== src/Lib.antt =====
-- Verification of the accounting core of rydd, the background worker of this repository: the ledgers
-- in its private SQLite store that decide which background work may start, when, and what it has used.
--
-- The worker (internal/worker) asks the store (internal/state) before each unit of work. Dispatch of a
-- scan chunk is paced by a saved cadence and a daily limit; the job queue hands out one due job at a
-- time under a lease; the metadata ledger reserves a finite number
-- of API attempts before a scan and settles or gives up what was reserved, and a permit window behind a
-- pacer admits the attempts one by one; the charge ledger accounts for the CPU time of the worker's own
-- sessions, the period admission assigns it to UTC hours and days, and the bounded 1% formula turns a
-- charge, or the CPU time of a dispatch window, into a wait.
--
-- Prelude passes on the library's names and declares the Boolean tests, the results with an error, the
--   integers and the lists that the components share. Int64 has the int64 arithmetic of Go with its
--   wrap-around. Clock has the instants, the UTC days and the tests
--   on times and digests that several ledgers share.
-- Feedback models CPUFeedbackWait (internal/state/cpu_feedback.go) and CPUChargesPrefixWait
--   (internal/state/cpu_charges.go); Feedback/Formula says what they compute.
-- Dispatch models internal/state/dispatch.go: dispatch_budget is dispatchBudget, reserve_scan_chunk is
--   ReserveScanChunk, and the row of scan_dispatch is an optional record.
-- Charges models internal/state/cpu_charges.go with the shared transitions of
--   internal/state/cpu_charge_admission_transitions.go. Charges/Types has the records, Charges/Valid the
--   test validCPUCharges, Charges/Steps the transitions, Charges/Ledger the operations of a Store on a
--   database. Charges/Open, Outcomes, Live, Finish, Begin, Sample and Safety hold the proofs.
-- Metadata models internal/state/metadata_budget.go. Metadata/Types has the rows, Metadata/Read is
--   metadataRead, Metadata/Operations has ReserveMetadata, SettleMetadata, RecoverMetadataReservations
--   and the snapshot. Metadata/Sound describes what the reader accepts; Reserve, Charged, Balance,
--   Reserved, Recover, Settle and Settled hold the proofs.
-- Queue models internal/state/queue.go with inventoryClaim (internal/state/background_inventory.go),
--   adaptiveClaim and adaptiveUncertain (internal/state/adaptive_revisits_tracking.go). Queue/Types has
--   the rows, Queue/Operations the operations; filepath.Clean is a parameter of enqueue_job. Order,
--   Leases and Enqueue hold the proofs.
-- Windows models the dispatch windows of internal/state/cpu_feedback.go. Windows/Types has the saved
--   state, Windows/Valid is validCPUFeedback, Windows/Operations has BeginCPUWindow, SettleCPUWindow and
--   RecoverCPUWindow with the reader and the writer. A turn of the fair inventory
--   (internal/state/fair_inventory.go) and its receipt are arguments. Parts, Kept, Settle, Safety,
--   Cooldown and Recover hold the proofs.
-- Admission models internal/state/cpu_charge_admission.go and the operations of
--   internal/state/cpu_charge_admission_transitions.go. Admission/Types has the records and the UTC
--   slots, Admission/Valid is validCPUAdmission, Admission/Steps has rollCPUAdmission and what each
--   operation makes of both ledgers, Admission/Operations the operations of a Store with publish and
--   its latch. The two SHA-256 identities and the two JSON lengths are parameters, for which nothing is
--   assumed. Slots, Charged, Rolls, Kept, Advance, Limited, Gaps, Sound, Safety, Latch and Runs hold the
--   proofs; Histories has the calls in any order, over restarts.
-- Permits models what stands between the scanner and a source call: metadataWindow
--   (internal/worker/metadata_window.go) and StartupAPIAttemptAllowance (internal/inventory/permit.go)
--   in Permits/Window, with cpuTimevalSum (internal/worker/cpu_clock.go), and sourceAPIPacer
--   (internal/worker/api_pacing.go) in Permits/Pacer, one turn of its loop at a time. Bounds and Spacing
--   hold the proofs.
-- The Tests of each part run it on concrete inputs.
--
-- A transaction is a function from the database it reads to the database it commits, or to an error,
-- with which nothing is committed. Instants are nanoseconds since 1970, dates are day numbers, and
-- counters that the source refuses when negative are natural numbers with their int64 bound written out
-- where the source tests it. Where the source stores or compares a sum that may leave the int64 range,
-- the end of a lease, the next start of a dispatch and the CPU time of a timeval, it is an int64 that
-- wraps around; the instants that a caller passes are int64 counts themselves. A pointer that may be
-- nil is an option, and following it where it is nil is the error nil_dereference. No definition needs fuel: the loops run over rows, counts or the digits of
-- a text, by structural recursion, and the one loop that waits for a clock is modelled by its turns.
--
-- Not modelled: SQL and the schema, contexts and cancellation, failed statements, the random source of
-- the tokens (a nonce is an argument), the JSON text of a saved state (its length is a parameter, and
-- its encoding, decoding and canonical comparison are taken to give the state back),
-- the file system, and the parts of the program outside the ledgers: scanning, hashing, plans, services
-- and the command line.
pub mod Prelude
pub mod Int64
pub mod Clock
pub mod Feedback
pub mod Dispatch
pub mod Charges
pub mod Metadata
pub mod Queue
pub mod Windows
pub mod Admission
pub mod Permits
