-- ===== src/Admission/Operations.antt =====
-- The operations of a Store under the period admission
-- (internal/state/cpu_charge_admission_transitions.go), with readCPUAdmission and writeCPUAdmission
-- (internal/state/cpu_charge_admission.go).
-- A database is its user_version, the saved charges, the row of worker_cpu_charge_admission and the
-- instant of migration 16. The canonical JSON of a state decodes to that state; its lengths in bytes
-- and the two SHA-256 identities are parameters. An error before the commit leaves the database as
-- it was. A commit that reports an error may have been stored or not, which its `Fate` says; a
-- cancelled context, a failed statement and the shape of the schema are not modelled.
use saga_rydd.Prelude.{
  ℕ, ◌+◌, Bool, true, false, not, ◌&&◌, ◌||◌, Option, none, some, List, ltb, ◌==◌, if◌then◌else◌,
  Result, ok, err, ◌>>=◌, ◌>>◌, refuse_if, or_else,
}
use saga_rydd.Prelude.Int.{max_int64}
use saga_rydd.Charges.Types.{
  cpu_clock_rollback, reason_eq, active, status_eq, read_only, stale, overflow, clock_rollback,
  unknown_session, authority_refused, nil_dereference, CpuSessionSample, CpuSessionRecord,
  CpuChargeState, cpu_charges_sample_valid, Reason,
}
use saga_rydd.Charges.Ledger.{Store, ChargesDb, read_cpu_charges, commit_cpu_charges, sample_retry}
use saga_rydd.Admission.Types.{
  AdmissionError, invalid_admission, unavailable_admission, corrupt_admission, cpu, of_charges,
  CpuChargeLimits, CpuLimitedSessionStart, CpuTrackingGapRequest, CpuLimitedSessionMarker,
  CpuChargeAdmissionState, cpu_admission_base, cpu_admission_limits_valid, cpu_admission_slots,
  cpu_admission_time, valid_cpu_gap_request, same_cpu_gap_request, same_cpu_limited_start,
  valid_cpu_limited_start,
}
use saga_rydd.Admission.Valid.{valid_cpu_admission, closed_unknown, no_limits, equals_at}
use saga_rydd.Admission.Steps.{
  activated_admission, begin_limited_state, sample_limited_state, recover_limited_state, gap_state,
}

pub record AdmissionRow : Type 0 where
  pub policy_revision : ℕ
  pub state : CpuChargeAdmissionState

pub record AdmissionDb : Type 0 where
  pub ledger : ChargesDb
  pub row : Option AdmissionRow
  pub applied_at : Option ℕ

-- How a commit ends: it succeeds, or it reports an error, with the transaction lost or stored.
pub data Fate : Type 0 where
  committed lost stored : Fate

-- What a mutation returns, with the Store and the database as it leaves them. `publication_failed`
-- is the CPUChargeAdmissionPublicationError.
pub record Published : Type 0 where
  pub store_after : Store
  pub db_after : AdmissionDb
  pub charges : CpuChargeState
  pub admission : CpuChargeAdmissionState
  pub publication_failed : Bool
  pub outcome : Option AdmissionError

-- CPUChargeAdmissionMaxJSONBytes
abbrev pub max_admission_bytes : ℕ
max_admission_bytes = 4096

-- The authority of an operation that writes.
unfoldable pub admission_writer : Store → Result AdmissionError (Unit {0})
admission_writer st = do
  refuse_if st.readonly (cpu read_only)
  refuse_if st.cpu_authority_refused (cpu authority_refused)

abbrev pub closed_error : Reason → AdmissionError
closed_error reason =
    if reason_eq reason cpu_clock_rollback then cpu clock_rollback else cpu unknown_session

-- The error that goes with a closed session, which c.Session holds.
unfoldable pub cpu_admission_outcome :
    CpuChargeState → Result AdmissionError (Option AdmissionError)
cpu_admission_outcome c =
    if closed_unknown c.status
    then elim c.session [
      | none ↦ err (cpu nil_dereference)
      | some r ↦ ok (some (closed_error r.closure_reason))
    ]
    else ok none

-- Nothing was to be changed.
abbrev pub viewed :
    Store
    → AdmissionDb
    → CpuChargeState
    → CpuChargeAdmissionState
    → Option AdmissionError
    → Published
viewed st db c a outcome = record {
  store_after = st;
  db_after = db;
  charges = c;
  admission = a;
  publication_failed = false;
  outcome = outcome;
}

-- The permanent latch after a commit whose result is not known.
abbrev pub refused : Store → Store
refused st = record st { cpu_authority_refused = true }

abbrev pub ended :
    Fate
    → Store
    → AdmissionDb
    → AdmissionDb
    → CpuChargeState × CpuChargeAdmissionState
    → CpuChargeState × CpuChargeAdmissionState
    → Published
ended committed st db db' prior next = viewed st db' next.0 next.1 none
ended lost st db db' prior next = record (viewed (refused st) db prior.0 prior.1 none) {
  publication_failed = true;
}
ended stored st db db' prior next = record (viewed (refused st) db' prior.0 prior.1 none) {
  publication_failed = true;
}

-- finish: a published result is returned with the outcome of its charges.
unfoldable pub with_outcome : Published → Result AdmissionError Published
with_outcome p =
    if p.publication_failed
    then ok p
    else (cpu_admission_outcome p.charges >>= λ outcome. ok (record p { outcome = outcome }))

-- view
unfoldable pub viewed_outcome :
    Store → AdmissionDb → CpuChargeState → CpuChargeAdmissionState → Result AdmissionError Published
viewed_outcome st db c a = do outcome ← cpu_admission_outcome c; ok (viewed st db c a outcome)

module _ (charges_size : CpuChargeState → ℕ) (admission_size : CpuChargeAdmissionState → ℕ)
    (state_digest : CpuChargeState → List ℕ) (gap_id : CpuTrackingGapRequest → List ℕ) where
  saved_admission :
      CpuChargeState → AdmissionRow → Option ℕ → Result AdmissionError CpuChargeAdmissionState
  saved_admission c row applied_at = do
    at ← or_else applied_at corrupt_admission
    refuse_if (ltb max_admission_bytes (admission_size row.state)) corrupt_admission
    refuse_if (not (valid_cpu_admission state_digest gap_id row.state c)) corrupt_admission
    refuse_if (not (row.state.policy_revision == row.policy_revision)) corrupt_admission
    refuse_if (not (equals_at row.state.activated_at at)) corrupt_admission
    ok row.state

  unfoldable pub read_cpu_admission :
      AdmissionDb → CpuChargeState → Result AdmissionError CpuChargeAdmissionState
  unfolding saved_admission
  read_cpu_admission db c =
      if ltb db.ledger.user_version 16
      then ok (cpu_admission_base false)
      else (or_else db.row corrupt_admission >>= λ row. saved_admission c row db.applied_at)

  unfoldable pub read_both :
      AdmissionDb → Result AdmissionError (CpuChargeState × CpuChargeAdmissionState)
  read_both db = do
    c ← of_charges (read_cpu_charges charges_size db.ledger)
    a ← read_cpu_admission db c
    ok (c, a)

  unfoldable pub write_cpu_admission :
      AdmissionDb → CpuChargeState → CpuChargeAdmissionState → Result AdmissionError AdmissionDb
  write_cpu_admission db c a = do
    refuse_if (not (valid_cpu_admission state_digest gap_id a c)) invalid_admission
    refuse_if (ltb max_admission_bytes (admission_size a)) (cpu overflow)
    ok (record db { row = some (record { policy_revision = a.policy_revision; state = a }) })

  unfoldable pub publish :
      Fate
      → Store
      → AdmissionDb
      → CpuChargeState × CpuChargeAdmissionState
      → CpuChargeState × CpuChargeAdmissionState
      → Result AdmissionError Published
  publish fate st db prior next = do
    refuse_if st.cpu_authority_refused (cpu authority_refused)
    ledger' ← of_charges (commit_cpu_charges charges_size db.ledger next.0)
    db' ← write_cpu_admission (record db { ledger = ledger' }) next.0 next.1
    ok (ended fate st db db' prior next)

  unfoldable pub cpu_charge_admission : AdmissionDb → Result AdmissionError CpuChargeAdmissionState
  cpu_charge_admission db = do both ← read_both db; ok both.1

  -- ActivateCPUChargeAdmission on version 15: migration 16 and the first row.
  unfoldable pub activate_new :
      Fate
      → Store
      → AdmissionDb
      → CpuChargeState
      → CpuChargeAdmissionState
      → ℕ
      → CpuChargeLimits
      → Result AdmissionError Published
  activate_new fate st db c a at limits = do
    refuse_if (not ((db.ledger.user_version == 15) && c.available)) unavailable_admission
    refuse_if (no_limits limits) invalid_admission
    refuse_if (status_eq c.status active) (cpu stale)
    high ← or_else c.clock_high_water (cpu nil_dereference)
    refuse_if (ltb at high) (cpu clock_rollback)
    slots ← cpu_admission_slots at
    let migrated : AdmissionDb = record db {
      ledger = record db.ledger { user_version = 16 };
      applied_at = some at;
    }
    p ←
        publish fate st migrated (c, a)
          (c, activated_admission state_digest c at limits slots.0 slots.1)
    ok (
        if p.publication_failed
        then record p { db_after = elim fate [ lost ↦ db | _ ↦ p.db_after ] }
        else p)

  unfoldable pub activate_cpu_charge_admission :
      Fate → Store → AdmissionDb → ℕ → CpuChargeLimits → Result AdmissionError Published
  activate_cpu_charge_admission fate st db at limits = do
    refuse_if (not (cpu_admission_limits_valid limits && cpu_admission_time at)) invalid_admission
    admission_writer st
    both ← read_both db
    if db.ledger.user_version == 16
        then ok (viewed st db both.0 both.1 none)
        else activate_new fate st db both.0 both.1 at limits

  abbrev pub same_request : Option CpuLimitedSessionStart → CpuLimitedSessionStart → Bool
  same_request none q = false
  same_request (some p) q = same_cpu_limited_start p q

  -- BeginCPUSessionLimited past the exact retry.
  unfoldable pub begin_limited_new :
      Fate
      → Store
      → AdmissionDb
      → CpuChargeState
      → CpuChargeAdmissionState
      → CpuLimitedSessionStart
      → Result AdmissionError (Option CpuLimitedSessionMarker × Published)
  begin_limited_new fate st db c a q = do
    refuse_if
        (not (
          (q.start.expected_generation == c.generation)
          && (q.expected_policy_revision == a.policy_revision)))
        (cpu stale)
    high ← or_else a.clock_high_water (cpu nil_dereference)
    refuse_if (ltb q.start.observed_at high) (cpu clock_rollback)
    refuse_if (status_eq c.status active) (cpu stale)
    refuse_if ((c.generation == max_int64) || (a.policy_revision == max_int64)) (cpu overflow)
    next ← begin_limited_state state_digest c a q
    p ← publish fate st db (c, a) next
    let marker : CpuLimitedSessionMarker = record {
      store = st.handle;
      generation = next.0.generation;
      revision = next.1.policy_revision;
      request = q;
    }
    p' ← with_outcome p
    ok (some marker, p')

  unfoldable pub begin_cpu_session_limited :
      Fate
      → Store
      → AdmissionDb
      → CpuLimitedSessionStart
      → Result AdmissionError (Option CpuLimitedSessionMarker × Published)
  begin_cpu_session_limited fate st db q = do
    refuse_if (not (valid_cpu_limited_start q)) invalid_admission
    admission_writer st
    both ← read_both db
    refuse_if (not (db.ledger.user_version == 16)) unavailable_admission
    if same_request both.1.begin_request q
        then (viewed_outcome st db both.0 both.1 >>= λ p. ok (none, p))
        else begin_limited_new fate st db both.0 both.1 q

  -- sampleCPUSessionLimited past the exact retry.
  unfoldable pub sample_limited_new :
      Fate
      → Store
      → AdmissionDb
      → CpuChargeState
      → CpuChargeAdmissionState
      → CpuSessionRecord
      → CpuSessionSample
      → Bool
      → Result AdmissionError Published
  sample_limited_new fate st db c a r q finish = do
    refuse_if (r.last_ordinal == max_int64) (cpu overflow)
    refuse_if (not (status_eq r.status active && (q.ordinal == r.last_ordinal + 1))) (cpu stale)
    next ← sample_limited_state state_digest c a r q finish
    p ← publish fate st db (c, a) next
    p' ← with_outcome p
    ok p'

  -- SampleCPUSessionLimited and, with `finish`, FinishCPUSessionLimited.
  unfoldable pub sample_cpu_session_limited :
      Fate
      → Store
      → AdmissionDb
      → CpuLimitedSessionMarker
      → CpuSessionSample
      → Bool
      → Result AdmissionError Published
  sample_cpu_session_limited fate st db m q finish = do
    refuse_if
        (not (
          (m.store == st.handle)
          && ltb 0 m.generation
          && ltb 0 m.revision
          && valid_cpu_limited_start m.request
          && cpu_charges_sample_valid q
          && cpu_admission_time q.observed_at))
        (cpu stale)
    admission_writer st
    both ← read_both db
    refuse_if (not (db.ledger.user_version == 16)) unavailable_admission
    refuse_if
        (not (
          not both.1.tracking_gap_open
          && (both.1.policy_revision == m.revision)
          && (both.0.generation == m.generation)
          && same_request both.1.begin_request m.request))
        (cpu stale)
    r ← or_else both.0.session (cpu nil_dereference)
    if sample_retry r q finish r.last_sample
        then viewed_outcome st db both.0 both.1
        else sample_limited_new fate st db both.0 both.1 r q finish

  -- RecoverCPUSessionLimited with an active session.
  unfoldable pub recover_limited_active :
      Fate
      → Store
      → AdmissionDb
      → CpuChargeState
      → CpuChargeAdmissionState
      → ℕ
      → Result AdmissionError Published
  recover_limited_active fate st db c a at = do
    high ← or_else a.clock_high_water (cpu nil_dereference)
    refuse_if (ltb at high) (cpu clock_rollback)
    next ← recover_limited_state state_digest c a at
    publish fate st db (c, a) next

  unfoldable pub recover_cpu_session_limited :
      Fate → Store → AdmissionDb → ℕ → Result AdmissionError Published
  recover_cpu_session_limited fate st db at = do
    refuse_if (not (cpu_admission_time at)) invalid_admission
    admission_writer st
    both ← read_both db
    refuse_if (not (db.ledger.user_version == 16)) unavailable_admission
    if status_eq both.0.status active
        then recover_limited_active fate st db both.0 both.1 at
        else ok (viewed st db both.0 both.1 none)

  -- The exact retry of the request that opened the current gap.
  abbrev pub gap_retry : CpuChargeAdmissionState → CpuTrackingGapRequest → Bool
  gap_retry a q = a.tracking_gap_open && elim a.latest_gap [
    | none ↦ false
    | some r ↦ (a.policy_revision == r.applied_revision) && same_cpu_gap_request r.request q
  ]

  -- OpenCPUTrackingGap past the exact retry, with no gap open.
  unfoldable pub gap_new :
      Fate
      → Store
      → AdmissionDb
      → CpuChargeState
      → CpuChargeAdmissionState
      → CpuTrackingGapRequest
      → Result AdmissionError Published
  gap_new fate st db c a q = do
    refuse_if (a.policy_revision == max_int64) (cpu overflow)
    next ← gap_state state_digest c a q (gap_id q)
    publish fate st db (c, a) next

  unfoldable pub open_cpu_tracking_gap :
      Fate → Store → AdmissionDb → CpuTrackingGapRequest → Result AdmissionError Published
  open_cpu_tracking_gap fate st db q = do
    refuse_if (not (valid_cpu_gap_request q)) invalid_admission
    admission_writer st
    both ← read_both db
    refuse_if (not (db.ledger.user_version == 16)) unavailable_admission
    let fresh = do
      refuse_if
          (not (
            (q.expected_generation == both.0.generation)
            && (q.expected_policy_revision == both.1.policy_revision)))
          (cpu stale)
      high ← or_else both.1.clock_high_water (cpu nil_dereference)
      refuse_if (ltb q.observed_at high) (cpu clock_rollback)
      if both.1.tracking_gap_open
          then ok (viewed st db both.0 both.1 none)
          else gap_new fate st db both.0 both.1 q
    if gap_retry both.1 q then ok (viewed st db both.0 both.1 none) else fresh
