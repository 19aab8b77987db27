-- ===== src/Charges/Ledger.antt =====
-- The operations of a Store on its charge ledger (internal/state/cpu_charges.go): the checks of the
-- writer, the read and the commit around the transitions of Charges/Steps.antt, with the bare
-- authority check of internal/state/cpu_charge_admission_transitions.go.
-- A database is its user_version and the row of worker_self_cpu_charges. The canonical JSON of a state
-- decodes to that state; `encoded_size`, a parameter, is its length in bytes. The instant of the
-- migration, which the reader compares with the activation, is not modelled. An error leaves the
-- database as it was (the transaction is rolled back), and a cancelled context, a failed statement and
-- the shape of the schema are not modelled. An outcome beside a committed state is an `Option`.
use saga_rydd.Prelude.{
  ℕ, ◌+◌, ◌-◌, Bool, true, false, not, ◌&&◌, ◌||◌, Option, none, some, leb, ltb, ◌==◌,
  if◌then◌else◌, Result, ok, err, ◌>>=◌, ◌>>◌, refuse_if, or_else,
}
use saga_rydd.Prelude.Int.{max_int64}
use saga_rydd.Charges.Types.{
  Reason, no_reason, cpu_clock_rollback, reason_eq, active, unknown, recovered_unknown, status_eq,
  ChargesError, invalid, unavailable_ledger, corrupt, read_only, stale, overflow, clock_rollback,
  unknown_session, authority_refused, policy_required, nil_dereference, CpuSessionStart,
  CpuSessionSample, CpuSessionRecord, CpuChargeState, cpu_charges_base, same_cpu_start,
  same_cpu_sample, cpu_charges_time, cpu_charges_start_valid, cpu_charges_sample_valid,
  cpu_charges_problem,
}
use saga_rydd.Charges.Valid.{valid_cpu_charges}
use saga_rydd.Charges.Steps.{
  begin_state, cpu_limited_sample_state, sample_problem, noted_record, recover_state,
}

-- An open Store: which one it is, and its two write barriers.
pub record Store : Type 0 where
  pub handle : ℕ
  pub readonly : Bool
  pub cpu_authority_refused : Bool

pub record ChargesDb : Type 0 where
  pub user_version : ℕ
  pub saved : Option CpuChargeState

pub record CpuSessionMarker : Type 0 where
  pub store : ℕ
  pub generation : ℕ
  pub start : CpuSessionStart

-- CPUChargesMaxJSONBytes
abbrev pub max_json_bytes : ℕ
max_json_bytes = 8192

unfoldable pub cpu_charges_writer : Store → Result ChargesError (Unit {0})
cpu_charges_writer st = do
  refuse_if st.cpu_authority_refused authority_refused
  refuse_if st.readonly read_only

unfoldable pub bare_cpu_authority : Store → ChargesDb → Result ChargesError (Unit {0})
bare_cpu_authority st db = do
  refuse_if st.cpu_authority_refused authority_refused
  refuse_if (leb 16 db.user_version) policy_required

-- ErrCPUChargesUnknown for a problem.
abbrev pub problem_outcome : Reason → Option ChargesError
problem_outcome why = if reason_eq why no_reason then none else some unknown_session

abbrev pub start_problem : CpuSessionStart → Reason
start_problem start = cpu_charges_problem start.self_cpu_ns start.reason none false

-- The test of the exact retry, which reads prior.Session.Start once the two of the generation pass.
unfoldable pub begin_retry :
    CpuChargeState → CpuSessionStart → Option CpuSessionRecord → Result ChargesError Bool
begin_retry prior start session =
    if ltb 0 prior.generation && (prior.generation - 1 == start.expected_generation)
    then elim session [ none ↦ err nil_dereference | some r ↦ ok (same_cpu_start r.start start) ]
    else ok false

abbrev pub sample_retry :
    CpuSessionRecord → CpuSessionSample → Bool → Option CpuSessionSample → Bool
sample_retry r q finish none = false
sample_retry r q finish (some last) =
    (q.ordinal == r.last_ordinal)
    && (if finish then r.last_sample_final else not r.last_sample_final)
    && same_cpu_sample last q

abbrev pub retry_outcome : CpuSessionRecord → Option ChargesError
retry_outcome r =
    if status_eq r.status unknown || status_eq r.status recovered_unknown
    then (if reason_eq r.closure_reason cpu_clock_rollback
        then some clock_rollback
        else some unknown_session)
    else none

abbrev pub sample_outcome : Reason → Option ChargesError
sample_outcome why =
    if reason_eq why cpu_clock_rollback then some clock_rollback else problem_outcome why

abbrev pub is_active : Option CpuSessionRecord → Bool
is_active none = false
is_active (some r) = status_eq r.status active

module _ (encoded_size : CpuChargeState → ℕ) where
  saved_state : Option CpuChargeState → Result ChargesError CpuChargeState
  saved_state none = err corrupt
  saved_state (some s) = do
    refuse_if (ltb max_json_bytes (encoded_size s)) corrupt
    refuse_if (not (valid_cpu_charges s)) corrupt
    ok s

  unfoldable pub read_cpu_charges : ChargesDb → Result ChargesError CpuChargeState
  unfolding saved_state
  read_cpu_charges db =
      if ltb db.user_version 15 then ok (cpu_charges_base false) else saved_state db.saved

  -- writeCPUCharges and the commit
  unfoldable pub commit_cpu_charges : ChargesDb → CpuChargeState → Result ChargesError ChargesDb
  commit_cpu_charges db next = do
    refuse_if (not (valid_cpu_charges next)) invalid
    refuse_if (ltb max_json_bytes (encoded_size next)) overflow
    ok (record db { saved = some next })

  unfoldable pub activate_cpu_charges :
      Store → ChargesDb → ℕ → Result ChargesError (ChargesDb × CpuChargeState)
  activate_cpu_charges st db at = do
    cpu_charges_writer st
    refuse_if (not (cpu_charges_time at)) invalid
    bare_cpu_authority st db
    prior ← read_cpu_charges db
    let next = record (cpu_charges_base true) { activated_at = some at; clock_high_water = some at }
    let created = do
      refuse_if (not (db.user_version == 14)) unavailable_ledger
      db' ← commit_cpu_charges (record db { user_version = 15 }) next
      ok (db', next)
    if prior.available then ok (db, prior) else created

  -- BeginCPUSession past the exact retry.
  unfoldable pub begin_new :
      Store
      → ChargesDb
      → CpuChargeState
      → CpuSessionStart
      → Result ChargesError
          (ChargesDb × Option CpuSessionMarker × CpuChargeState × Option ChargesError)
  begin_new st db prior start = do
    refuse_if (not (start.expected_generation == prior.generation)) stale
    high ← or_else prior.clock_high_water nil_dereference
    refuse_if (ltb start.observed_at high) clock_rollback
    refuse_if (prior.generation == max_int64) overflow
    next ← begin_state prior start
    db' ← commit_cpu_charges db next
    let marker : CpuSessionMarker = record {
      store = st.handle;
      generation = next.generation;
      start = start;
    }
    ok (db', some marker, next, problem_outcome (start_problem start))

  unfoldable pub begin_cpu_session :
      Store
      → ChargesDb
      → CpuSessionStart
      → Result ChargesError
          (ChargesDb × Option CpuSessionMarker × CpuChargeState × Option ChargesError)
  begin_cpu_session st db start = do
    cpu_charges_writer st
    refuse_if (not (cpu_charges_start_valid start)) invalid
    bare_cpu_authority st db
    prior ← read_cpu_charges db
    refuse_if (not prior.available) unavailable_ledger
    again ← begin_retry prior start prior.session
    if again
        then ok (db, none, prior, problem_outcome (start_problem start))
        else begin_new st db prior start

  -- sampleCPUSession past the exact retry.
  unfoldable pub sample_new :
      ChargesDb
      → CpuChargeState
      → CpuSessionRecord
      → CpuSessionSample
      → Bool
      → Result ChargesError (ChargesDb × CpuChargeState × Option ChargesError)
  sample_new db prior r q finish = do
    refuse_if (r.last_ordinal == max_int64) overflow
    refuse_if (not (status_eq r.status active && (q.ordinal == r.last_ordinal + 1))) stale
    high ← or_else prior.clock_high_water nil_dereference
    next ← cpu_limited_sample_state prior r q finish high
    db' ← commit_cpu_charges db next
    ok (db', next, sample_outcome (sample_problem (noted_record r q finish) q high))

  -- SampleCPUSession and, with `finish`, FinishCPUSession.
  unfoldable pub sample_cpu_session :
      Store
      → ChargesDb
      → CpuSessionMarker
      → CpuSessionSample
      → Bool
      → Result ChargesError (ChargesDb × CpuChargeState × Option ChargesError)
  sample_cpu_session st db marker q finish = do
    cpu_charges_writer st
    refuse_if
        (not (
          (marker.store == st.handle)
          && ltb 0 marker.generation
          && cpu_charges_start_valid marker.start
          && cpu_charges_sample_valid q))
        stale
    bare_cpu_authority st db
    prior ← read_cpu_charges db
    refuse_if (not prior.available) unavailable_ledger
    r ← or_else prior.session stale
    refuse_if (not ((marker.generation == prior.generation) && same_cpu_start marker.start r.start))
        stale
    if sample_retry r q finish r.last_sample
        then ok (db, prior, retry_outcome r)
        else sample_new db prior r q finish

  -- RecoverCPUSession with an active session.
  unfoldable pub recover_active :
      ChargesDb → CpuChargeState → ℕ → Result ChargesError (ChargesDb × CpuChargeState)
  recover_active db prior at = do
    r ← or_else prior.session nil_dereference
    next ← recover_state prior r at
    db' ← commit_cpu_charges db next
    ok (db', next)

  unfoldable pub recover_cpu_session :
      Store → ChargesDb → ℕ → Result ChargesError (ChargesDb × CpuChargeState)
  recover_cpu_session st db at = do
    cpu_charges_writer st
    refuse_if (not (cpu_charges_time at)) invalid
    bare_cpu_authority st db
    prior ← read_cpu_charges db
    refuse_if (not prior.available) unavailable_ledger
    high ← or_else prior.clock_high_water nil_dereference
    refuse_if (ltb at high) clock_rollback
    if is_active prior.session then recover_active db prior at else ok (db, prior)
