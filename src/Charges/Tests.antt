-- ===== src/Charges/Tests.antt =====
-- The charge ledger of internal/state/cpu_charges.go on one short session.
use saga_rydd.Prelude.{
  ℕ, ◌≡◌, ◌≢◌, refl, true, false, Option, none, some, zeros, bytes_eq, ok, err, ok_or, arith,
}
use saga_rydd.Prelude.Int.{pos}
use saga_rydd.Clock.{cpu_feedback_time, cpu_feedback_add, metadata_digest}
use saga_rydd.Feedback.{cpu_feedback_wait, cpu_charges_prefix_wait}
use saga_rydd.Charges.Types.{
  no_reason, active, untracked, invalid, stale, clock_rollback, nil_dereference, CpuSessionStart,
  CpuSessionSample, CpuSessionRecord, CpuChargeState, cpu_charges_base, same_cpu_start,
  cpu_charges_time, cpu_charges_start_valid, cpu_charges_sample_valid, cpu_charges_problem,
  cpu_charges_input_cpu,
}
use saga_rydd.Charges.Valid.{
  valid_cpu_charges, record_valid, last_self_valid, last_sample_valid, phase_valid, active_valid,
  live_valid, wait_valid, untracked_valid, session_valid, base_valid, ledger_valid, next_within,
}
use saga_rydd.Charges.Steps.{
  next_allowed_after, cpu_charges_debt, cpu_charges_close, charge_prefix, cpu_limited_begin_state,
  begin_state, charge_sample, sample_problem, cpu_limited_sample_state, recover_state,
}
use saga_rydd.Charges.Ledger.{
  recover_cpu_session, Store, ChargesDb, CpuSessionMarker, cpu_charges_writer, bare_cpu_authority,
  read_cpu_charges, begin_new, begin_cpu_session, sample_new, sample_cpu_session, begin_retry,
}
use saga_rydd.Charges.Begin.{begin_state-valid, recover_state-valid}
use saga_rydd.Charges.Sample.{cpu_limited_sample_state-valid}
use saga_rydd.Charges.Safety.{
  begin_cpu_session_safe, sample_cpu_session_safe, recover_cpu_session_safe,
}

-- An activated ledger, a session that starts with 5 ms, and its first sample.
abbrev idle : CpuChargeState
idle = record {
  available = true;
  status = untracked;
  generation = 0;
  charged_cpu_ns = 0;
  closed_sessions = 0;
  unknown_tail_sessions = 0;
  open_tail_unobserved = false;
  recovered_sessions = 0;
  activated_at = some 1000;
  clock_high_water = some 1000;
  next_allowed_at = none;
  session = none;
}

abbrev start : CpuSessionStart
start = record {
  expected_generation = 0;
  nonce = zeros 64;
  instance_id = zeros 32;
  observed_at = 2000;
  self_cpu_ns = some (pos 5000000);
  reason = no_reason;
}

abbrev sample : CpuSessionSample
sample = record {
  ordinal = 1;
  observed_at = 3000;
  self_cpu_ns = some (pos 7000000);
  elapsed_ns = some (pos 100000000);
  reason = no_reason;
}

abbrev begun : CpuChargeState
begun = ok_or idle (begin_state idle start)

abbrev begun_record : Option CpuSessionRecord → CpuSessionRecord
begun_record (some r) = r
begun_record none = record {
  generation = 0;
  start = start;
  status = active;
  initial_prefix_charge_ns = 0;
  session_charged_cpu_ns = 0;
  last_self_cpu_ns = none;
  last_ordinal = 0;
  last_sample = none;
  last_sample_final = false;
  closed_at = none;
  closure_reason = no_reason;
  last_charge_ns = 0;
  last_backoff_ns = 0;
  last_backoff_capped = false;
}

abbrev session : CpuSessionRecord
session = begun_record begun.session

idle-valid : valid_cpu_charges idle ≡ true
unfolding valid_cpu_charges cpu_charges_base ledger_valid base_valid cpu_charges_time next_within
    untracked_valid
idle-valid = refl

start-valid : cpu_charges_start_valid start ≡ true
unfolding cpu_charges_start_valid cpu_charges_time cpu_charges_input_cpu metadata_digest
start-valid = refl

sample-valid : cpu_charges_sample_valid sample ≡ true
unfolding cpu_charges_sample_valid cpu_charges_time cpu_charges_input_cpu
sample-valid = refl

begun_ok : begin_state idle start ≡ ok begun
unfolding begin_state cpu_limited_begin_state charge_prefix cpu_charges_debt cpu_feedback_add
    cpu_feedback_time cpu_charges_problem cpu_charges_prefix_wait next_allowed_after
    cpu_charges_close
begun_ok = refl

begin_state-valid_example : valid_cpu_charges begun ≡ true
begin_state-valid_example =
    begin_state-valid idle begun start 1000 idle-valid start-valid refl (omega arith) refl
      (omega arith) begun_ok

begun-valid : valid_cpu_charges begun ≡ true
unfolding valid_cpu_charges cpu_charges_base ledger_valid base_valid cpu_charges_time next_within
    untracked_valid session_valid record_valid phase_valid live_valid active_valid last_self_valid
    last_sample_valid wait_valid cpu_charges_start_valid metadata_digest cpu_charges_input_cpu
    cpu_charges_sample_valid same_cpu_start begin_state cpu_limited_begin_state charge_prefix
    cpu_charges_debt cpu_feedback_add cpu_feedback_time cpu_charges_problem cpu_charges_prefix_wait
    next_allowed_after cpu_charges_close
begun-valid = refl

begun_session : begun.session ≡ some session
unfolding begin_state cpu_limited_begin_state charge_prefix cpu_charges_debt cpu_feedback_add
    cpu_feedback_time cpu_charges_problem cpu_charges_prefix_wait next_allowed_after
    cpu_charges_close
begun_session = refl

session_active : session.status ≡ active
unfolding begin_state cpu_limited_begin_state charge_prefix cpu_charges_debt cpu_feedback_add
    cpu_feedback_time cpu_charges_problem cpu_charges_prefix_wait next_allowed_after
    cpu_charges_close
session_active = refl

begun_high : begun.clock_high_water ≡ some 2000
unfolding begin_state cpu_limited_begin_state charge_prefix cpu_charges_debt cpu_feedback_add
    cpu_feedback_time cpu_charges_problem cpu_charges_prefix_wait next_allowed_after
    cpu_charges_close
begun_high = refl

abbrev sampled : CpuChargeState
sampled = ok_or idle (cpu_limited_sample_state begun session sample true 2000)

sampled_ok : cpu_limited_sample_state begun session sample true 2000 ≡ ok sampled
unfolding cpu_limited_sample_state charge_sample sample_problem cpu_feedback_wait begin_state
    cpu_limited_begin_state charge_prefix cpu_charges_debt cpu_feedback_add cpu_feedback_time
    cpu_charges_problem cpu_charges_prefix_wait next_allowed_after cpu_charges_close
sampled_ok = refl

instant : cpu_charges_time 2000 ≡ true
unfolding cpu_charges_time
instant = refl

cpu_limited_sample_state-valid_example : valid_cpu_charges sampled ≡ true
cpu_limited_sample_state-valid_example =
    cpu_limited_sample_state-valid begun sampled session sample true 2000 2000 begun-valid
      begun_session session_active begun_high (omega arith) instant sample-valid sampled_ok

abbrev recovered : CpuChargeState
recovered = ok_or idle (recover_state begun session 2000)

recovered_ok : recover_state begun session 2000 ≡ ok recovered
unfolding recover_state begin_state cpu_limited_begin_state charge_prefix cpu_charges_debt
    cpu_feedback_add cpu_feedback_time cpu_charges_problem cpu_charges_prefix_wait
    next_allowed_after cpu_charges_close
recovered_ok = refl

recover_state-valid_example : valid_cpu_charges recovered ≡ true
recover_state-valid_example =
    recover_state-valid begun recovered session 2000 2000 begun-valid begun_session session_active
      begun_high (omega arith) instant recovered_ok

abbrev store : Store
store = record { handle = 1; readonly = false; cpu_authority_refused = false }

abbrev charges_db : CpuChargeState → ChargesDb
charges_db s = record { user_version = 15; saved = some s }

abbrev size : CpuChargeState → ℕ
size s = 700

abbrev early_start : CpuSessionStart
early_start = record start { observed_at = 999 }

early_start-valid : cpu_charges_start_valid early_start ≡ true
unfolding cpu_charges_start_valid cpu_charges_time cpu_charges_input_cpu metadata_digest
early_start-valid = refl

early_start_refused :
    begin_cpu_session size store (charges_db idle) early_start ≡ err clock_rollback
unfolding begin_retry begin_cpu_session begin_new cpu_charges_writer bare_cpu_authority
    read_cpu_charges cpu_charges_start_valid cpu_charges_input_cpu metadata_digest valid_cpu_charges
    cpu_charges_base ledger_valid base_valid cpu_charges_time next_within untracked_valid
early_start_refused = refl

-- a start before the ledger's high-water instant
begin_cpu_session_safe_example : (clock_rollback ≢ invalid) × (clock_rollback ≢ nil_dereference)
begin_cpu_session_safe_example =
    begin_cpu_session_safe size store (charges_db idle) early_start clock_rollback early_start-valid
      early_start_refused

abbrev marker : CpuSessionMarker
marker = record { store = 1; generation = 1; start = start }

abbrev skipped_sample : CpuSessionSample
skipped_sample = record sample { ordinal = 2 }

skipped_sample_refused :
    sample_cpu_session size store (charges_db begun) marker skipped_sample false ≡ err stale
unfolding sample_cpu_session sample_new bytes_eq cpu_charges_writer bare_cpu_authority
    read_cpu_charges valid_cpu_charges cpu_charges_base ledger_valid base_valid cpu_charges_time
    next_within untracked_valid session_valid record_valid phase_valid live_valid active_valid
    last_self_valid last_sample_valid wait_valid cpu_charges_start_valid metadata_digest
    cpu_charges_input_cpu cpu_charges_sample_valid same_cpu_start begin_state
    cpu_limited_begin_state charge_prefix cpu_charges_debt cpu_feedback_add cpu_feedback_time
    cpu_charges_problem cpu_charges_prefix_wait next_allowed_after cpu_charges_close
skipped_sample_refused = refl

-- a sample whose ordinal skips one
sample_cpu_session_safe_example : (stale ≢ invalid) × (stale ≢ nil_dereference)
sample_cpu_session_safe_example =
    sample_cpu_session_safe size store (charges_db begun) marker skipped_sample false stale
      skipped_sample_refused

early_recovery_refused : recover_cpu_session size store (charges_db begun) 1500 ≡ err clock_rollback
unfolding bytes_eq cpu_charges_writer bare_cpu_authority read_cpu_charges valid_cpu_charges
    cpu_charges_base ledger_valid base_valid cpu_charges_time next_within untracked_valid
    session_valid record_valid phase_valid live_valid active_valid last_self_valid last_sample_valid
    wait_valid cpu_charges_start_valid metadata_digest cpu_charges_input_cpu
    cpu_charges_sample_valid same_cpu_start begin_state cpu_limited_begin_state charge_prefix
    cpu_charges_debt cpu_feedback_add cpu_feedback_time cpu_charges_problem cpu_charges_prefix_wait
    next_allowed_after cpu_charges_close recover_cpu_session
early_recovery_refused = refl

early_instant : cpu_charges_time 1500 ≡ true
unfolding cpu_charges_time
early_instant = refl

-- a recovery before the ledger's high-water instant
recover_cpu_session_safe_example : (clock_rollback ≢ invalid) × (clock_rollback ≢ nil_dereference)
recover_cpu_session_safe_example =
    recover_cpu_session_safe size store (charges_db begun) 1500 clock_rollback early_instant
      early_recovery_refused
