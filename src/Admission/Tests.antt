-- ===== src/Admission/Tests.antt =====
-- The period admission of internal/state/cpu_charge_admission_transitions.go on one activation and
-- one session.
use saga_rydd.Prelude.{
  ◌==◌, ℕ, ◌≡◌, refl, sym, ◌∙◌, subst, ◌≢◌, true, false, none, some, List, [], ◌∷◌, bytes_eq, ok,
  err, ok_inj, zeros, ok_or,
}
use saga_rydd.Prelude.Int.{pos}
use saga_rydd.Clock.{cpu_feedback_time, cpu_feedback_add, metadata_digest}
use saga_rydd.Feedback.{hour, cpu_charges_prefix_wait}
use saga_rydd.Charges.Types.{
  no_reason, active, stale, clock_rollback, CpuSessionSample, CpuChargeState, cpu_charges_base,
  same_cpu_start, cpu_charges_time, cpu_charges_start_valid, cpu_charges_sample_valid,
  cpu_charges_problem, cpu_charges_input_cpu, status_eq,
}
use saga_rydd.Charges.Valid.{
  valid_cpu_charges, record_valid, last_self_valid, last_sample_valid, phase_valid, active_valid,
  live_valid, wait_valid, untracked_valid, session_valid, base_valid, ledger_valid, next_within,
}
use saga_rydd.Charges.Steps.{
  next_allowed_after, cpu_charges_debt, cpu_charges_close, charge_prefix, cpu_limited_begin_state,
}
use saga_rydd.Charges.Ledger.{Store, read_cpu_charges, commit_cpu_charges}
use saga_rydd.Admission.Types.{
  AdmissionError, cpu, CpuChargeLimits, CpuLimitedSessionStart, CpuLimitedSessionMarker,
  CpuTrackingGapRequest, CpuChargeAdmissionState, CpuChargePeriod, no_period, cpu_admission_base,
  cpu_admission_limits_valid, slot_start, slot_at, cpu_admission_slots, cpu_admission_time,
  valid_cpu_gap_request, same_cpu_limited_start, valid_cpu_limited_start,
}
use saga_rydd.Admission.Valid.{
  clocks_valid, slot_valid, slots_valid, first_policy_valid, marks_valid, request_valid,
  bound_valid, gap_valid, admission_valid, valid_cpu_admission, is_present,
}
use saga_rydd.Admission.Steps.{
  activated_admission, current_period, roll_period, roll_cpu_admission, bind_cpu_admission,
  begin_limited_state,
}
use saga_rydd.Admission.Operations.{
  Fate, activate_new, AdmissionDb, committed, lost, Published, admission_writer, read_cpu_admission,
  read_both, write_cpu_admission, publish, activate_cpu_charge_admission, begin_limited_new,
  sample_limited_new, begin_cpu_session_limited, sample_cpu_session_limited, recover_limited_active,
  recover_cpu_session_limited, open_cpu_tracking_gap, with_outcome, cpu_admission_outcome,
}
use saga_rydd.Admission.Sound.{is_internal}
use saga_rydd.Admission.Safety.{
  begin_cpu_session_limited_safe, sample_cpu_session_limited_safe, recover_cpu_session_limited_safe,
  open_cpu_tracking_gap_safe,
}
use saga_rydd.Admission.Histories.{
  Call, activates, begins, after_call, after_calls, after_calls_recover_safe,
}
use saga_rydd.Admission.Latch.{publish-read_both, publish_refuses}

abbrev size : CpuChargeState → ℕ
size c = 100

abbrev row_size : CpuChargeAdmissionState → ℕ
row_size a = 100

abbrev digest : CpuChargeState → List ℕ
digest c = c.generation ∷ c.charged_cpu_ns ∷ []

abbrev id : CpuTrackingGapRequest → List ℕ
id q = q.observed_at ∷ []

abbrev idle : CpuChargeState
idle = record (cpu_charges_base true) { activated_at = some 1000; clock_high_water = some 1000 }

abbrev store : Store
store = record { handle = 1; readonly = false; cpu_authority_refused = false }

abbrev limits : CpuChargeLimits
limits = record { hour_ns = 1000; day_limit_ns = 10000 }

abbrev partial_until : ℕ → CpuChargePeriod
partial_until end = record no_period { next_boundary_ns = end; partial_tracking = true }

abbrev admission : CpuChargeAdmissionState
admission = record (cpu_admission_base true) {
  activated_at = some 1500;
  clock_high_water = some 1500;
  limits = limits;
  hour_slot = partial_until hour;
  day_slot = partial_until 86400000000000;
  cpu_state_digest = digest idle;
}

abbrev db15 : AdmissionDb
db15 = record {
  ledger = record { user_version = 15; saved = some idle };
  row = none;
  applied_at = none;
}

abbrev db16 : AdmissionDb
db16 = record {
  ledger = record { user_version = 16; saved = some idle };
  row = some (record { policy_revision = 0; state = admission });
  applied_at = some 1500;
}

abbrev request : CpuLimitedSessionStart
request = record {
  start = record {
    expected_generation = 0;
    nonce = zeros 64;
    instance_id = zeros 32;
    observed_at = 2000;
    self_cpu_ns = some (pos 5000000);
    reason = no_reason;
  };
  expected_policy_revision = 0;
  limits = limits;
}

idle-valid : valid_cpu_charges idle ≡ true
unfolding valid_cpu_charges cpu_charges_base ledger_valid base_valid cpu_charges_time next_within
    untracked_valid
idle-valid = refl

read16 : read_both size row_size digest id db16 ≡ ok (idle, admission)
unfolding read_both read_cpu_admission read_cpu_charges valid_cpu_charges cpu_charges_base
    ledger_valid base_valid cpu_charges_time next_within untracked_valid valid_cpu_admission
    admission_valid clocks_valid bound_valid slots_valid slot_valid first_policy_valid marks_valid
    request_valid gap_valid cpu_admission_time cpu_admission_slots slot_at slot_start
    cpu_admission_limits_valid cpu_admission_base bytes_eq
read16 = refl

request-valid : valid_cpu_limited_start request ≡ true
unfolding valid_cpu_limited_start cpu_admission_limits_valid cpu_charges_start_valid
    cpu_charges_time cpu_charges_input_cpu metadata_digest cpu_admission_time cpu_admission_slots
    slot_at slot_start
request-valid = refl

abbrev stale_request : CpuLimitedSessionStart
stale_request = record request { expected_policy_revision = 7 }

stale_request-valid : valid_cpu_limited_start stale_request ≡ true
unfolding valid_cpu_limited_start cpu_admission_limits_valid cpu_charges_start_valid
    cpu_charges_time cpu_charges_input_cpu metadata_digest cpu_admission_time cpu_admission_slots
    slot_at slot_start
stale_request-valid = refl

begin_stale :
    begin_cpu_session_limited size row_size digest id committed store db16 stale_request
    ≡ err (cpu stale)
unfolding begin_cpu_session_limited begin_limited_new admission_writer read_both read_cpu_admission
    read_cpu_charges valid_cpu_charges cpu_charges_base ledger_valid base_valid cpu_charges_time
    next_within untracked_valid valid_cpu_admission admission_valid clocks_valid bound_valid
    slots_valid slot_valid first_policy_valid marks_valid request_valid gap_valid cpu_admission_time
    cpu_admission_slots slot_at slot_start cpu_admission_limits_valid cpu_admission_base bytes_eq
    session_valid record_valid phase_valid live_valid active_valid last_self_valid last_sample_valid
    wait_valid cpu_charges_start_valid metadata_digest cpu_charges_input_cpu same_cpu_start
    valid_cpu_limited_start cpu_charges_prefix_wait
begin_stale = refl

begin_cpu_session_limited_safe_example : is_internal (cpu stale) ≡ false
begin_cpu_session_limited_safe_example =
    begin_cpu_session_limited_safe size row_size digest id committed store db16 stale_request
      (cpu stale) stale_request-valid begin_stale

-- The session that the request begins.
abbrev begun : CpuChargeState × CpuChargeAdmissionState
begun = ok_or (idle, admission) (begin_limited_state digest idle admission request)

abbrev nothing : Published
nothing = record {
  store_after = store;
  db_after = db16;
  charges = idle;
  admission = admission;
  publication_failed = true;
  outcome = none;
}

abbrev published : Published
published =
    ok_or nothing (publish size row_size digest id committed store db16 (idle, admission) begun)

published_ok :
    publish size row_size digest id committed store db16 (idle, admission) begun ≡ ok published
unfolding publish write_cpu_admission commit_cpu_charges begin_limited_state cpu_limited_begin_state
    charge_prefix cpu_charges_debt cpu_feedback_add cpu_feedback_time cpu_charges_problem
    cpu_charges_prefix_wait next_allowed_after cpu_charges_close roll_cpu_admission roll_period
    current_period bind_cpu_admission read_both read_cpu_admission read_cpu_charges
    valid_cpu_charges cpu_charges_base ledger_valid base_valid cpu_charges_time next_within
    untracked_valid valid_cpu_admission admission_valid clocks_valid bound_valid slots_valid
    slot_valid first_policy_valid marks_valid request_valid gap_valid cpu_admission_time
    cpu_admission_slots slot_at slot_start cpu_admission_limits_valid cpu_admission_base bytes_eq
    session_valid record_valid phase_valid live_valid active_valid last_self_valid last_sample_valid
    wait_valid cpu_charges_start_valid metadata_digest cpu_charges_input_cpu same_cpu_start
    valid_cpu_limited_start
published_ok = refl

published_whole : published.publication_failed ≡ false
unfolding publish write_cpu_admission commit_cpu_charges begin_limited_state cpu_limited_begin_state
    charge_prefix cpu_charges_debt cpu_feedback_add cpu_feedback_time cpu_charges_problem
    cpu_charges_prefix_wait next_allowed_after cpu_charges_close roll_cpu_admission roll_period
    current_period bind_cpu_admission read_both read_cpu_admission read_cpu_charges
    valid_cpu_charges cpu_charges_base ledger_valid base_valid cpu_charges_time next_within
    untracked_valid valid_cpu_admission admission_valid clocks_valid bound_valid slots_valid
    slot_valid first_policy_valid marks_valid request_valid gap_valid cpu_admission_time
    cpu_admission_slots slot_at slot_start cpu_admission_limits_valid cpu_admission_base bytes_eq
    session_valid record_valid phase_valid live_valid active_valid last_self_valid last_sample_valid
    wait_valid cpu_charges_start_valid metadata_digest cpu_charges_input_cpu same_cpu_start
    valid_cpu_limited_start
published_whole = refl

begun-activated : begun.1.activated_at ≡ some 1500
unfolding begin_limited_state cpu_limited_begin_state charge_prefix cpu_charges_debt
    cpu_feedback_add cpu_feedback_time cpu_charges_problem cpu_charges_prefix_wait
    next_allowed_after cpu_charges_close roll_cpu_admission roll_period current_period
    bind_cpu_admission read_both read_cpu_admission read_cpu_charges valid_cpu_charges
    cpu_charges_base ledger_valid base_valid cpu_charges_time next_within untracked_valid
    valid_cpu_admission admission_valid clocks_valid bound_valid slots_valid slot_valid
    first_policy_valid marks_valid request_valid gap_valid cpu_admission_time cpu_admission_slots
    slot_at slot_start cpu_admission_limits_valid cpu_admission_base bytes_eq session_valid
    record_valid phase_valid live_valid active_valid last_self_valid last_sample_valid wait_valid
    cpu_charges_start_valid metadata_digest cpu_charges_input_cpu same_cpu_start
    valid_cpu_limited_start
begun-activated = refl

begun-read_both : read_both size row_size digest id published.db_after ≡ ok (begun.0, begun.1)
begun-read_both =
    publish-read_both size row_size digest id committed store db16 (idle, admission) begun published
      1500 refl refl begun-activated published_ok published_whole

begun-active : is_present begun.1.begin_request ≡ true
unfolding begin_limited_state cpu_limited_begin_state charge_prefix cpu_charges_debt
    cpu_feedback_add cpu_feedback_time cpu_charges_problem cpu_charges_prefix_wait
    next_allowed_after cpu_charges_close roll_cpu_admission roll_period current_period
    bind_cpu_admission read_both read_cpu_admission read_cpu_charges valid_cpu_charges
    cpu_charges_base ledger_valid base_valid cpu_charges_time next_within untracked_valid
    valid_cpu_admission admission_valid clocks_valid bound_valid slots_valid slot_valid
    first_policy_valid marks_valid request_valid gap_valid cpu_admission_time cpu_admission_slots
    slot_at slot_start cpu_admission_limits_valid cpu_admission_base bytes_eq session_valid
    record_valid phase_valid live_valid active_valid last_self_valid last_sample_valid wait_valid
    cpu_charges_start_valid metadata_digest cpu_charges_input_cpu same_cpu_start
    valid_cpu_limited_start
begun-active = refl

recover_early :
    recover_cpu_session_limited size row_size digest id committed store published.db_after 1800
    ≡ err (cpu clock_rollback)
unfolding recover_cpu_session_limited recover_limited_active admission_writer publish
    write_cpu_admission commit_cpu_charges begin_limited_state cpu_limited_begin_state charge_prefix
    cpu_charges_debt cpu_feedback_add cpu_feedback_time cpu_charges_problem cpu_charges_prefix_wait
    next_allowed_after cpu_charges_close roll_cpu_admission roll_period current_period
    bind_cpu_admission read_both read_cpu_admission read_cpu_charges valid_cpu_charges
    cpu_charges_base ledger_valid base_valid cpu_charges_time next_within untracked_valid
    valid_cpu_admission admission_valid clocks_valid bound_valid slots_valid slot_valid
    first_policy_valid marks_valid request_valid gap_valid cpu_admission_time cpu_admission_slots
    slot_at slot_start cpu_admission_limits_valid cpu_admission_base bytes_eq session_valid
    record_valid phase_valid live_valid active_valid last_self_valid last_sample_valid wait_valid
    cpu_charges_start_valid metadata_digest cpu_charges_input_cpu same_cpu_start
    valid_cpu_limited_start
recover_early = refl

early_time : cpu_admission_time 1800 ≡ true
unfolding cpu_charges_time cpu_admission_time cpu_admission_slots slot_at slot_start
early_time = refl

abbrev admission_of : CpuChargeState × CpuChargeAdmissionState → CpuChargeAdmissionState
admission_of both = both.1

begun_policy :
    (c : CpuChargeState) (a : CpuChargeAdmissionState)
    → (published.db_after.ledger.user_version == 16) ≡ true
    → read_both size row_size digest id published.db_after ≡ ok (c, a)
    → status_eq c.status active ≡ true
    → is_present a.begin_request ≡ true
begun_policy c a v e live =
    subst (λ both. is_present (admission_of both).begin_request ≡ true)
      (ok_inj {E = AdmissionError} (sym begun-read_both ∙ e)) begun-active

recover_cpu_session_limited_safe_example : is_internal (cpu clock_rollback) ≡ false
recover_cpu_session_limited_safe_example =
    recover_cpu_session_limited_safe size row_size digest id committed store published.db_after 1800
      (cpu clock_rollback) early_time begun_policy recover_early

abbrev marker : CpuLimitedSessionMarker
marker = record { store = 1; generation = 1; revision = 1; request = request }

abbrev skipping : CpuSessionSample
skipping = record {
  ordinal = 2;
  observed_at = 3000;
  self_cpu_ns = some (pos 7000000);
  elapsed_ns = some (pos 100000000);
  reason = no_reason;
}

sample_skips :
    sample_cpu_session_limited size row_size digest id committed store published.db_after marker
      skipping false
    ≡ err (cpu stale)
unfolding sample_cpu_session_limited sample_limited_new same_cpu_limited_start
    cpu_charges_sample_valid admission_writer publish write_cpu_admission commit_cpu_charges
    begin_limited_state cpu_limited_begin_state charge_prefix cpu_charges_debt cpu_feedback_add
    cpu_feedback_time cpu_charges_problem cpu_charges_prefix_wait next_allowed_after
    cpu_charges_close roll_cpu_admission roll_period current_period bind_cpu_admission read_both
    read_cpu_admission read_cpu_charges valid_cpu_charges cpu_charges_base ledger_valid base_valid
    cpu_charges_time next_within untracked_valid valid_cpu_admission admission_valid clocks_valid
    bound_valid slots_valid slot_valid first_policy_valid marks_valid request_valid gap_valid
    cpu_admission_time cpu_admission_slots slot_at slot_start cpu_admission_limits_valid
    cpu_admission_base bytes_eq session_valid record_valid phase_valid live_valid active_valid
    last_self_valid last_sample_valid wait_valid cpu_charges_start_valid metadata_digest
    cpu_charges_input_cpu same_cpu_start valid_cpu_limited_start
sample_skips = refl

sample_cpu_session_limited_safe_example : is_internal (cpu stale) ≡ false
sample_cpu_session_limited_safe_example =
    sample_cpu_session_limited_safe size row_size digest id committed store published.db_after
      marker skipping false (cpu stale) sample_skips

abbrev gap_request : CpuTrackingGapRequest
gap_request = record {
  expected_policy_revision = 0;
  expected_generation = 0;
  nonce = zeros 64;
  observed_at = 1400;
}

gap_request-valid : valid_cpu_gap_request gap_request ≡ true
unfolding valid_cpu_gap_request cpu_charges_time metadata_digest cpu_admission_time
    cpu_admission_slots slot_at slot_start
gap_request-valid = refl

gap_early :
    open_cpu_tracking_gap size row_size digest id committed store db16 gap_request
    ≡ err (cpu clock_rollback)
unfolding open_cpu_tracking_gap valid_cpu_gap_request admission_writer read_both read_cpu_admission
    read_cpu_charges valid_cpu_charges cpu_charges_base ledger_valid base_valid cpu_charges_time
    next_within untracked_valid valid_cpu_admission admission_valid clocks_valid bound_valid
    slots_valid slot_valid first_policy_valid marks_valid request_valid gap_valid cpu_admission_time
    cpu_admission_slots slot_at slot_start cpu_admission_limits_valid cpu_admission_base bytes_eq
    session_valid record_valid phase_valid live_valid active_valid last_self_valid last_sample_valid
    wait_valid cpu_charges_start_valid metadata_digest cpu_charges_input_cpu same_cpu_start
    valid_cpu_limited_start cpu_charges_prefix_wait
gap_early = refl

open_cpu_tracking_gap_safe_example : is_internal (cpu clock_rollback) ≡ false
open_cpu_tracking_gap_safe_example =
    open_cpu_tracking_gap_safe size row_size digest id committed store db16 gap_request
      (cpu clock_rollback) gap_request-valid gap_early

-- The same publication with a commit that reports an error.
abbrev unclear : Published
unclear = ok_or nothing (publish size row_size digest id lost store db16 (idle, admission) begun)

unclear_ok : publish size row_size digest id lost store db16 (idle, admission) begun ≡ ok unclear
unfolding publish write_cpu_admission commit_cpu_charges begin_limited_state cpu_limited_begin_state
    charge_prefix cpu_charges_debt cpu_feedback_add cpu_feedback_time cpu_charges_problem
    cpu_charges_prefix_wait next_allowed_after cpu_charges_close roll_cpu_admission roll_period
    current_period bind_cpu_admission read_both read_cpu_admission read_cpu_charges
    valid_cpu_charges cpu_charges_base ledger_valid base_valid cpu_charges_time next_within
    untracked_valid valid_cpu_admission admission_valid clocks_valid bound_valid slots_valid
    slot_valid first_policy_valid marks_valid request_valid gap_valid cpu_admission_time
    cpu_admission_slots slot_at slot_start cpu_admission_limits_valid cpu_admission_base bytes_eq
    session_valid record_valid phase_valid live_valid active_valid last_self_valid last_sample_valid
    wait_valid cpu_charges_start_valid metadata_digest cpu_charges_input_cpu same_cpu_start
    valid_cpu_limited_start
unclear_ok = refl

unclear_failed : unclear.publication_failed ≡ true
unfolding publish write_cpu_admission commit_cpu_charges begin_limited_state cpu_limited_begin_state
    charge_prefix cpu_charges_debt cpu_feedback_add cpu_feedback_time cpu_charges_problem
    cpu_charges_prefix_wait next_allowed_after cpu_charges_close roll_cpu_admission roll_period
    current_period bind_cpu_admission read_both read_cpu_admission read_cpu_charges
    valid_cpu_charges cpu_charges_base ledger_valid base_valid cpu_charges_time next_within
    untracked_valid valid_cpu_admission admission_valid clocks_valid bound_valid slots_valid
    slot_valid first_policy_valid marks_valid request_valid gap_valid cpu_admission_time
    cpu_admission_slots slot_at slot_start cpu_admission_limits_valid cpu_admission_base bytes_eq
    session_valid record_valid phase_valid live_valid active_valid last_self_valid last_sample_valid
    wait_valid cpu_charges_start_valid metadata_digest cpu_charges_input_cpu same_cpu_start
    valid_cpu_limited_start
unclear_failed = refl

publish_refuses_example :
    (begin_cpu_session_limited size row_size digest id committed unclear.store_after db16 request
      ≢ ok (none, published))
    × (sample_cpu_session_limited size row_size digest id committed unclear.store_after db16 marker
          skipping false
        ≢ ok published)
    × (recover_cpu_session_limited size row_size digest id committed unclear.store_after db16 1800
        ≢ ok published)
    × (open_cpu_tracking_gap size row_size digest id committed unclear.store_after db16 gap_request
        ≢ ok published)
    × (activate_cpu_charge_admission size row_size digest id committed unclear.store_after db16 1800
          limits
        ≢ ok published)
publish_refuses_example =
    publish_refuses size row_size digest id lost store db16 (idle, admission) begun unclear
      unclear_ok unclear_failed committed db16 request marker skipping false 1800 gap_request limits
      published (none, published)

-- An activation and a session, and a recovery that comes too early.
abbrev calls : List (Fate × Store × Call)
calls = (committed, store, activates 1500 limits) ∷ (committed, store, begins request) ∷ []

recover_early_again :
    recover_cpu_session_limited size row_size digest id committed store
      (after_calls size row_size digest id db15 calls)
      1800
    ≡ err (cpu clock_rollback)
unfolding with_outcome cpu_admission_outcome activated_admission activate_new
    activate_cpu_charge_admission begin_limited_new begin_cpu_session_limited after_call after_calls
    recover_cpu_session_limited recover_limited_active admission_writer publish write_cpu_admission
    commit_cpu_charges begin_limited_state cpu_limited_begin_state charge_prefix cpu_charges_debt
    cpu_feedback_add cpu_feedback_time cpu_charges_problem cpu_charges_prefix_wait
    next_allowed_after cpu_charges_close roll_cpu_admission roll_period current_period
    bind_cpu_admission read_both read_cpu_admission read_cpu_charges valid_cpu_charges
    cpu_charges_base ledger_valid base_valid cpu_charges_time next_within untracked_valid
    valid_cpu_admission admission_valid clocks_valid bound_valid slots_valid slot_valid
    first_policy_valid marks_valid request_valid gap_valid cpu_admission_time cpu_admission_slots
    slot_at slot_start cpu_admission_limits_valid cpu_admission_base bytes_eq session_valid
    record_valid phase_valid live_valid active_valid last_self_valid last_sample_valid wait_valid
    cpu_charges_start_valid metadata_digest cpu_charges_input_cpu same_cpu_start
    valid_cpu_limited_start
recover_early_again = refl

after_calls_recover_safe_example : is_internal (cpu clock_rollback) ≡ false
after_calls_recover_safe_example =
    after_calls_recover_safe size row_size digest id db15 calls committed store 1800
      (cpu clock_rollback) refl early_time recover_early_again
