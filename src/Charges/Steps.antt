-- ===== src/Charges/Steps.antt =====
-- The transitions of the charge ledger as functions on its state: cpuChargesDebt, cpuChargesClose and
-- the bodies of BeginCPUSession, sampleCPUSession and RecoverCPUSession between reading the ledger and
-- committing it (internal/state/cpu_charges.go), with cpuLimitedBeginState and cpuLimitedSampleState
-- (internal/state/cpu_charge_admission_transitions.go), which share them. A state is a value, so
-- cloneCPUCharges is the identity. `nil_dereference` stands for the panic at a nil pointer.
use saga_rydd.Prelude.{
  ℕ, ◌+◌, ◌-◌, Bool, true, false, ◌&&◌, ◌||◌, Option, none, some, ltb, ◌==◌, if◌then◌else◌, Result,
  ok, err, ◌>>=◌, ◌>>◌, refuse_if, or_else,
}
use saga_rydd.Prelude.Int.{ℤ, pos, max_int64}
use saga_rydd.Clock.{cpu_feedback_add}
use saga_rydd.Feedback.{hour, cpu_feedback_wait, cpu_charges_prefix_wait}
use saga_rydd.Charges.Types.{
  Reason, no_reason, cpu_clock_rollback, cpu_observation_regressed, interrupted_session,
  graceful_tail_unobserved, reason_eq, ChargeStatus, active, finished, unknown, recovered_unknown,
  status_eq, CpuSessionStart, CpuSessionSample, CpuSessionRecord, CpuChargeState,
  cpu_charges_problem, ChargesError, overflow, nil_dereference,
}

-- s.NextAllowedAt == nil || next.After(*s.NextAllowedAt)
abbrev pub extends : ℕ → Option ℕ → Bool
extends next none = true
extends next (some current) = ltb current next

unfoldable pub next_allowed_after : Option ℕ → ℕ → ℕ → Option ℕ
next_allowed_after current next wait =
    if ltb 0 wait && extends next current then some next else current

-- The session `r` owes the wait, which ends at `next`.
abbrev pub owing : CpuChargeState → CpuSessionRecord → ℕ → ℕ × Bool → CpuChargeState
owing s r next (wait, capped) = record s {
  next_allowed_at = next_allowed_after s.next_allowed_at next wait;
  session = some (record r { last_backoff_ns = wait; last_backoff_capped = capped });
}

unfoldable pub cpu_charges_debt :
    CpuChargeState → CpuSessionRecord → ℕ → ℕ × Bool → Result ChargesError CpuChargeState
unfolding cpu_feedback_add
cpu_charges_debt s r at owed = elim (cpu_feedback_add at owed.0) [
  | none ↦ err overflow
  | some next ↦ ok (owing s r next owed)
]

-- CPUChargesUnknownDelay
abbrev pub unknown_delay : ℕ
unknown_delay = hour

abbrev pub closed_record : CpuSessionRecord → ℕ → ChargeStatus → Reason → CpuSessionRecord
closed_record r at status reason = record r {
  status = status;
  closed_at = some at;
  closure_reason = reason;
}

abbrev pub closed_state :
    CpuChargeState → CpuSessionRecord → ℕ → ChargeStatus → Reason → Bool → CpuChargeState
closed_state s r at status reason recovered = record s {
  status = status;
  closed_sessions = s.closed_sessions + 1;
  unknown_tail_sessions = s.unknown_tail_sessions + 1;
  open_tail_unobserved = false;
  recovered_sessions = (if recovered then s.recovered_sessions + 1 else s.recovered_sessions);
  session = some (closed_record r at status reason);
}

unfoldable pub cpu_charges_close :
    CpuChargeState
    → CpuSessionRecord
    → ℕ
    → ChargeStatus
    → Reason
    → Bool
    → Result ChargesError CpuChargeState
unfolding cpu_charges_debt
cpu_charges_close s r at status reason recovered = do
  refuse_if
      ((s.closed_sessions == max_int64)
        || (s.unknown_tail_sessions == max_int64)
        || recovered && (s.recovered_sessions == max_int64))
      overflow
  let s' = closed_state s r at status reason recovered
  let r' = record (closed_record r at status reason) { last_charge_ns = 0 }
  if status_eq status unknown || status_eq status recovered_unknown
      then cpu_charges_debt s' r' at (unknown_delay, false)
      else ok s'

-- *p for a pointer to an observation that is not negative.
abbrev pub deref : Option ℤ → Result ChargesError ℕ
deref (some (pos n)) = ok n
deref _ = err nil_dereference

abbrev pub new_record : ℕ → CpuSessionStart → CpuSessionRecord
new_record generation start = record {
  generation = generation;
  start = start;
  status = active;
  initial_prefix_charge_ns = 0;
  session_charged_cpu_ns = 0;
  last_self_cpu_ns = none;
  last_ordinal = 0;
  last_sample = none;
  last_sample_final = false;
  closed_at = none;
  closure_reason = no_reason;
  last_charge_ns = 0;
  last_backoff_ns = 0;
  last_backoff_capped = false;
}

abbrev pub charged_state : CpuChargeState → ℕ → CpuChargeState
charged_state s charge = record s { charged_cpu_ns = s.charged_cpu_ns + charge }

abbrev pub prefixed_record : CpuSessionRecord → ℕ → CpuSessionRecord
prefixed_record r charge = record r {
  initial_prefix_charge_ns = charge;
  session_charged_cpu_ns = charge;
  last_self_cpu_ns = some charge;
  last_charge_ns = charge;
}

-- The start of a session whose first observation is `charge`.
unfoldable pub charge_prefix :
    CpuChargeState → CpuSessionRecord → ℕ → ℕ → Result ChargesError CpuChargeState
unfolding cpu_charges_debt
charge_prefix s r at charge = do
  refuse_if (ltb max_int64 (charge + s.charged_cpu_ns)) overflow
  cpu_charges_debt (charged_state s charge) (prefixed_record r charge) at
      (cpu_charges_prefix_wait (pos charge))

abbrev pub opened_state : CpuChargeState → CpuSessionStart → CpuChargeState
opened_state prior start = record prior {
  status = active;
  generation = prior.generation + 1;
  open_tail_unobserved = true;
  clock_high_water = some start.observed_at;
  session = some (new_record (prior.generation + 1) start);
}

unfoldable pub cpu_limited_begin_state :
    CpuChargeState → CpuSessionStart → Result ChargesError CpuChargeState
unfolding cpu_charges_close charge_prefix
cpu_limited_begin_state prior start =
    let r = new_record (prior.generation + 1) start in
    let next = opened_state prior start in
    let problem = cpu_charges_problem start.self_cpu_ns start.reason none false in
    if reason_eq problem no_reason
    then (deref start.self_cpu_ns >>= λ charge. charge_prefix next r start.observed_at charge)
    else cpu_charges_close next r start.observed_at unknown problem false

-- An open session that is still active is closed by the start of the next one.
abbrev pub close_open :
    CpuChargeState → Option CpuSessionRecord → ℕ → Result ChargesError CpuChargeState
close_open s none at = ok s
close_open s (some r) at =
    if status_eq r.status active
    then cpu_charges_close s r at recovered_unknown interrupted_session true
    else ok s

-- BeginCPUSession after its checks of generation, clock and overflow.
unfoldable pub begin_state : CpuChargeState → CpuSessionStart → Result ChargesError CpuChargeState
unfolding cpu_limited_begin_state
begin_state prior start = do
  closed ← close_open prior prior.session start.observed_at
  cpu_limited_begin_state closed start

abbrev pub sampled_record : CpuSessionRecord → ℕ → ℕ → CpuSessionRecord
sampled_record r self last = record r {
  last_charge_ns = self - last;
  session_charged_cpu_ns = self;
  last_self_cpu_ns = some self;
}

-- The wait of a charge over the elapsed time; `finish` closes the session.
unfoldable pub charge_waiting :
    CpuChargeState → CpuSessionRecord → Bool → ℕ → ℕ → ℕ → ℤ → Result ChargesError CpuChargeState
unfolding cpu_charges_debt cpu_charges_close
charge_waiting s r finish at self last elapsed = do
  owed ←
      cpu_charges_debt (charged_state s (self - last)) (sampled_record r self last) at
        (cpu_feedback_wait (pos (self - last)) elapsed)
  if finish
      then (or_else owed.session nil_dereference >>= λ charged.
          cpu_charges_close owed charged at finished graceful_tail_unobserved false)
      else ok owed

-- The charge of a sample at `at`.
unfoldable pub charge_sample :
    CpuChargeState
    → CpuSessionRecord
    → CpuSessionSample
    → Bool
    → ℕ
    → ℕ
    → ℕ
    → Result ChargesError CpuChargeState
unfolding charge_waiting
charge_sample s r q finish at self last = do
  refuse_if (ltb max_int64 (self - last + s.charged_cpu_ns)) overflow
  elapsed ← or_else q.elapsed_ns nil_dereference
  charge_waiting s r finish at self last elapsed

-- *sample.SelfCPUNS < *r.LastSelfCPUNS
abbrev pub has_regressed : Option ℤ → Option ℕ → Bool
has_regressed (some (pos self)) (some last) = ltb self last
has_regressed _ _ = false

-- The problem of a sample against the ledger's high-water instant `high`.
unfoldable pub sample_problem : CpuSessionRecord → CpuSessionSample → ℕ → Reason
sample_problem r q high =
    let problem = cpu_charges_problem q.self_cpu_ns q.reason q.elapsed_ns true in
    if ltb q.observed_at high
    then cpu_clock_rollback
    else if reason_eq problem no_reason && has_regressed q.self_cpu_ns r.last_self_cpu_ns
    then cpu_observation_regressed
    else problem

abbrev pub sample_instant : CpuSessionSample → ℕ → ℕ
sample_instant q high = if ltb q.observed_at high then high else q.observed_at

abbrev pub noted_record : CpuSessionRecord → CpuSessionSample → Bool → CpuSessionRecord
noted_record r q finish = record r {
  last_ordinal = q.ordinal;
  last_sample = some q;
  last_sample_final = finish;
}

-- sampleCPUSession between its checks and its commit, for the current record.
unfoldable pub cpu_limited_sample_state :
    CpuChargeState
    → CpuSessionRecord
    → CpuSessionSample
    → Bool
    → ℕ
    → Result ChargesError CpuChargeState
unfolding sample_problem cpu_charges_close charge_sample
cpu_limited_sample_state prior previous q finish high =
    let r = noted_record previous q finish in
    let at = sample_instant q high in
    let next = record prior { clock_high_water = some at; session = some r } in
    let problem = sample_problem r q high in
    if reason_eq problem no_reason
    then (deref q.self_cpu_ns >>= λ self. or_else r.last_self_cpu_ns nil_dereference >>= λ last.
        charge_sample next r q finish at self last)
    else cpu_charges_close next r at unknown problem false

-- RecoverCPUSession for an active session, after its checks.
unfoldable pub recover_state :
    CpuChargeState → CpuSessionRecord → ℕ → Result ChargesError CpuChargeState
unfolding cpu_charges_close
recover_state prior r at =
    cpu_charges_close (record prior { clock_high_water = some at }) r at recovered_unknown
      interrupted_session true
