-- ===== src/Admission/Steps.antt =====
-- The transitions of the period admission as functions on its state: rollCPUAdmission and
-- bindCPUAdmission (internal/state/cpu_charge_admission.go), and what the four operations of
-- internal/state/cpu_charge_admission_transitions.go do between their checks and their publication.
-- A state is a value, so cloneCPUAdmission is the identity.
use saga_rydd.Prelude.{
  ℕ, ◌+◌, ◌-◌, Bool, true, false, ◌||◌, none, some, List, ltb, ◌==◌, if◌then◌else◌, Result, ok, err,
  ◌>>=◌, ◌>>◌, refuse_if, or_else,
}
use saga_rydd.Prelude.Int.{max_int64}
use saga_rydd.Charges.Types.{
  active, unknown, status_eq, ChargesError, overflow, clock_rollback, nil_dereference,
  CpuSessionSample, CpuSessionRecord, CpuChargeState,
}
use saga_rydd.Charges.Steps.{cpu_limited_begin_state, cpu_limited_sample_state, recover_state}
use saga_rydd.Admission.Types.{
  AdmissionError, cpu, of_charges, CpuLimitedSessionStart, CpuTrackingGapRequest, CpuChargePeriod,
  CpuChargeAdmissionState, CpuChargeLimits, cpu_admission_base, cpu_admission_slots, ordinal_of,
}

abbrev pub moved_period : CpuChargePeriod → CpuChargePeriod → CpuChargePeriod
moved_period fresh p = record fresh {
  retired_assigned_cpu_ns = p.retired_assigned_cpu_ns + p.assigned_cpu_ns;
}

-- The slot that an instant lies in, given the one of the last instant: the loop's first branch.
unfoldable pub current_period :
    CpuChargePeriod → CpuChargePeriod → Result AdmissionError CpuChargePeriod
current_period fresh p =
    if p.start_ns == fresh.start_ns
    then ok p
    else if ltb (max_int64 - p.retired_assigned_cpu_ns) p.assigned_cpu_ns
    then err (cpu overflow)
    else ok (moved_period fresh p)

abbrev pub charged_period : CpuChargePeriod → ℕ → Bool → CpuChargePeriod
charged_period p charge closed = record p {
  assigned_cpu_ns = p.assigned_cpu_ns + charge;
  blocking_unknown = closed || p.blocking_unknown;
}

-- The body of the loop.
unfoldable pub roll_period :
    ℕ → Bool → CpuChargePeriod → CpuChargePeriod → Result AdmissionError CpuChargePeriod
unfolding current_period
roll_period charge closed fresh p = do
  p' ← current_period fresh p
  refuse_if (ltb (max_int64 - p'.assigned_cpu_ns) charge) (cpu overflow)
  ok (charged_period p' charge closed)

abbrev pub rolled :
    CpuChargeAdmissionState → ℕ → CpuChargePeriod → CpuChargePeriod → CpuChargeAdmissionState
rolled a at h d = record a { clock_high_water = some at; hour_slot = h; day_slot = d }

unfoldable pub roll_cpu_admission :
    CpuChargeAdmissionState → ℕ → ℕ → Bool → Result AdmissionError CpuChargeAdmissionState
unfolding roll_period
roll_cpu_admission a at charge closed = do
  high ← or_else a.clock_high_water (cpu nil_dereference)
  refuse_if (ltb at high) (cpu clock_rollback)
  slots ← cpu_admission_slots at
  h ← roll_period charge closed slots.0 a.hour_slot
  d ← roll_period charge closed slots.1 a.day_slot
  ok (rolled a at h d)

abbrev pub limited : CpuChargeAdmissionState → CpuLimitedSessionStart → CpuChargeAdmissionState
limited a q = record a {
  policy_revision = a.policy_revision + 1;
  limits = q.limits;
  begin_request = some q;
  begin_applied_revision = a.policy_revision + 1;
}

abbrev pub partial : CpuChargePeriod → CpuChargePeriod
partial p = record p { partial_tracking = true }

-- A new session ends an open tracking gap.
abbrev pub close_gap : CpuChargeAdmissionState → ℕ → CpuChargeAdmissionState
close_gap a at =
    if a.tracking_gap_open
    then record a {
      tracking_gap_open = false;
      gap_closed_at = some at;
      hour_slot = partial a.hour_slot;
      day_slot = partial a.day_slot;
    }
    else a

abbrev pub gap_opened :
    CpuChargeAdmissionState → CpuTrackingGapRequest → List ℕ → CpuChargeAdmissionState
gap_opened a q id = record a {
  policy_revision = a.policy_revision + 1;
  tracking_gap_open = true;
  gap_opened_at = some q.observed_at;
  gap_closed_at = none;
  hour_slot = partial a.hour_slot;
  day_slot = partial a.day_slot;
  latest_gap =
      some (record { request = q; request_id = id; applied_revision = a.policy_revision + 1 });
}

-- The charges once the tracking gap has closed an active session.
abbrev pub interrupted : CpuChargeState → ℕ → Result ChargesError CpuChargeState
interrupted c at =
    if status_eq c.status active
    then (or_else c.session nil_dereference >>= λ r. recover_state c r at)
    else ok c

module _ (state_digest : CpuChargeState → List ℕ) where
  unfoldable pub bind_cpu_admission :
      CpuChargeAdmissionState → CpuChargeState → CpuChargeAdmissionState
  bind_cpu_admission a c = record a {
    cpu_generation = c.generation;
    cpu_ordinal = ordinal_of c.session;
    cpu_state_digest = state_digest c;
  }

  unfoldable pub activated_admission :
      CpuChargeState
      → ℕ
      → CpuChargeLimits
      → CpuChargePeriod
      → CpuChargePeriod
      → CpuChargeAdmissionState
  unfolding bind_cpu_admission
  activated_admission c at limits h d =
      bind_cpu_admission
        (record (cpu_admission_base true) {
          activated_at = some at;
          clock_high_water = some at;
          activation_baseline_cpu_ns = c.charged_cpu_ns;
          hour_slot = partial h;
          day_slot = partial d;
          limits = limits;
        })
        c

  unfoldable pub begin_limited_state :
      CpuChargeState
      → CpuChargeAdmissionState
      → CpuLimitedSessionStart
      → Result AdmissionError (CpuChargeState × CpuChargeAdmissionState)
  unfolding bind_cpu_admission
  begin_limited_state c a q = do
    nc ← of_charges (cpu_limited_begin_state c q.start)
    na ←
        roll_cpu_admission (limited a q) q.start.observed_at (nc.charged_cpu_ns - c.charged_cpu_ns)
          (status_eq nc.status unknown)
    ok (nc, bind_cpu_admission (close_gap na q.start.observed_at) nc)

  unfoldable pub sample_limited_state :
      CpuChargeState
      → CpuChargeAdmissionState
      → CpuSessionRecord
      → CpuSessionSample
      → Bool
      → Result AdmissionError (CpuChargeState × CpuChargeAdmissionState)
  unfolding bind_cpu_admission
  sample_limited_state c a r q finish = do
    high ← or_else a.clock_high_water (cpu nil_dereference)
    nc ← of_charges (cpu_limited_sample_state c r q finish high)
    at ← or_else nc.clock_high_water (cpu nil_dereference)
    na ←
        roll_cpu_admission a at (nc.charged_cpu_ns - c.charged_cpu_ns) (status_eq nc.status unknown)
    ok (nc, bind_cpu_admission na nc)

  unfoldable pub recover_limited_state :
      CpuChargeState
      → CpuChargeAdmissionState
      → ℕ
      → Result AdmissionError (CpuChargeState × CpuChargeAdmissionState)
  unfolding bind_cpu_admission
  recover_limited_state c a at = do
    r ← or_else c.session (cpu nil_dereference)
    nc ← of_charges (recover_state c r at)
    na ← roll_cpu_admission a at 0 true
    ok (nc, bind_cpu_admission na nc)

  unfoldable pub gap_state :
      CpuChargeState
      → CpuChargeAdmissionState
      → CpuTrackingGapRequest
      → List ℕ
      → Result AdmissionError (CpuChargeState × CpuChargeAdmissionState)
  unfolding bind_cpu_admission
  gap_state c a q id = do
    nc ← of_charges (interrupted c q.observed_at)
    na ← roll_cpu_admission a q.observed_at 0 true
    ok (nc, bind_cpu_admission (gap_opened na q id) nc)
