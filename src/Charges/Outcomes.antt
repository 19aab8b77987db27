-- ===== src/Charges/Outcomes.antt =====
-- The closing transitions of internal/state/cpu_charges.go against validCPUCharges.
use saga_rydd.Prelude.{
  ℕ, ◌+◌, ◌≤◌, ◌≡◌, refl, Bool, true, false, ◌||◌, Option, none, some, ok, arith, sym, subst,
}
use saga_rydd.Feedback.{hour}
use saga_rydd.Charges.Types.{
  Reason, interrupted_session, ChargeStatus, unknown, recovered_unknown, status_eq, CpuSessionStart,
  CpuSessionSample, CpuSessionRecord, CpuChargeState, cpu_charges_time, cpu_charges_start_valid,
}
use saga_rydd.Charges.Valid.{
  valid_cpu_charges, record_valid, last_self_valid, last_sample_valid, phase_valid, closed_valid,
  closed_status_valid, unknown_reason_valid, unknown_wait_valid,
}
use saga_rydd.Charges.Steps.{
  owing, closed_record, closed_state, cpu_charges_close, cpu_charges_debt,
}
use saga_rydd.Charges.Open.{Base, Open, valid-session, next_within-after, next_allowed_after_covers}

-- What a successful debt records.
pub debt-eq :
    (s t : CpuChargeState) (r : CpuSessionRecord) (at : ℕ) (owed : ℕ × Bool)
    → cpu_charges_debt s r at owed ≡ ok t
    → (cpu_charges_time (at + owed.0) ≡ true) × (t ≡ owing s r (at + owed.0) owed)
unfolding cpu_charges_debt cpu_charges_time
debt-eq s t r at (wait, capped) e = ground arith

pub cpu_charges_time_between :
    (lo n hi : ℕ)
    → lo ≤ n
    → n ≤ hi
    → cpu_charges_time lo ≡ true
    → cpu_charges_time hi ≡ true
    → cpu_charges_time n ≡ true
unfolding cpu_charges_time
cpu_charges_time_between lo n hi p q u v = ground arith

pub start-time :
    (q : CpuSessionStart) → cpu_charges_start_valid q ≡ true → cpu_charges_time q.observed_at ≡ true
unfolding cpu_charges_start_valid
start-time q v = ground arith

-- A session that is closed with an unknown tail.
abbrev pub unknown_record : CpuSessionRecord → ℕ → ChargeStatus → Reason → CpuSessionRecord
unknown_record r at status reason = record (closed_record r at status reason) { last_charge_ns = 0 }

pub close-eq :
    (s t : CpuChargeState) (r : CpuSessionRecord) (at : ℕ) (status : ChargeStatus) (why : Reason)
    (recovered : Bool)
    → (status_eq status unknown || status_eq status recovered_unknown) ≡ true
    → cpu_charges_close s r at status why recovered ≡ ok t
    → cpu_charges_debt
        (closed_state s r at status why recovered)
        (unknown_record r at status why)
        at
        (hour, false)
      ≡ ok t
unfolding cpu_charges_close
close-eq s t r at status why recovered u e = ground arith

pub status_eq_refl : (t : ChargeStatus) → status_eq t t ≡ true
status_eq_refl t = ground arith

-- The state after a session was closed with an unknown tail, owing an hour from `at`.
abbrev pub unknown_state :
    CpuChargeState → CpuSessionRecord → ℕ → ChargeStatus → Reason → Bool → CpuChargeState
unknown_state s r at status why recovered =
    owing (closed_state s r at status why recovered) (unknown_record r at status why) (at + hour)
      (hour, false)

abbrev pub unknown_final : CpuSessionRecord → ℕ → ChargeStatus → Reason → CpuSessionRecord
unknown_final r at status why = record (unknown_record r at status why) {
  last_backoff_ns = hour;
  last_backoff_capped = false;
}

module _ (s : CpuChargeState) (r : CpuSessionRecord) (a h at : ℕ) (status : ChargeStatus)
    (why : Reason) (recovered : Bool) (o : Open s r a h) (le : at ≤ h) where
  unknown-record_valid :
      record_valid (unknown_state s r at status why recovered) a h (unknown_final r at status why)
      ≡ true
  unfolding record_valid
  unknown-record_valid = ground (arith, status_eq_refl status)

  unknown-Base :
      cpu_charges_time (at + hour) ≡ true → Base (unknown_state s r at status why recovered) a h
  unknown-Base t = record {
    at_activation = o.base.at_activation;
    is_available = o.base.is_available;
    tails = ground arith;
    recovered_le = ground arith;
    activation_time = o.base.activation_time;
    high_time = o.base.high_time;
    activation_le = o.base.activation_le;
    within = next_within-after s.next_allowed_at h (at + hour) hour o.base.within t (omega arith);
  }

  unknown-last_self : last_self_valid (unknown_final r at status why) r.last_self_cpu_ns ≡ true
  unfolding last_self_valid
  unknown-last_self = keep r.last_self_cpu_ns o.last_self
    where
      keep :
          (l : Option ℕ)
          → last_self_valid r l ≡ true
          → last_self_valid (unknown_final r at status why) l ≡ true
      keep none v = v
      keep (some n) v = v

  unknown-last_sample :
      last_sample_valid r h r.last_sample ≡ true
      → last_sample_valid (unknown_final r at status why) h r.last_sample ≡ true
  unfolding last_sample_valid
  unknown-last_sample = keep r.last_sample
    where
      keep :
          (l : Option CpuSessionSample)
          → last_sample_valid r h l ≡ true
          → last_sample_valid (unknown_final r at status why) h l ≡ true
      keep none v = v
      keep (some n) v = v

  unknown-closed_valid :
      r.start.observed_at ≤ at
      → closed_status_valid
          (unknown_state s r at status why recovered)
          (unknown_final r at status why)
          at
          status
        ≡ true
      → closed_valid
          (unknown_state s r at status why recovered)
          (unknown_final r at status why)
          h
          (some at)
        ≡ true
  unfolding closed_valid
  unknown-closed_valid from v =
      ground (
        arith,
        cpu_charges_time_between r.start.observed_at at h from le start_time o.base.high_time,
      )
    where
      start_time : cpu_charges_time r.start.observed_at ≡ true
      start_time = start-time r.start o.start_is_valid

  unknown-wait :
      unknown_wait_valid
        (unknown_state s r at status why recovered)
        (unknown_final r at status why)
        at
      ≡ true
  unfolding unknown_wait_valid
  unknown-wait = ground (arith, next_allowed_after_covers s.next_allowed_at (at + hour) hour)

-- Closing an open session with an unknown tail leaves a valid ledger, if the reason fits.
pub close_unknown-valid :
    (s t : CpuChargeState) (r : CpuSessionRecord) (a h at : ℕ) (why : Reason)
    → Open s r a h
    → r.start.observed_at ≤ at
    → at ≤ h
    → last_sample_valid r h r.last_sample ≡ true
    → unknown_reason_valid (unknown_final r at unknown why) at r.last_sample ≡ true
    → cpu_charges_close s r at unknown why false ≡ ok t
    → valid_cpu_charges t ≡ true
unfolding phase_valid closed_status_valid
close_unknown-valid s t r a h at why o from le sample reason e =
    let (time, shape) =
      debt-eq _ t _ at (hour, false) (close-eq s t r at unknown why false refl e) in
    subst (λ x. valid_cpu_charges x ≡ true) (sym shape)
      (valid-session _ a h (unknown_final r at unknown why) o.base.at_activation o.at_high refl
        (ground (arith, o.one_open)) (unknown-Base s r a h at unknown why false o le time)
        (unknown-record_valid s r a h at unknown why false o le)
        (unknown-last_self s r a h at unknown why false o le)
        (unknown-last_sample s r a h at unknown why false o le sample)
        (unknown-closed_valid s r a h at unknown why false o le from
          (ground (arith, unknown-wait s r a h at unknown why false o le))))

pub close_recovered-valid :
    (s t : CpuChargeState) (r : CpuSessionRecord) (a h at : ℕ)
    → Open s r a h
    → r.start.observed_at ≤ at
    → at ≤ h
    → last_sample_valid r h r.last_sample ≡ true
    → cpu_charges_close s r at recovered_unknown interrupted_session true ≡ ok t
    → valid_cpu_charges t ≡ true
unfolding phase_valid closed_status_valid
close_recovered-valid s t r a h at o from le sample e =
    let why = interrupted_session in
    let (time, shape) =
      debt-eq _ t _ at (hour, false) (close-eq s t r at recovered_unknown why true refl e) in
    subst (λ x. valid_cpu_charges x ≡ true) (sym shape)
      (valid-session _ a h (unknown_final r at recovered_unknown why) o.base.at_activation o.at_high
        refl (ground (arith, o.one_open))
        (unknown-Base s r a h at recovered_unknown why true o le time)
        (unknown-record_valid s r a h at recovered_unknown why true o le)
        (unknown-last_self s r a h at recovered_unknown why true o le)
        (unknown-last_sample s r a h at recovered_unknown why true o le sample)
        (unknown-closed_valid s r a h at recovered_unknown why true o le from
          (ground (arith, unknown-wait s r a h at recovered_unknown why true o le))))
