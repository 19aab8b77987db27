-- ===== src/Charges/Live.antt =====
-- The transitions that record a known charge (internal/state/cpu_charges.go) against validCPUCharges.
use saga_rydd.Prelude.{
  ℕ, ◌+◌, ◌≤◌, ◌≡◌, refl, Bool, true, false, Option, none, some, arith, sym, ◌∙◌, Option-cases, inl,
  inr,
}
use saga_rydd.Prelude.Int.{pos}
use saga_rydd.Feedback.{backoff_limit, cpu_feedback_wait, cpu_charges_prefix_wait}
use saga_rydd.Charges.Types.{
  cpu_charges_problem, no_reason, reason_eq, ChargeStatus, active, CpuSessionSample,
  CpuSessionRecord, CpuChargeState, cpu_charges_time, same_ns,
}
use saga_rydd.Charges.Valid.{
  valid_cpu_charges, record_valid, last_self_valid, last_sample_valid, phase_valid, active_valid,
  live_valid, nonneg_part, signed, wait_valid, problem_of, elapsed_of, is_some,
}
use saga_rydd.Charges.Steps.{owing}
use saga_rydd.Charges.Open.{
  Running, Base, Open, valid-session, next_within-after, next_allowed_after_covers,
}

abbrev pub owed_record : CpuSessionRecord → ℕ × Bool → CpuSessionRecord
owed_record r (wait, capped) = record r { last_backoff_ns = wait; last_backoff_capped = capped }

-- A sample with an observation and without a problem has its elapsed time.
pub fine-elapsed :
    (q : CpuSessionSample) (self : ℕ)
    → q.self_cpu_ns ≡ some (pos self)
    → reason_eq (problem_of q) no_reason ≡ true
    → is_some q.elapsed_ns ≡ true
unfolding cpu_charges_problem
fine-elapsed q self es p = elim (Option-cases q.elapsed_ns) [
  | inl missing ↦ ground (arith, es, missing)
  | inr (n, en) ↦ rw en refl
]

module _ (s : CpuChargeState) (r : CpuSessionRecord) (a h : ℕ) (owed : ℕ × Bool) (o : Open s r a h)
    (le : owed.0 ≤ backoff_limit) where
  pub owing-Base : cpu_charges_time (h + owed.0) ≡ true → Base (owing s r (h + owed.0) owed) a h
  owing-Base t = record {
    at_activation = o.base.at_activation;
    is_available = o.base.is_available;
    tails = o.base.tails;
    recovered_le = o.base.recovered_le;
    activation_time = o.base.activation_time;
    high_time = o.base.high_time;
    activation_le = o.base.activation_le;
    within =
        next_within-after s.next_allowed_at h (h + owed.0) owed.0 o.base.within t (omega arith);
  }

  pub owing-record_valid :
      r.status ≡ s.status
      → record_valid (owing s r (h + owed.0) owed) a h (owed_record r owed) ≡ true
  unfolding record_valid
  owing-record_valid e = ground arith

  pub owing-last_self : last_self_valid (owed_record r owed) r.last_self_cpu_ns ≡ true
  unfolding last_self_valid
  owing-last_self = keep r.last_self_cpu_ns o.last_self
    where
      keep :
          (l : Option ℕ)
          → last_self_valid r l ≡ true
          → last_self_valid (owed_record r owed) l ≡ true
      keep none v = v
      keep (some n) v = v

  pub owing-last_sample :
      last_sample_valid r h r.last_sample ≡ true
      → last_sample_valid (owed_record r owed) h r.last_sample ≡ true
  unfolding last_sample_valid
  owing-last_sample = keep r.last_sample
    where
      keep :
          (l : Option CpuSessionSample)
          → last_sample_valid r h l ≡ true
          → last_sample_valid (owed_record r owed) h l ≡ true
      keep none v = v
      keep (some n) v = v

  owing-wait : wait_valid (owing s r (h + owed.0) owed) (owed_record r owed) h h owed ≡ true
  unfolding wait_valid
  owing-wait = ground (arith, next_allowed_after_covers s.next_allowed_at (h + owed.0) owed.0)

  active-phase :
      Running s r
      → r.last_sample_final ≡ false
      → live_valid (owing s r (h + owed.0) owed) (owed_record r owed) h r.last_sample ≡ true
      → (q : ChargeStatus) → q ≡ active
      → phase_valid (owing s r (h + owed.0) owed) (owed_record r owed) h q ≡ true
  unfolding phase_valid active_valid
  active-phase u f live active e = ground (arith, o.one_open)
  active-phase u f live _ e = cc

  -- A running session that owes its wait is valid.
  pub owing-valid :
      Running s r
      → cpu_charges_time (h + owed.0) ≡ true
      → r.last_sample_final ≡ false
      → last_sample_valid r h r.last_sample ≡ true
      → live_valid (owing s r (h + owed.0) owed) (owed_record r owed) h r.last_sample ≡ true
      → valid_cpu_charges (owing s r (h + owed.0) owed) ≡ true
  owing-valid u t f sample live =
      valid-session _ a h (owed_record r owed) o.base.at_activation o.at_high refl
        (ground (arith, o.one_open)) (owing-Base t)
        (owing-record_valid (u.record_active ∙ sym u.ledger_active)) owing-last_self
        (owing-last_sample sample) (active-phase u f live r.status u.record_active)

  -- A fresh session's wait and a sampled session's wait are those that the formulas give.
  pub owing-live_start :
      r.last_sample ≡ none
      → r.start.observed_at ≡ h
      → r.last_charge_ns ≡ r.initial_prefix_charge_ns
      → owed ≡ cpu_charges_prefix_wait (pos r.initial_prefix_charge_ns)
      → live_valid (owing s r (h + owed.0) owed) (owed_record r owed) h none ≡ true
  unfolding live_valid
  owing-live_start e at same w = rw (← w, at) (ground (arith, owing-wait))

  pub owing-live_sample :
      (q : CpuSessionSample)
      → reason_eq (problem_of q) no_reason ≡ true
      → is_some q.elapsed_ns ≡ true
      → r.initial_prefix_charge_ns ≤ nonneg_part q.self_cpu_ns
      → same_ns (signed r.last_self_cpu_ns) q.self_cpu_ns ≡ true
      → q.observed_at ≡ h
      → owed ≡ cpu_feedback_wait (pos r.last_charge_ns) (elapsed_of q)
      → live_valid (owing s r (h + owed.0) owed) (owed_record r owed) h (some q) ≡ true
  unfolding live_valid
  owing-live_sample q p there le same at w = rw (← w, at) (ground (arith, owing-wait))
