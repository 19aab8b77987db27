-- ===== src/Charges/Finish.antt =====
-- The graceful finish of a session (internal/state/cpu_charges.go) against validCPUCharges.
use saga_rydd.Prelude.{
  ℕ, ◌+◌, ◌≤◌, ◌≡◌, refl, Bool, true, false, Option, none, some, ok, arith, sym, subst,
}
use saga_rydd.Feedback.{backoff_limit}
use saga_rydd.Charges.Types.{
  no_reason, graceful_tail_unobserved, reason_eq, finished, CpuSessionSample, CpuSessionRecord,
  CpuChargeState, cpu_charges_time, same_ns,
}
use saga_rydd.Charges.Valid.{
  valid_cpu_charges, record_valid, last_self_valid, last_sample_valid, phase_valid, closed_valid,
  closed_status_valid, live_valid, signed, wait_valid, problem_of, finished_valid,
}
use saga_rydd.Charges.Steps.{owing, closed_record, closed_state, cpu_charges_close}
use saga_rydd.Charges.Open.{Base, Open, valid-session}
use saga_rydd.Charges.Live.{owed_record, owing-Base}

abbrev finished_record : CpuSessionRecord → ℕ → ℕ × Bool → CpuSessionRecord
finished_record r at owed = closed_record (owed_record r owed) at finished graceful_tail_unobserved

abbrev pub finished_state : CpuChargeState → CpuSessionRecord → ℕ → ℕ × Bool → CpuChargeState
finished_state s r at owed =
    closed_state (owing s r (at + owed.0) owed) (owed_record r owed) at finished
      graceful_tail_unobserved false

finish-eq :
    (s t : CpuChargeState) (r : CpuSessionRecord) (at : ℕ)
    → cpu_charges_close s r at finished graceful_tail_unobserved false ≡ ok t
    → t ≡ closed_state s r at finished graceful_tail_unobserved false
unfolding cpu_charges_close
finish-eq s t r at e = ground arith

module _ (s : CpuChargeState) (r : CpuSessionRecord) (a h : ℕ) (owed : ℕ × Bool)
    (q : CpuSessionSample) (o : Open s r a h) (le : owed.0 ≤ backoff_limit)
    (sampled : r.last_sample ≡ some q) (at_high : q.observed_at ≡ h) where
  finished-Base : cpu_charges_time (h + owed.0) ≡ true → Base (finished_state s r h owed) a h
  finished-Base t =
      let b = owing-Base s r a h owed o le t in
      record {
        at_activation = b.at_activation;
        is_available = b.is_available;
        tails = ground arith;
        recovered_le = ground arith;
        activation_time = b.activation_time;
        high_time = b.high_time;
        activation_le = b.activation_le;
        within = b.within;
      }

  finished-record_valid :
      record_valid (finished_state s r h owed) a h (finished_record r h owed) ≡ true
  unfolding record_valid
  finished-record_valid = ground arith

  finished-last_self : last_self_valid (finished_record r h owed) r.last_self_cpu_ns ≡ true
  unfolding last_self_valid
  finished-last_self = keep r.last_self_cpu_ns o.last_self
    where
      keep :
          (l : Option ℕ)
          → last_self_valid r l ≡ true
          → last_self_valid (finished_record r h owed) l ≡ true
      keep none v = v
      keep (some n) v = v

  finished-last_sample :
      last_sample_valid r h (some q) ≡ true
      → last_sample_valid (finished_record r h owed) h (some q) ≡ true
  unfolding last_sample_valid
  finished-last_sample v = v

  finished-live :
      live_valid (owing s r (h + owed.0) owed) (owed_record r owed) h (some q) ≡ true
      → live_valid (finished_state s r h owed) (finished_record r h owed) h (some q) ≡ true
  unfolding live_valid wait_valid
  finished-live v = v

  finished-closed :
      r.last_sample_final ≡ true
      → reason_eq (problem_of q) no_reason ≡ true
      → same_ns (signed r.last_self_cpu_ns) q.self_cpu_ns ≡ true
      → (l : ℕ) → r.last_self_cpu_ns ≡ some l
      → closed_valid (finished_state s r h owed) (finished_record r h owed) h (some h) ≡ true
  unfolding closed_valid closed_status_valid finished_valid
  finished-closed f p same l known =
      rw sampled (ground (arith, o.one_open, o.start_le, o.base.high_time))

  -- A session that is closed by its last sample is valid.
  pub finish-valid :
      (t : CpuChargeState) (l : ℕ)
      → cpu_charges_time (h + owed.0) ≡ true
      → r.last_sample_final ≡ true
      → reason_eq (problem_of q) no_reason ≡ true
      → r.last_self_cpu_ns ≡ some l
      → same_ns (signed r.last_self_cpu_ns) q.self_cpu_ns ≡ true
      → last_sample_valid r h (some q) ≡ true
      → live_valid (owing s r (h + owed.0) owed) (owed_record r owed) h (some q) ≡ true
      → cpu_charges_close
          (owing s r (h + owed.0) owed)
          (owed_record r owed)
          h
          finished
          graceful_tail_unobserved
          false
        ≡ ok t
      → valid_cpu_charges t ≡ true
  unfolding phase_valid last_sample_valid
  finish-valid t l time f p known same sample live e =
      subst (λ x. valid_cpu_charges x ≡ true) (sym (finish-eq _ t _ h e))
        (valid-session _ a h (finished_record r h owed) o.base.at_activation o.at_high refl
          (ground (arith, o.one_open)) (finished-Base time) finished-record_valid finished-last_self
          (rw sampled (finished-last_sample sample))
          (rw sampled (ground (arith, finished-live live, finished-closed f p same l known))))
