-- ===== src/Admission/Charged.antt =====
-- What the shared transitions of the charge ledger change: the part of their results that the period
-- admission is checked against.
use saga_rydd.Prelude.{
  ℕ, ◌+◌, ◌-◌, ◌≤◌, ◌≡◌, refl, ◌∙◌, subst, inl, inr, Bool, true, false, Option, none, some, arith,
  ok, ◌>>=◌, or_else, >>=-eq-ok, Result-cases, Bool-cases, Option-cases,
}
use saga_rydd.Prelude.Int.{pos, max_int64}
use saga_rydd.Feedback.{cpu_feedback_wait}
use saga_rydd.Charges.Valid.{elapsed_of}
use saga_rydd.Charges.Types.{
  finished, graceful_tail_unobserved, active, unknown, recovered_unknown, interrupted_session,
  status_eq, ChargeStatus, Reason, no_reason, reason_eq, CpuSessionStart, CpuSessionSample,
  CpuSessionRecord, CpuChargeState, cpu_charges_problem, nil_dereference,
}
use saga_rydd.Charges.Sample.{charge_sample-waiting}
use saga_rydd.Charges.Steps.{
  charge_waiting, charged_state, sampled_record, cpu_charges_close, cpu_charges_debt, charge_prefix,
  charge_sample, cpu_limited_begin_state, cpu_limited_sample_state, recover_state, opened_state,
  new_record, noted_record, sample_instant, sample_problem, deref,
}
use saga_rydd.Admission.Valid.{closed_unknown}

abbrev pub start_of : Option CpuSessionRecord → Option CpuSessionStart
start_of none = none
start_of (some r) = some r.start

-- The ledger has moved on to `at`, in the session that `start` began.
pub record Advanced (c nc : CpuChargeState) (at : ℕ) (start : CpuSessionStart) : Type 0 where
  pub same_activation : nc.activated_at ≡ c.activated_at
  pub at_high : nc.clock_high_water ≡ some at
  pub not_less : c.charged_cpu_ns ≤ nc.charged_cpu_ns
  pub fits : nc.charged_cpu_ns - c.charged_cpu_ns ≤ max_int64 - c.charged_cpu_ns
  pub same_start : start_of nc.session ≡ some start

-- Closing a session changes neither the activation, the clock nor the charge.
close-Advanced :
    (c s t : CpuChargeState) (r : CpuSessionRecord) (at : ℕ) (status : ChargeStatus) (why : Reason)
    (recovered : Bool)
    → s.activated_at ≡ c.activated_at
    → s.clock_high_water ≡ some at
    → s.charged_cpu_ns ≡ c.charged_cpu_ns
    → cpu_charges_close s r at status why recovered ≡ ok t
    → Advanced c t at r.start × (t.status ≡ status) × (t.generation ≡ s.generation)
unfolding cpu_charges_close cpu_charges_debt
close-Advanced c s t r at status why recovered ea eh ec e = (
  record {
    same_activation = ground (arith, ea, e);
    at_high = ground (arith, eh, e);
    not_less = ground (arith, ec, e);
    fits = ground (arith, ec, e);
    same_start = ground arith;
  },
  ground arith,
  ground arith,
)

pub recover-Advanced :
    (c nc : CpuChargeState) (r : CpuSessionRecord) (at : ℕ)
    → recover_state c r at ≡ ok nc
    → Advanced c nc at r.start × (nc.status ≡ recovered_unknown) × (nc.generation ≡ c.generation)
unfolding recover_state
recover-Advanced c nc r at e =
    close-Advanced c (record c { clock_high_water = some at }) nc r at recovered_unknown
      interrupted_session true refl refl refl e

-- What is recovered charges nothing.
pub recover_state-charge :
    (c nc : CpuChargeState) (r : CpuSessionRecord) (at : ℕ)
    → recover_state c r at ≡ ok nc
    → nc.charged_cpu_ns ≡ c.charged_cpu_ns
unfolding recover_state cpu_charges_close cpu_charges_debt
recover_state-charge c nc r at e = ground arith

prefix-Advanced :
    (c s t : CpuChargeState) (r : CpuSessionRecord) (at charge : ℕ)
    → s.activated_at ≡ c.activated_at
    → s.clock_high_water ≡ some at
    → s.charged_cpu_ns ≡ c.charged_cpu_ns
    → charge_prefix s r at charge ≡ ok t
    → Advanced c t at r.start × (t.status ≡ s.status) × (t.generation ≡ s.generation)
unfolding charge_prefix cpu_charges_debt
prefix-Advanced c s t r at charge ea eh ec e = (
  record {
    same_activation = ground (arith, ea, e);
    at_high = ground (arith, eh, e);
    not_less = ground (arith, ec, e);
    fits = ground (arith, ec, e);
    same_start = ground arith;
  },
  ground arith,
  ground arith,
)

pub begin-Advanced :
    (c nc : CpuChargeState) (start : CpuSessionStart)
    → cpu_limited_begin_state c start ≡ ok nc
    → Advanced c nc start.observed_at start
      × (closed_unknown nc.status ≡ status_eq nc.status unknown)
      × (nc.generation ≡ c.generation + 1)
unfolding cpu_limited_begin_state
begin-Advanced c nc start e =
    let problem = cpu_charges_problem start.self_cpu_ns start.reason none false in
    let r = new_record (c.generation + 1) start in
    let s = opened_state c start in
    elim (Bool-cases (reason_eq problem no_reason)) [
      | inl fine ↦
          let steps : (deref start.self_cpu_ns >>= λ charge.
          charge_prefix s r start.observed_at charge)
              ≡ ok nc =
            ground arith in
          let (charge, _, done) = >>=-eq-ok (deref start.self_cpu_ns) _ steps in
          let (moved, st, gen) =
            prefix-Advanced c s nc r start.observed_at charge refl refl refl done in
          (moved, rw st refl, gen)
      | inr bad ↦
          let (moved, st, gen) =
            close-Advanced c s nc r start.observed_at unknown problem false refl refl refl
              (ground arith) in
          (moved, rw st refl, gen)
    ]

debt-Advanced :
    (c s t : CpuChargeState) (r : CpuSessionRecord) (at charge : ℕ) (owed : ℕ × Bool)
    → s.activated_at ≡ c.activated_at
    → s.clock_high_water ≡ some at
    → s.charged_cpu_ns ≡ c.charged_cpu_ns
    → charge + c.charged_cpu_ns ≤ max_int64
    → cpu_charges_debt (charged_state s charge) r at owed ≡ ok t
    → Advanced c t at r.start × (t.status ≡ s.status) × (t.generation ≡ s.generation)
unfolding cpu_charges_debt
debt-Advanced c s t r at charge owed ea eh ec fits e = (
  record {
    same_activation = ground (arith, ea, e);
    at_high = ground (arith, eh, e);
    not_less = ground (arith, ec, e);
    fits = ground (arith, ec, e);
    same_start = ground arith;
  },
  ground arith,
  ground arith,
)

-- The graceful end of a session keeps all of this.
finish-Advanced :
    (c s t : CpuChargeState) (r : CpuSessionRecord) (at at' : ℕ) (start : CpuSessionStart)
    → Advanced c s at start
    → s.session ≡ some r
    → cpu_charges_close s r at' finished graceful_tail_unobserved false ≡ ok t
    → Advanced c t at start × (t.status ≡ finished) × (t.generation ≡ s.generation)
unfolding cpu_charges_close
finish-Advanced c s t r at at' start moved er e = (
  record {
    same_activation = ground (arith, moved.same_activation, e);
    at_high = ground (arith, moved.at_high, e);
    not_less = ground (arith, moved.not_less, e);
    fits = ground (arith, moved.fits, e);
    same_start = ground (arith, moved.same_start, er);
  },
  ground arith,
  ground arith,
)

charge_sample-Advanced :
    (c s t : CpuChargeState) (r : CpuSessionRecord) (q : CpuSessionSample) (finish : Bool)
    (at self last : ℕ)
    → s.activated_at ≡ c.activated_at
    → s.clock_high_water ≡ some at
    → s.charged_cpu_ns ≡ c.charged_cpu_ns
    → s.status ≡ active
    → charge_sample s r q finish at self last ≡ ok t
    → Advanced c t at r.start
      × (closed_unknown t.status ≡ status_eq t.status unknown)
      × (t.generation ≡ s.generation)
unfolding charge_waiting
charge_sample-Advanced c s t r q finish at self last ea eh ec es e =
    let (room, steps) = charge_sample-waiting s r q finish at self last t e in
    let owed = cpu_feedback_wait (pos (self - last)) (elapsed_of q) in
    let r' = sampled_record r self last in
    let fits : self - last + c.charged_cpu_ns ≤ max_int64 = omega (arith, room, ec) in
    elim (Result-cases (cpu_charges_debt (charged_state s (self - last)) r' at owed)) [
      | inr (y, ey) ↦ ground arith
      | inl (n, en) ↦
          let (moved, st, gen) = debt-Advanced c s n r' at (self - last) owed ea eh ec fits en in
          elim (Bool-cases finish) [
            | inr on ↦
                let same : n ≡ t = ground arith in
                subst
                  (λ x.
                    Advanced c x at r.start
                    × (closed_unknown x.status ≡ status_eq x.status unknown)
                    × (x.generation ≡ s.generation))
                  same (moved, rw (st, es) refl, gen)
            | inl done ↦ elim (Option-cases n.session) [
              | inl gone ↦ ground arith
              | inr (k, ek) ↦
                  let (moved', st', gen') =
                    finish-Advanced c n t k at at r.start moved ek (ground arith) in
                  (moved', rw st' refl, gen' ∙ gen)
            ]
          ]
    ]

pub sample-Advanced :
    (c nc : CpuChargeState) (r : CpuSessionRecord) (q : CpuSessionSample) (finish : Bool) (high : ℕ)
    → c.status ≡ active
    → cpu_limited_sample_state c r q finish high ≡ ok nc
    → Advanced c nc (sample_instant q high) r.start
      × (closed_unknown nc.status ≡ status_eq nc.status unknown)
      × (nc.generation ≡ c.generation)
unfolding cpu_limited_sample_state
sample-Advanced c nc r q finish high st e =
    let noted = noted_record r q finish in
    let at = sample_instant q high in
    let s = record c { clock_high_water = some at; session = some noted } in
    let problem = sample_problem noted q high in
    elim (Bool-cases (reason_eq problem no_reason)) [
      | inl fine ↦
          let steps : (deref q.self_cpu_ns >>= λ self.
          or_else r.last_self_cpu_ns nil_dereference >>= λ last.
          charge_sample s noted q finish at self last)
              ≡ ok nc =
            ground arith in
          let (self, _, rest) = >>=-eq-ok (deref q.self_cpu_ns) _ steps in
          let (last, _, done) = >>=-eq-ok (or_else r.last_self_cpu_ns nil_dereference) _ rest in
          charge_sample-Advanced c s nc noted q finish at self last refl refl refl st done
      | inr bad ↦
          let (moved, closed, gen) =
            close-Advanced c s nc noted at unknown problem false refl refl refl (ground arith) in
          (moved, rw closed refl, gen)
    ]
