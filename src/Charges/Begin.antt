-- ===== src/Charges/Begin.antt =====
-- BeginCPUSession and RecoverCPUSession (internal/state/cpu_charges.go) against validCPUCharges.
use saga_rydd.Prelude.{
  ℕ, ◌+◌, ◌≤◌, ◌<◌, ◌≡◌, refl, true, false, Option, none, some, ok, arith, inl, inr, sym, ◌∙◌,
  Bool-cases, >>=-eq-ok, subst,
}
use saga_rydd.Prelude.Int.{ℤ, pos, negsuc, max_int64}
use saga_rydd.Feedback.{hour, cpu_charges_prefix_wait}
use saga_rydd.Feedback.Formula.{cpu_charges_prefix_wait-le}
use saga_rydd.Charges.Types.{
  Reason, no_reason, interrupted_session, reason_eq, ChargeStatus, active, untracked,
  recovered_unknown, status_eq, CpuSessionStart, CpuSessionRecord, CpuChargeState,
  cpu_charges_problem, cpu_charges_time, cpu_charges_start_valid, cpu_charges_input_cpu,
}
use saga_rydd.Charges.Valid.{
  valid_cpu_charges, untracked_valid, last_self_valid, last_sample_valid, unknown_reason_valid,
  nonneg_part, known_start,
}
use saga_rydd.Charges.Steps.{
  cpu_charges_close, close_open, charged_state, prefixed_record, new_record, opened_state,
  charge_prefix, cpu_limited_begin_state, begin_state, recover_state,
}
use saga_rydd.Charges.Open.{
  valid-Active, Open-later, last_sample_valid_mono, Ready, Open, valid-cases, valid-Ready,
  record_valid-status, active-Open, next_within-after, Base-mono,
}
use saga_rydd.Charges.Outcomes.{
  debt-eq, start-time, close_unknown-valid, close_recovered-valid, close-eq,
}
use saga_rydd.Charges.Live.{owing-valid, owing-live_start}

reason_eq_refl : (x : Reason) → reason_eq x x ≡ true
reason_eq_refl x = ground arith

-- A start without a problem has an observation that is not negative.
pub start_known :
    (cpu : Option ℤ) (why : Reason)
    → cpu_charges_input_cpu cpu why ≡ true
    → reason_eq (cpu_charges_problem cpu why none false) no_reason ≡ true
    → (c : ℕ) × (cpu ≡ some (pos c))
unfolding cpu_charges_input_cpu cpu_charges_problem
start_known none why v e = cc (input_none why v e)
  where
    input_none :
        (w : Reason)
        → cpu_charges_input_cpu none w ≡ true
        → reason_eq w no_reason ≡ true
        → true ≡ false
    input_none w v e = ground arith
start_known (some (pos c)) why v e = (c, refl)
start_known (some (negsuc c)) why v e = cc

start_problem :
    (cpu : Option ℤ) (why : Reason)
    → reason_eq (cpu_charges_problem cpu why none false) no_reason ≡ false
    → nonneg_part cpu ≡ 0
unfolding cpu_charges_problem
start_problem none why e = refl
start_problem (some (pos c)) why e = cc
start_problem (some (negsuc c)) why e = refl

start_problem-known :
    (cpu : Option ℤ) (why : Reason)
    → reason_eq (cpu_charges_problem cpu why none false) no_reason ≡ false
    → known_start cpu ≡ none
unfolding cpu_charges_problem
start_problem-known none why e = refl
start_problem-known (some (pos c)) why e = cc
start_problem-known (some (negsuc c)) why e = refl

pub input_valid :
    (q : CpuSessionStart)
    → cpu_charges_start_valid q ≡ true
    → cpu_charges_input_cpu q.self_cpu_ns q.reason ≡ true
unfolding cpu_charges_start_valid
input_valid q v = ground arith

module _ (s : CpuChargeState) (start : CpuSessionStart) (a : ℕ)
    (ready : Ready s a start.observed_at) (valid : cpu_charges_start_valid start ≡ true)
    (expected : start.expected_generation ≡ s.generation) (room : s.generation < max_int64) where
  begin-Open :
      nonneg_part start.self_cpu_ns ≡ 0
      → Open (opened_state s start) (new_record (s.generation + 1) start) a start.observed_at
  unfolding last_self_valid
  begin-Open zero_part = record {
    base = record {
      at_activation = ready.base.at_activation;
      is_available = ready.base.is_available;
      tails = ready.base.tails;
      recovered_le = ready.base.recovered_le;
      activation_time = ready.base.activation_time;
      high_time = ready.base.high_time;
      activation_le = ready.base.activation_le;
      within = ready.base.within;
    };
    at_high = refl;
    one_open = omega (arith, ready.all_closed);
    same_generation = refl;
    start_is_valid = valid;
    expected_lt = omega arith;
    expected = omega arith;
    activation_le_start = ready.base.activation_le;
    start_le = omega arith;
    prefix_le = omega arith;
    session_le = omega arith;
    last_le = omega arith;
    prefix = zero_part;
    last_self = refl;
  }

  begin_charged-Open :
      (c : ℕ)
      → start.self_cpu_ns ≡ some (pos c)
      → Open
          (charged_state (opened_state s start) c)
          (prefixed_record (new_record (s.generation + 1) start) c)
          a
          start.observed_at
  unfolding last_self_valid
  begin_charged-Open c known = record {
    base = record {
      at_activation = ready.base.at_activation;
      is_available = ready.base.is_available;
      tails = ready.base.tails;
      recovered_le = ready.base.recovered_le;
      activation_time = ready.base.activation_time;
      high_time = ready.base.high_time;
      activation_le = ready.base.activation_le;
      within = ready.base.within;
    };
    at_high = refl;
    one_open = omega (arith, ready.all_closed);
    same_generation = refl;
    start_is_valid = valid;
    expected_lt = omega arith;
    expected = omega arith;
    activation_le_start = ready.base.activation_le;
    start_le = omega arith;
    prefix_le = omega arith;
    session_le = omega arith;
    last_le = omega arith;
    prefix = rw known refl;
    last_self = ground arith;
  }

  begin_charged-valid :
      (c : ℕ) (t : CpuChargeState)
      → start.self_cpu_ns ≡ some (pos c)
      → charge_prefix
          (opened_state s start)
          (new_record (s.generation + 1) start)
          start.observed_at
          c
        ≡ ok t
      → valid_cpu_charges t ≡ true
  unfolding charge_prefix last_sample_valid
  begin_charged-valid c t known e =
      let owed = cpu_charges_prefix_wait (pos c) in
      let n = charged_state (opened_state s start) c in
      let r = prefixed_record (new_record (s.generation + 1) start) c in
      let o = begin_charged-Open c known in
      let le = cpu_charges_prefix_wait-le (pos c) in
      let (time, shape) = debt-eq n t r start.observed_at owed (ground arith) in
      subst (λ x. valid_cpu_charges x ≡ true) (sym shape)
        (owing-valid n r a start.observed_at owed o le
          (record {
            record_active = refl;
            ledger_active = refl;
            tail_open = refl;
            not_closed = refl;
            no_closure = refl;
            start_known = rw known refl;
          })
          time refl (rw known (ground arith))
          (owing-live_start n r a start.observed_at owed o le refl refl refl refl))

  -- The start of a session, whether its observation is known or not, leaves a valid ledger.
  pub cpu_limited_begin_state-valid :
      (t : CpuChargeState) → cpu_limited_begin_state s start ≡ ok t → valid_cpu_charges t ≡ true
  unfolding cpu_limited_begin_state last_sample_valid unknown_reason_valid
  cpu_limited_begin_state-valid t e =
      elim (Bool-cases
        (reason_eq (cpu_charges_problem start.self_cpu_ns start.reason none false) no_reason)) [
          | inl fine ↦
              let (c, known) =
                start_known start.self_cpu_ns start.reason (input_valid start valid) fine in
              begin_charged-valid c t known (ground arith)
          | inr bad ↦
              let why = cpu_charges_problem start.self_cpu_ns start.reason none false in
              close_unknown-valid _ t _ a start.observed_at start.observed_at why
                (begin-Open (start_problem start.self_cpu_ns start.reason bad)) (omega arith)
                (omega arith) (rw (start_problem-known start.self_cpu_ns start.reason bad) refl)
                (rw (bad, reason_eq_refl why) refl) (ground arith)
        ]

closed-Ready :
    (s t : CpuChargeState) (r : CpuSessionRecord) (a h at : ℕ)
    → Open s r a h
    → h ≤ at
    → cpu_charges_time at ≡ true
    → cpu_charges_close s r at recovered_unknown interrupted_session true ≡ ok t
    → Ready t a at × (t.generation ≡ s.generation)
closed-Ready s t r a h at o le t_at e =
    let (time, shape) =
      debt-eq _ t _ at (hour, false)
        (close-eq s t r at recovered_unknown interrupted_session true refl e) in
    let b = Base-mono s a h at le t_at o.base in
    rw shape (
      record {
        base = record {
          at_activation = b.at_activation;
          is_available = b.is_available;
          tails = ground arith;
          recovered_le = ground arith;
          activation_time = b.activation_time;
          high_time = b.high_time;
          activation_le = b.activation_le;
          within =
              next_within-after s.next_allowed_at at (at + hour) hour b.within time (omega arith);
        };
        all_closed = o.one_open;
      },
      refl,
    )

status_eq-eq : (x y : ChargeStatus) → status_eq x y ≡ true → x ≡ y
status_eq-eq x y e = ground arith

untracked_parts :
    (s : CpuChargeState) → untracked_valid s ≡ true → (s.session ≡ none) × (s.status ≡ untracked)
unfolding untracked_valid
untracked_parts s v = (ground arith, status_eq-eq s.status untracked (ground arith))

-- Whatever the ledger's last session is, the next start finds every session closed.
close_open-Ready :
    (s t : CpuChargeState) (at h : ℕ)
    → valid_cpu_charges s ≡ true
    → s.clock_high_water ≡ some h
    → h ≤ at
    → cpu_charges_time at ≡ true
    → close_open s s.session at ≡ ok t
    → (a : ℕ) × Ready t a at × (t.generation ≡ s.generation)
close_open-Ready s t at h v eh le t_at e =
    let (a, k, ek, b, cases) = valid-cases s v in
    let same : k ≡ h = ground arith in
    let kle : k ≤ at = omega arith in
    elim cases [
      | inl (none_yet, u) ↦
          let (no_session, idle) = untracked_parts s u in
          let kept : s ≡ t = ground arith in
          let ready : Ready s a at =
            valid-Ready s a k at (λ x. cc (x, idle)) kle t_at b (inl (none_yet, u)) in
          (a, subst (λ x. Ready x a at) kept ready, rw (sym kept) refl)
      | inr (r, p) ↦
          let st = record_valid-status s a k r p.record_ok in
          elim (Bool-cases (status_eq r.status active)) [
            | inl live ↦
                let o = active-Open s a k r ek (status_eq-eq r.status active live) b p in
                let (ready, gen) =
                  closed-Ready s t r a k at o kle t_at (ground (arith, p.at_session)) in
                (a, ready, gen)
            | inr done ↦
                let kept : s ≡ t = ground (arith, p.at_session) in
                let ready : Ready s a at =
                  valid-Ready s a k at (λ x. ground (arith, st ∙ x)) kle t_at b (inr (r, p)) in
                (a, subst (λ x. Ready x a at) kept ready, rw (sym kept) refl)
          ]
    ]

-- BeginCPUSession on a valid ledger, for a valid start that expects its generation and does not
-- precede its high-water instant, leaves a valid ledger or refuses: the test before the write never
-- fails.
pub begin_state-valid :
    (s t : CpuChargeState) (start : CpuSessionStart) (h : ℕ)
    → valid_cpu_charges s ≡ true
    → cpu_charges_start_valid start ≡ true
    → start.expected_generation ≡ s.generation
    → s.generation < max_int64
    → s.clock_high_water ≡ some h
    → h ≤ start.observed_at
    → begin_state s start ≡ ok t
    → valid_cpu_charges t ≡ true
unfolding begin_state
begin_state-valid s t start h v sv expected room eh le e =
    let (closed, ec, et) = >>=-eq-ok (close_open s s.session start.observed_at) _ e in
    let (a, ready, gen) =
      close_open-Ready s closed start.observed_at h v eh le (start-time start sv) ec in
    cpu_limited_begin_state-valid closed start a ready sv (expected ∙ sym gen) (omega (arith, gen))
      t et

-- RecoverCPUSession for the active session of a valid ledger, not before its high-water instant.
pub recover_state-valid :
    (s t : CpuChargeState) (r : CpuSessionRecord) (at h : ℕ)
    → valid_cpu_charges s ≡ true
    → s.session ≡ some r
    → r.status ≡ active
    → s.clock_high_water ≡ some h
    → h ≤ at
    → cpu_charges_time at ≡ true
    → recover_state s r at ≡ ok t
    → valid_cpu_charges t ≡ true
unfolding recover_state
recover_state-valid s t r at h v er ra eh le t_at e =
    let (a, live) = valid-Active s r h v er ra eh in
    let o = live.open_session in
    close_recovered-valid _ t r a at at (Open-later s r a h at le t_at o)
      (omega (arith, o.start_le)) (omega arith)
      (last_sample_valid_mono r h at r.last_sample le live.sample_ok) (ground arith)
