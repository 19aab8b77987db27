-- ===== src/Charges/Sample.antt =====
-- SampleCPUSession and FinishCPUSession (internal/state/cpu_charges.go) against validCPUCharges.
use saga_rydd.Prelude.{
  Option-cases, ℕ, ◌+◌, ◌-◌, ◌≤◌, ◌≡◌, refl, Bool, true, false, Option, none, some, ltb, Result, ok,
  arith, inl, inr, sym, ◌∙◌, Bool-cases, >>=-eq-ok, ◌>>=◌, subst, or_else,
}
use saga_rydd.Prelude.Int.{ℤ, pos, negsuc, max_int64}
use saga_rydd.Feedback.{cpu_feedback_wait}
use saga_rydd.Feedback.Formula.{cpu_feedback_wait-le}
use saga_rydd.Charges.Types.{
  Reason, no_reason, graceful_tail_unobserved, reason_eq, active, finished, CpuSessionSample,
  CpuSessionRecord, CpuChargeState, cpu_charges_time, ChargesError, nil_dereference,
  cpu_charges_sample_valid, same_ns, cpu_charges_input_cpu,
}
use saga_rydd.Charges.Valid.{
  valid_cpu_charges, last_self_valid, last_sample_valid, unknown_reason_valid, live_valid,
  nonneg_part, wait_valid, problem_of, elapsed_of, regressed,
}
use saga_rydd.Charges.Steps.{
  charge_waiting, owing, cpu_charges_close, cpu_charges_debt, deref, charged_state, charge_sample,
  sampled_record, noted_record, cpu_limited_sample_state, sample_problem, sample_instant,
  has_regressed,
}
use saga_rydd.Charges.Open.{Running, valid-Active, Open-later, Open}
use saga_rydd.Charges.Outcomes.{debt-eq, close_unknown-valid}
use saga_rydd.Charges.Live.{owed_record, owing-valid, owing-live_sample, fine-elapsed}
use saga_rydd.Charges.Finish.{finish-valid}

reason_eq_refl : (x : Reason) → reason_eq x x ≡ true
reason_eq_refl x = ground arith

reason_eq-eq : (x y : Reason) → reason_eq x y ≡ true → x ≡ y
reason_eq-eq x y e = ground arith

-- What a sample without a problem shows.
pub record Fine (r : CpuSessionRecord) (q : CpuSessionSample) (high : ℕ) : Type 0 where
  pub not_back : high ≤ q.observed_at
  pub no_problem : reason_eq (problem_of q) no_reason ≡ true
  pub no_regress : has_regressed q.self_cpu_ns r.last_self_cpu_ns ≡ false

pub sample_problem-Fine :
    (r : CpuSessionRecord) (q : CpuSessionSample) (high : ℕ)
    → reason_eq (sample_problem r q high) no_reason ≡ true
    → Fine r q high
unfolding sample_problem
sample_problem-Fine r q high e = record {
  not_back = ground arith;
  no_problem = ground arith;
  no_regress = ground arith;
}

-- The reason with which a sample closes a session is one that the test of the ledger accepts.
sample_problem-reason :
    (r x : CpuSessionRecord) (q : CpuSessionSample) (high : ℕ)
    → x.closure_reason ≡ sample_problem r q high
    → x.last_self_cpu_ns ≡ r.last_self_cpu_ns
    → reason_eq (sample_problem r q high) no_reason ≡ false
    → unknown_reason_valid x (sample_instant q high) (some q) ≡ true
unfolding sample_problem unknown_reason_valid
sample_problem-reason r x q high e l p = elim (Bool-cases (ltb q.observed_at high)) [
  | inl back ↦ rw (e, back) (ground arith)
  | inr on ↦ elim (Bool-cases (reason_eq (problem_of q) no_reason)) [
    | inl fine ↦ elim (Bool-cases (has_regressed q.self_cpu_ns r.last_self_cpu_ns)) [
      | inl less ↦ rw (e, l, on, fine, less) (regress q.self_cpu_ns r.last_self_cpu_ns less)
      | inr more ↦ cc (rw (on, fine, more, reason_eq) at p, fine)
    ]
    | inr bad ↦ rw (e, on, bad) (ground (arith, reason_eq_refl (problem_of q)))
  ]
]
  where
    regress :
        (self : Option ℤ) (last : Option ℕ)
        → has_regressed self last ≡ true
        → regressed self last ≡ true
    regress (some (pos n)) (some m) e = e
    regress (some (negsuc n)) (some m) e = refl
    regress (some (pos n)) none e = cc
    regress (some (negsuc n)) none e = cc
    regress none o e = cc

-- Noting the sample changes no charge.
noted-Open :
    (s : CpuChargeState) (r : CpuSessionRecord) (a h k : ℕ) (q : CpuSessionSample) (finish : Bool)
    → h ≤ k
    → cpu_charges_time k ≡ true
    → Open s r a h
    → Open
        (record s { clock_high_water = some k; session = some (noted_record r q finish) })
        (noted_record r q finish)
        a
        k
unfolding last_self_valid
noted-Open s r a h k q finish le t o₀ =
    let o = Open-later s r a h k le t o₀ in
    record {
      base = record {
        at_activation = o.base.at_activation;
        is_available = o.base.is_available;
        tails = o.base.tails;
        recovered_le = o.base.recovered_le;
        activation_time = o.base.activation_time;
        high_time = o.base.high_time;
        activation_le = o.base.activation_le;
        within = o.base.within;
      };
      at_high = refl;
      one_open = o.one_open;
      same_generation = o.same_generation;
      start_is_valid = o.start_is_valid;
      expected_lt = o.expected_lt;
      expected = o.expected;
      activation_le_start = o.activation_le_start;
      start_le = o.start_le;
      prefix_le = o.prefix_le;
      session_le = o.session_le;
      last_le = o.last_le;
      prefix = o.prefix;
      last_self = keep r.last_self_cpu_ns o.last_self;
    }
  where
    keep :
        (l : Option ℕ)
        → last_self_valid r l ≡ true
        → last_self_valid (noted_record r q finish) l ≡ true
    keep none v = v
    keep (some n) v = v

last_self-session :
    (r : CpuSessionRecord) (last : ℕ)
    → r.last_self_cpu_ns ≡ some last
    → last_self_valid r r.last_self_cpu_ns ≡ true
    → last ≡ r.session_charged_cpu_ns
unfolding last_self_valid
last_self-session r last e v = ground arith

-- A charge that does not regress keeps the session open.
charged-Open :
    (s : CpuChargeState) (r : CpuSessionRecord) (a h self last : ℕ)
    → last ≤ self
    → r.last_self_cpu_ns ≡ some last
    → Open s r a h
    → Open (charged_state s (self - last)) (sampled_record r self last) a h
unfolding last_self_valid
charged-Open s r a h self last le e o =
    let paid = last_self-session r last e o.last_self in
    record {
      base = record {
        at_activation = o.base.at_activation;
        is_available = o.base.is_available;
        tails = o.base.tails;
        recovered_le = o.base.recovered_le;
        activation_time = o.base.activation_time;
        high_time = o.base.high_time;
        activation_le = o.base.activation_le;
        within = o.base.within;
      };
      at_high = o.at_high;
      one_open = o.one_open;
      same_generation = o.same_generation;
      start_is_valid = o.start_is_valid;
      expected_lt = o.expected_lt;
      expected = o.expected;
      activation_le_start = o.activation_le_start;
      start_le = o.start_le;
      prefix_le = omega (arith, o.prefix_le);
      session_le = omega (arith, o.session_le);
      last_le = omega arith;
      prefix = o.prefix;
      last_self = ground arith;
    }

-- A charge reads the sample's elapsed time.
pub charge_sample-waiting :
    (s : CpuChargeState) (r : CpuSessionRecord) (q : CpuSessionSample) (finish : Bool)
    (h self last : ℕ) (t : CpuChargeState)
    → charge_sample s r q finish h self last ≡ ok t
    → (self - last + s.charged_cpu_ns ≤ max_int64)
      × (charge_waiting s r finish h self last (elapsed_of q) ≡ ok t)
unfolding charge_sample
charge_sample-waiting s r q finish h self last t e = elim (Option-cases q.elapsed_ns) [
  | inl missing ↦ ground arith
  | inr (n, en) ↦ (ground (arith, en), ground (arith, en))
]

charge_sample-live :
    (s : CpuChargeState) (r : CpuSessionRecord) (q : CpuSessionSample) (finish : Bool)
    (h self last : ℕ) (t : CpuChargeState)
    → charge_sample s r q finish h self last ≡ ok t
    → (n : CpuChargeState) × (cpu_charges_debt
          (charged_state s (self - last))
          (sampled_record r self last)
          h
          (cpu_feedback_wait (pos (self - last)) (elapsed_of q))
        ≡ ok n)
      × (finish ≡ false → n ≡ t)
      × (finish ≡ true
          → (c : CpuSessionRecord) × (n.session ≡ some c)
            × (cpu_charges_close n c h finished graceful_tail_unobserved false ≡ ok t))
unfolding charge_waiting
charge_sample-live s r q true h self last t e =
    let (_, e₁) = charge_sample-waiting s r q true h self last t e in
    let (n, en, e₂) =
      >>=-eq-ok
        (cpu_charges_debt (charged_state s (self - last)) (sampled_record r self last) h
          (cpu_feedback_wait (pos (self - last)) (elapsed_of q)))
        _ e₁ in
    let (c, ec, e₃) = >>=-eq-ok (or_else n.session nil_dereference) _ e₂ in
    (n, en, (λ x. cc), (λ x. (c, ground arith, e₃)))
charge_sample-live s r q false h self last t e =
    let (_, e₁) = charge_sample-waiting s r q false h self last t e in
    let (n, en, e₂) =
      >>=-eq-ok
        (cpu_charges_debt (charged_state s (self - last)) (sampled_record r self last) h
          (cpu_feedback_wait (pos (self - last)) (elapsed_of q)))
        _ e₁ in
    (n, en, (λ x. ground arith), (λ x. cc))

-- The charge of a fine sample, and the finish that may follow it.
charge_sample-valid :
    (s t : CpuChargeState) (r : CpuSessionRecord) (a h self last : ℕ) (q : CpuSessionSample)
    (finish : Bool)
    → Open s r a h
    → Running s r
    → r.last_sample ≡ some q
    → r.last_sample_final ≡ finish
    → r.last_self_cpu_ns ≡ some last
    → q.self_cpu_ns ≡ some (pos self)
    → last ≤ self
    → q.observed_at ≡ h
    → reason_eq (problem_of q) no_reason ≡ true
    → last_sample_valid r h (some q) ≡ true
    → charge_sample s r q finish h self last ≡ ok t
    → valid_cpu_charges t ≡ true
unfolding last_sample_valid live_valid wait_valid
charge_sample-valid s t r a h self last q finish o run eq ef el es le at fine sample e =
    let (n, debt, going, ending) = charge_sample-live s r q finish h self last t e in
    let owed = cpu_feedback_wait (pos (self - last)) (elapsed_of q) in
    let wait_le = cpu_feedback_wait-le (pos (self - last)) (elapsed_of q) in
    let s' = charged_state s (self - last) in
    let r' = sampled_record r self last in
    let o' = charged-Open s r a h self last le el o in
    let (time, shape) = debt-eq s' n r' h owed debt in
    let paid = last_self-session r last el o.last_self in
    let part : nonneg_part q.self_cpu_ns ≡ self = rw es refl in
    let same : same_ns (some (pos self)) q.self_cpu_ns ≡ true = rw es (ground arith) in
    let live =
      owing-live_sample s' r' a h owed o' wait_le q fine (fine-elapsed q self es fine)
        (omega (arith, o.prefix_le)) same at refl in
    let sample' = resampled r self last h q sample in
    elim (Bool-cases finish) [
      | inl ends ↦
          let (c, session, close) = ending ends in
          let which : owed_record r' owed ≡ c = ground (arith, shape) in
          finish-valid s' r' a h owed q o' wait_le eq at t self time (ef ∙ ends) fine refl same
            sample' live
            (subst (λ x. closing (owing s' r' (h + owed.0) owed) x ≡ ok t) (sym which)
              (subst (λ x. closing x c ≡ ok t) shape close))
      | inr goes ↦
          subst (λ x. valid_cpu_charges x ≡ true) (sym shape ∙ going goes)
            (owing-valid s' r' a h owed o' wait_le
              (record {
                record_active = run.record_active;
                ledger_active = run.ledger_active;
                tail_open = run.tail_open;
                not_closed = run.not_closed;
                no_closure = run.no_closure;
                start_known = run.start_known;
              })
              time (ef ∙ goes) (rw eq sample') (rw eq live))
    ]
  where
    closing : CpuChargeState → CpuSessionRecord → Result ChargesError CpuChargeState
    closing x c = cpu_charges_close x c h finished graceful_tail_unobserved false

    resampled :
        (r : CpuSessionRecord) (self last h : ℕ) (q : CpuSessionSample)
        → last_sample_valid r h (some q) ≡ true
        → last_sample_valid (sampled_record r self last) h (some q) ≡ true
    resampled r self last h q v = v

pub deref-known : {n : ℕ} (o : Option ℤ) → deref o ≡ ok n → o ≡ some (pos n)
deref-known none e = cc
deref-known (some (pos m)) e = cc
deref-known (some (negsuc m)) e = cc

or_else-known : {n : ℕ} (x : ChargesError) (o : Option ℕ) → or_else o x ≡ ok n → o ≡ some n
or_else-known x none e = cc
or_else-known x (some m) e = cc

not_regressed :
    (self last : ℕ) (o : Option ℤ) (l : Option ℕ)
    → o ≡ some (pos self)
    → l ≡ some last
    → has_regressed o l ≡ false
    → last ≤ self
not_regressed self last o l eo el e = ground arith

instant-later :
    (q : CpuSessionSample) (high : ℕ) → high ≤ q.observed_at → q.observed_at ≡ sample_instant q high
instant-later q high le = ground arith

pub sample-input :
    (q : CpuSessionSample)
    → cpu_charges_sample_valid q ≡ true
    → (cpu_charges_input_cpu q.self_cpu_ns q.reason ≡ true)
      × (cpu_charges_time q.observed_at ≡ true)
unfolding cpu_charges_sample_valid
sample-input q v = (ground arith, ground arith)

instant-time :
    (q : CpuSessionSample) (high : ℕ)
    → cpu_charges_time q.observed_at ≡ true
    → cpu_charges_time high ≡ true
    → cpu_charges_time (sample_instant q high) ≡ true
instant-time q high v w = ground arith

noted-last_sample :
    (r : CpuSessionRecord) (q : CpuSessionSample) (finish : Bool) (k : ℕ)
    → cpu_charges_sample_valid q ≡ true
    → q.observed_at ≤ k
    → last_sample_valid (noted_record r q finish) k (some q) ≡ true
unfolding last_sample_valid
noted-last_sample r q finish k v le = ground arith

-- A sample of the active session of a valid ledger, whatever it observes and whether it finishes the
-- session or not, leaves a valid ledger or refuses: the test before the write never fails. `high` is
-- the instant that the sample is held against, at the ledger's own or later.
pub cpu_limited_sample_state-valid :
    (s t : CpuChargeState) (r : CpuSessionRecord) (q : CpuSessionSample) (finish : Bool)
    (h high : ℕ)
    → valid_cpu_charges s ≡ true
    → s.session ≡ some r
    → r.status ≡ active
    → s.clock_high_water ≡ some h
    → h ≤ high
    → cpu_charges_time high ≡ true
    → cpu_charges_sample_valid q ≡ true
    → cpu_limited_sample_state s r q finish high ≡ ok t
    → valid_cpu_charges t ≡ true
unfolding cpu_limited_sample_state
cpu_limited_sample_state-valid s t r q finish h high v er ra eh le th sv e =
    let (a, live) = valid-Active s r h v er ra eh in
    let (input, tq) = sample-input q sv in
    let at = sample_instant q high in
    let at_le : q.observed_at ≤ at = ground arith in
    let high_le : high ≤ at = ground arith in
    let o =
      noted-Open s r a h at q finish (omega arith) (instant-time q high tq th) live.open_session in
    let noted = noted-last_sample r q finish at sv at_le in
    let noted_r = noted_record r q finish in
    let next = record s { clock_high_water = some at; session = some noted_r } in
    elim (Bool-cases (reason_eq (sample_problem (noted_record r q finish) q high) no_reason)) [
      | inl fine ↦
          let ok_sample = sample_problem-Fine (noted_record r q finish) q high fine in
          let charge : (deref q.self_cpu_ns >>= λ self.
          or_else r.last_self_cpu_ns nil_dereference >>= λ last.
          charge_sample next noted_r q finish at self last)
              ≡ ok t =
            ground arith in
          let (self, es, e₁) = >>=-eq-ok (deref q.self_cpu_ns) _ charge in
          let (last, el, e₂) = >>=-eq-ok (or_else r.last_self_cpu_ns nil_dereference) _ e₁ in
          let known = deref-known q.self_cpu_ns es in
          let before = or_else-known nil_dereference r.last_self_cpu_ns el in
          let on_time : q.observed_at ≡ at = instant-later q high ok_sample.not_back in
          charge_sample-valid next t noted_r a at self last q finish o
            (record {
              record_active = live.running.record_active;
              ledger_active = live.running.ledger_active;
              tail_open = live.running.tail_open;
              not_closed = live.running.not_closed;
              no_closure = live.running.no_closure;
              start_known = live.running.start_known;
            })
            refl refl before known
            (not_regressed self last q.self_cpu_ns r.last_self_cpu_ns known before
              ok_sample.no_regress)
            on_time ok_sample.no_problem noted e₂
      | inr bad ↦
          close_unknown-valid _ t _ a at at (sample_problem (noted_record r q finish) q high) o
            o.start_le (omega arith) noted
            (sample_problem-reason (noted_record r q finish) _ q high refl refl bad) (ground arith)
    ]
