-- ===== src/Charges/Safety.antt =====
-- The errors of BeginCPUSession, SampleCPUSession and FinishCPUSession (internal/state/cpu_charges.go).
use saga_rydd.Prelude.{
  ◌≤◌, ℕ, ◌+◌, ◌-◌, ◌==◌, ◌≡◌, refl, Bool, true, false, Option, none, some, Result, ok, err, arith,
  ◌⊎◌, inl, inr, ◌≢◌, ◌∙◌, Bool-cases, Option-cases, Result-cases, ◌>>=◌,
}
use saga_rydd.Prelude.Int.{ℤ, pos}
use saga_rydd.Feedback.{hour, cpu_feedback_wait, cpu_charges_prefix_wait}
use saga_rydd.Charges.Types.{
  Reason, no_reason, graceful_tail_unobserved, interrupted_session, reason_eq, ChargeStatus, active,
  finished, unknown, recovered_unknown, status_eq, CpuSessionStart, CpuSessionSample,
  CpuSessionRecord, CpuChargeState, cpu_charges_problem, cpu_charges_time, cpu_charges_start_valid,
  ChargesError, invalid, corrupt, cpu_charges_base, overflow, nil_dereference,
  cpu_charges_sample_valid,
}
use saga_rydd.Charges.Valid.{valid_cpu_charges, is_some}
use saga_rydd.Charges.Steps.{
  recover_state, closed_state, cpu_charges_close, cpu_charges_debt, close_open, charged_state,
  prefixed_record, new_record, opened_state, charge_prefix, charge_waiting, charge_sample,
  sampled_record, noted_record, cpu_limited_begin_state, begin_state, cpu_limited_sample_state,
  sample_problem, sample_instant,
}
use saga_rydd.Charges.Open.{valid-Active}
use saga_rydd.Charges.Outcomes.{debt-eq}
use saga_rydd.Charges.Live.{fine-elapsed, owed_record}
use saga_rydd.Charges.Outcomes.{unknown_record}
use saga_rydd.Charges.Begin.{recover_state-valid, start_known, input_valid, begin_state-valid}
use saga_rydd.Charges.Sample.{cpu_limited_sample_state-valid, sample_problem-Fine, sample-input}
use saga_rydd.Charges.Open.{valid-has_session, fine-known, valid-generation, valid-high}
use saga_rydd.Charges.Ledger.{
  recover_active, recover_cpu_session, is_active, Store, ChargesDb, CpuSessionMarker,
  read_cpu_charges, commit_cpu_charges, begin_retry, begin_new, begin_cpu_session, sample_new,
  sample_cpu_session, cpu_charges_writer, bare_cpu_authority,
}

status_eq-eq : (x y : ChargeStatus) → status_eq x y ≡ true → x ≡ y
status_eq-eq x y e = ground arith

debt-err :
    (s : CpuChargeState) (r : CpuSessionRecord) (at : ℕ) (owed : ℕ × Bool) (x : ChargesError)
    → cpu_charges_debt s r at owed ≡ err x
    → x ≡ overflow
unfolding cpu_charges_debt
debt-err s r at (w, c) x e = ground arith

close-err :
    (s : CpuChargeState) (r : CpuSessionRecord) (at : ℕ) (st : ChargeStatus) (why : Reason)
    (rec : Bool) (x : ChargesError)
    → cpu_charges_close s r at st why rec ≡ err x
    → x ≡ overflow
unfolding cpu_charges_close
close-err s r at st why rec x e = ground (
  arith,
  debt-err (closed_state s r at st why rec) (unknown_record r at st why) at (hour, false) x,
)

charge_prefix-err :
    (s : CpuChargeState) (r : CpuSessionRecord) (at charge : ℕ) (x : ChargesError)
    → charge_prefix s r at charge ≡ err x
    → x ≡ overflow
unfolding charge_prefix
charge_prefix-err s r at charge x e = ground (
  arith,
  debt-err (charged_state s charge) (prefixed_record r charge) at
      (cpu_charges_prefix_wait (pos charge)) x,
)

pub limited_begin-err :
    (s : CpuChargeState) (start : CpuSessionStart) (x : ChargesError)
    → cpu_charges_start_valid start ≡ true
    → cpu_limited_begin_state s start ≡ err x
    → x ≡ overflow
unfolding cpu_limited_begin_state
limited_begin-err s start x v e =
    elim (Bool-cases
      (reason_eq (cpu_charges_problem start.self_cpu_ns start.reason none false) no_reason)) [
        | inl fine ↦
            let (c, known) =
              start_known start.self_cpu_ns start.reason (input_valid start v) fine in
            charge_prefix-err (opened_state s start) (new_record (s.generation + 1) start)
              start.observed_at c x (ground arith)
        | inr bad ↦
            close-err (opened_state s start) (new_record (s.generation + 1) start) start.observed_at
              unknown (cpu_charges_problem start.self_cpu_ns start.reason none false) false x
              (ground arith)
      ]

close_open-err :
    (s : CpuChargeState) (o : Option CpuSessionRecord) (at : ℕ) (x : ChargesError)
    → close_open s o at ≡ err x
    → x ≡ overflow
close_open-err s none at x e = cc
close_open-err s (some r) at x e =
    ground (arith, close-err s r at recovered_unknown interrupted_session true x)

pub begin_state-err :
    (s : CpuChargeState) (start : CpuSessionStart) (x : ChargesError)
    → cpu_charges_start_valid start ≡ true
    → begin_state s start ≡ err x
    → x ≡ overflow
unfolding begin_state
begin_state-err s start x v e = go (close_open s s.session start.observed_at) refl e
  where
    go :
        (m : Result ChargesError CpuChargeState)
        → close_open s s.session start.observed_at ≡ m
        → (m >>= λ closed. cpu_limited_begin_state closed start) ≡ err x
        → x ≡ overflow
    go (ok c) em em' = limited_begin-err c start x v em'
    go (err y) em em' = close_open-err s s.session start.observed_at x (em ∙ em')

charge_waiting-err :
    (s : CpuChargeState) (r : CpuSessionRecord) (finish : Bool) (at self last : ℕ) (elapsed : ℤ)
    (x : ChargesError)
    → charge_waiting s r finish at self last elapsed ≡ err x
    → x ≡ overflow
unfolding charge_waiting
charge_waiting-err s r finish at self last elapsed x e =
    let owed = cpu_feedback_wait (pos (self - last)) elapsed in
    let s' = charged_state s (self - last) in
    let r' = sampled_record r self last in
    elim (Result-cases (cpu_charges_debt s' r' at owed)) [
      | inr (y, ey) ↦ ground (arith, ey, debt-err s' r' at owed y ey)
      | inl (n, en) ↦
          let (_, shape) = debt-eq s' n r' at owed en in
          ground (
            arith,
            en,
            shape,
            close-err n (owed_record r' owed) at finished graceful_tail_unobserved false x,
          )
    ]

charge_sample-err :
    (s : CpuChargeState) (r : CpuSessionRecord) (q : CpuSessionSample) (finish : Bool)
    (at self last : ℕ) (x : ChargesError)
    → is_some q.elapsed_ns ≡ true
    → charge_sample s r q finish at self last ≡ err x
    → x ≡ overflow
unfolding charge_sample
charge_sample-err s r q finish at self last x known e = elim (Option-cases q.elapsed_ns) [
  | inl missing ↦ ground arith
  | inr (n, en) ↦ ground (arith, en, charge_waiting-err s r finish at self last n x)
]

pub sample_state-err :
    (s : CpuChargeState) (r : CpuSessionRecord) (q : CpuSessionSample) (finish : Bool) (high : ℕ)
    (x : ChargesError) (l : ℕ)
    → r.last_self_cpu_ns ≡ some l
    → cpu_charges_sample_valid q ≡ true
    → cpu_limited_sample_state s r q finish high ≡ err x
    → x ≡ overflow
unfolding cpu_limited_sample_state
sample_state-err s r q finish high x l known v e =
    let noted = noted_record r q finish in
    let next = record s { clock_high_water = some (sample_instant q high); session = some noted } in
    elim (Bool-cases (reason_eq (sample_problem noted q high) no_reason)) [
      | inl fine ↦
          let ok_sample = sample_problem-Fine noted q high fine in
          let (input, _) = sample-input q v in
          let (self, es) =
            fine-known q.self_cpu_ns q.reason q.elapsed_ns input ok_sample.no_problem in
          charge_sample-err next noted q finish (sample_instant q high) self l x
            (fine-elapsed q self es ok_sample.no_problem) (ground arith)
      | inr bad ↦
          close-err next noted (sample_instant q high) unknown (sample_problem noted q high) false x
            (ground arith)
    ]

pub recover_state-err :
    (s : CpuChargeState) (r : CpuSessionRecord) (at : ℕ) (x : ChargesError)
    → recover_state s r at ≡ err x
    → x ≡ overflow
unfolding recover_state
recover_state-err s r at x e =
    close-err (record s { clock_high_water = some at }) r at recovered_unknown interrupted_session
      true x e

module _ (encoded_size : CpuChargeState → ℕ) where
  read-valid :
      (db : ChargesDb) (prior : CpuChargeState)
      → read_cpu_charges encoded_size db ≡ ok prior
      → prior.available ≡ true
      → valid_cpu_charges prior ≡ true
  unfolding read_cpu_charges cpu_charges_base
  read-valid db prior e v = ground arith

  pub commit-err :
      (db : ChargesDb) (next : CpuChargeState) (x : ChargesError)
      → valid_cpu_charges next ≡ true
      → commit_cpu_charges encoded_size db next ≡ err x
      → x ≡ overflow
  unfolding commit_cpu_charges
  commit-err db next x v e = ground arith

  commit-cases :
      {A : Type 0} (m : Result ChargesError A)
      → ((a : A) × (m ≡ ok a)) ⊎ ((x : ChargesError) × (m ≡ err x))
  commit-cases (ok a) = inl (a, refl)
  commit-cases (err x) = inr (x, refl)

  pub read-err :
      (db : ChargesDb) (x : ChargesError) → read_cpu_charges encoded_size db ≡ err x → x ≡ corrupt
  unfolding read_cpu_charges
  read-err db x e = ground arith

  begin_new-err :
      (st : Store) (db : ChargesDb) (prior : CpuChargeState) (start : CpuSessionStart) (h : ℕ)
      (x : ChargesError)
      → valid_cpu_charges prior ≡ true
      → prior.clock_high_water ≡ some h
      → cpu_charges_start_valid start ≡ true
      → begin_new encoded_size st db prior start ≡ err x
      → (x ≢ invalid) × (x ≢ nil_dereference)
  unfolding begin_new
  begin_new-err st db prior start h x v eh sv e = elim (commit-cases (begin_state prior start)) [
    | inl (n, en) ↦ elim (commit-cases (commit_cpu_charges encoded_size db n)) [
      | inl (db', ed) ↦ ground arith
      | inr (y, ey) ↦ ground (
        arith,
        begin_state-valid prior n start h v sv,
        commit-err db n y,
        valid-generation prior v,
      )
    ]
    | inr (y, ey) ↦ ground (arith, begin_state-err prior start y sv ey)
  ]

  -- The exact retry finds the session of a ledger that has one.
  begin_retry-err :
      (prior : CpuChargeState) (start : CpuSessionStart) (x : ChargesError)
      → valid_cpu_charges prior ≡ true
      → begin_retry prior start prior.session ≢ err x
  unfolding begin_retry
  begin_retry-err prior start x v e = elim (Bool-cases (prior.generation == 0)) [
    | inl none_yet ↦ ground arith
    | inr some_yet ↦ let (r, er) = valid-has_session prior v some_yet in ground (arith, er)
  ]

  -- BeginCPUSession with a valid start, whatever the database holds: it never fails because its own
  -- result is not a valid ledger, and never follows a nil pointer.
  pub begin_cpu_session_safe :
      (st : Store) (db : ChargesDb) (start : CpuSessionStart) (x : ChargesError)
      → cpu_charges_start_valid start ≡ true
      → begin_cpu_session encoded_size st db start ≡ err x
      → (x ≢ invalid) × (x ≢ nil_dereference)
  unfolding begin_cpu_session cpu_charges_writer bare_cpu_authority
  begin_cpu_session_safe st db start x sv e =
      elim (commit-cases (read_cpu_charges encoded_size db)) [
        | inr (y, ey) ↦ ground (arith, read-err db y)
        | inl (prior, ep) ↦ elim (Bool-cases prior.available) [
          | inr missing ↦ ground arith
          | inl there ↦
              let v = read-valid db prior ep there in
              let (h, eh, _) = valid-high prior v in
              elim (Result-cases (begin_retry prior start prior.session)) [
                | inl (again, er) ↦ ground (arith, er, begin_new-err st db prior start h x v eh sv)
                | inr (y, ey) ↦ elim (begin_retry-err prior start y v ey) [ ]
              ]
        ]
      ]

  sample_new-err :
      (db : ChargesDb) (prior : CpuChargeState) (r : CpuSessionRecord) (q : CpuSessionSample)
      (finish : Bool) (h : ℕ) (x : ChargesError)
      → valid_cpu_charges prior ≡ true
      → prior.session ≡ some r
      → prior.clock_high_water ≡ some h
      → cpu_charges_time h ≡ true
      → cpu_charges_sample_valid q ≡ true
      → sample_new encoded_size db prior r q finish ≡ err x
      → (x ≢ invalid) × (x ≢ nil_dereference)
  unfolding sample_new
  sample_new-err db prior r q finish h x v er eh th sv e =
      elim (Bool-cases (status_eq r.status active)) [
        | inr idle ↦ ground arith
        | inl live ↦
            let ra = status_eq-eq r.status active live in
            let (a, act) = valid-Active prior r h v er ra eh in
            let (l, known) = act.self_known in
            elim (commit-cases (cpu_limited_sample_state prior r q finish h)) [
              | inr (y, ey) ↦ ground (arith, sample_state-err prior r q finish h y l known sv ey)
              | inl (n, en) ↦
                  let nv =
                    cpu_limited_sample_state-valid prior n r q finish h h v er ra eh (omega arith)
                      th sv en in
                  elim (commit-cases (commit_cpu_charges encoded_size db n)) [
                    | inl (db', ed) ↦ ground arith
                    | inr (y, ey) ↦ ground (arith, commit-err db n y nv ey)
                  ]
            ]
      ]

  -- SampleCPUSession and FinishCPUSession, for any marker and any sample: they never fail because
  -- their own result is not a valid ledger, and never follow a nil pointer.
  pub sample_cpu_session_safe :
      (st : Store) (db : ChargesDb) (marker : CpuSessionMarker) (q : CpuSessionSample)
      (finish : Bool) (x : ChargesError)
      → sample_cpu_session encoded_size st db marker q finish ≡ err x
      → (x ≢ invalid) × (x ≢ nil_dereference)
  unfolding sample_cpu_session cpu_charges_writer bare_cpu_authority
  sample_cpu_session_safe st db marker q finish x e =
      elim (commit-cases (read_cpu_charges encoded_size db)) [
        | inr (y, ey) ↦ ground (arith, read-err db y)
        | inl (prior, ep) ↦ elim (Bool-cases prior.available) [
          | inr missing ↦ ground arith
          | inl there ↦
              let v = read-valid db prior ep there in
              let (h, eh, th) = valid-high prior v in
              elim (Option-cases prior.session) [
                | inl idle ↦ ground arith
                | inr (r, er) ↦ ground (arith, sample_new-err db prior r q finish h x v er eh th)
              ]
        ]
      ]

  recover_active-err :
      (db : ChargesDb) (prior : CpuChargeState) (at h : ℕ) (x : ChargesError)
      → valid_cpu_charges prior ≡ true
      → prior.clock_high_water ≡ some h
      → h ≤ at
      → cpu_charges_time at ≡ true
      → is_active prior.session ≡ true
      → recover_active encoded_size db prior at ≡ err x
      → (x ≢ invalid) × (x ≢ nil_dereference)
  unfolding recover_active
  recover_active-err db prior at h x v eh le t act e = elim (Option-cases prior.session) [
    | inl idle ↦ ground arith
    | inr (r, er) ↦
        let ra = status_eq-eq r.status active (ground arith) in
        elim (commit-cases (recover_state prior r at)) [
          | inr (y, ey) ↦ ground (arith, recover_state-err prior r at y ey)
          | inl (n, en) ↦
              let nv = recover_state-valid prior n r at h v er ra eh le t en in
              elim (commit-cases (commit_cpu_charges encoded_size db n)) [
                | inl (db', ed) ↦ ground arith
                | inr (y, ey) ↦ ground (arith, commit-err db n y nv ey)
              ]
        ]
  ]

  -- RecoverCPUSession at a representable instant, whatever the database holds: it never fails because
  -- its own result is not a valid ledger, and never follows a nil pointer.
  pub recover_cpu_session_safe :
      (st : Store) (db : ChargesDb) (at : ℕ) (x : ChargesError)
      → cpu_charges_time at ≡ true
      → recover_cpu_session encoded_size st db at ≡ err x
      → (x ≢ invalid) × (x ≢ nil_dereference)
  unfolding recover_cpu_session cpu_charges_writer bare_cpu_authority
  recover_cpu_session_safe st db at x t e = elim (commit-cases (read_cpu_charges encoded_size db)) [
    | inr (y, ey) ↦ ground (arith, read-err db y)
    | inl (prior, ep) ↦ elim (Bool-cases prior.available) [
      | inr missing ↦ ground arith
      | inl there ↦
          let v = read-valid db prior ep there in
          let (h, eh, _) = valid-high prior v in
          elim (Bool-cases (is_active prior.session)) [
            | inr idle ↦ ground arith
            | inl act ↦ ground (arith, recover_active-err db prior at h x v eh)
          ]
    ]
  ]
