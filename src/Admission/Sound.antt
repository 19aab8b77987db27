-- ===== src/Admission/Sound.antt =====
-- The transitions of the period admission from a valid state: each gives two valid states, or fails
-- for a reason that is not its own (internal/state/cpu_charge_admission_transitions.go).
use saga_rydd.Prelude.{
  ℕ, ◌-◌, ◌≤◌, ◌<◌, ◌≡◌, refl, sym, ap, ◌∙◌, subst, ◌⊎◌, inl, inr, Bool, true, false, some, List,
  arith, ◌==◌, Result, ok, err, ◌>>=◌, Result-cases, Bool-cases,
}
use saga_rydd.Prelude.Int.{max_int64}
use saga_rydd.Charges.Types.{
  active, unknown, recovered_unknown, status_eq, ChargeStatus, invalid, overflow, nil_dereference,
  ChargesError, CpuSessionStart, CpuSessionSample, CpuSessionRecord, CpuChargeState,
  cpu_charges_time, cpu_charges_start_valid, cpu_charges_sample_valid,
}
use saga_rydd.Charges.Valid.{valid_cpu_charges, untracked_valid}
use saga_rydd.Charges.Steps.{
  begin_state, close_open, cpu_limited_begin_state, cpu_limited_sample_state, sample_instant,
  recover_state,
}
use saga_rydd.Charges.Ledger.{Store, read_cpu_charges, commit_cpu_charges}
use saga_rydd.Charges.Open.{valid-cases, valid-high, valid-Active, record_valid-status}
use saga_rydd.Charges.Begin.{begin_state-valid, recover_state-valid}
use saga_rydd.Charges.Sample.{cpu_limited_sample_state-valid}
use saga_rydd.Charges.Safety.{
  limited_begin-err, sample_state-err, recover_state-err, commit-err, read-err,
}
use saga_rydd.Admission.Types.{
  AdmissionError, invalid_admission, cpu, CpuLimitedSessionStart, CpuTrackingGapRequest,
  CpuChargeAdmissionState, cpu_admission_time, valid_cpu_gap_request, valid_cpu_limited_start,
}
use saga_rydd.Admission.Charged.{
  begin-Advanced, sample-Advanced, recover-Advanced, recover_state-charge,
}
use saga_rydd.Admission.Steps.{
  bind_cpu_admission, gap_opened, roll_cpu_admission, rolled, limited, begin_limited_state,
  sample_limited_state, recover_limited_state, gap_state, interrupted,
}
use saga_rydd.Admission.Operations.{
  AdmissionDb, Fate, publish, write_cpu_admission, read_both, read_cpu_admission,
}
use saga_rydd.Admission.Rolls.{roll_cpu_admission-Rolls}
use saga_rydd.Admission.Kept.{Parts, Parts-valid, Parts-Rolls, clocks_valid-Advanced}
use saga_rydd.Admission.Advance.{Parts-advanced}
use saga_rydd.Admission.Limited.{Parts-begun}
use saga_rydd.Admission.Gaps.{Parts-gapped}
use saga_rydd.Admission.Valid.{clocks_valid, valid_cpu_admission, is_present}

-- The failures that an operation may not bring about itself: a result that its own check refuses,
-- or a nil pointer.
abbrev pub is_internal : AdmissionError → Bool
is_internal invalid_admission = true
is_internal (cpu invalid) = true
is_internal (cpu nil_dereference) = true
is_internal _ = false

pub status_eq-eq : (x y : ChargeStatus) → status_eq x y ≡ true → x ≡ y
status_eq-eq x y e = ground arith

close_open-idle :
    (c : CpuChargeState) (at : ℕ)
    → valid_cpu_charges c ≡ true
    → status_eq c.status active ≡ false
    → close_open c c.session at ≡ ok c
unfolding untracked_valid
close_open-idle c at v idle =
    let (a, h, eh, b, cases) = valid-cases c v in
    elim cases [
      | inl (z, u) ↦ ground arith
      | inr (r, p) ↦
          let same = record_valid-status c a h r p.record_ok in
          rw p.at_session (ground (arith, same))
    ]

-- With no active session, BeginCPUSession has none to close.
begin_state-idle :
    (c : CpuChargeState) (start : CpuSessionStart)
    → valid_cpu_charges c ≡ true
    → status_eq c.status active ≡ false
    → begin_state c start ≡ cpu_limited_begin_state c start
unfolding begin_state
begin_state-idle c start v idle =
    ap (λ m. m >>= λ closed. cpu_limited_begin_state closed start)
      (close_open-idle c start.observed_at v idle)

-- An active ledger has an active session.
pub active-session :
    (c : CpuChargeState)
    → valid_cpu_charges c ≡ true
    → status_eq c.status active ≡ true
    → (r : CpuSessionRecord) × (c.session ≡ some r) × (r.status ≡ active)
unfolding untracked_valid
active-session c v live =
    let (a, h, eh, b, cases) = valid-cases c v in
    elim cases [
      | inl (z, u) ↦ ground arith
      | inr (r, p) ↦ (
        r,
        p.at_session,
        record_valid-status c a h r p.record_ok ∙ status_eq-eq c.status active live,
      )
    ]

later-clocks :
    (c : CpuChargeState) (act high at : ℕ)
    → clocks_valid c act high ≡ true
    → high ≤ at
    → cpu_admission_time at ≡ true
    → clocks_valid c act at ≡ true
unfolding clocks_valid
later-clocks c act high at h le t = ground arith

gap_time :
    (q : CpuTrackingGapRequest)
    → valid_cpu_gap_request q ≡ true
    → cpu_admission_time q.observed_at ≡ true
unfolding valid_cpu_gap_request
gap_time q h = ground arith

recovered-idle : (s : ChargeStatus) → s ≡ recovered_unknown → status_eq s active ≡ false
recovered-idle s e = rw e refl

charges_time : (at : ℕ) → cpu_admission_time at ≡ true → cpu_charges_time at ≡ true
unfolding cpu_admission_time
charges_time at t = ground arith

instant_time :
    (q : CpuSessionSample) (high : ℕ)
    → cpu_admission_time q.observed_at ≡ true
    → cpu_admission_time high ≡ true
    → (cpu_admission_time (sample_instant q high) ≡ true) × (high ≤ sample_instant q high)
instant_time q high t th = (ground arith, ground arith)

high_time :
    (c : CpuChargeState) (act high : ℕ)
    → clocks_valid c act high ≡ true
    → cpu_admission_time high ≡ true
unfolding clocks_valid
high_time c act high h = ground arith

module _ (charges_size : CpuChargeState → ℕ) (admission_size : CpuChargeAdmissionState → ℕ)
    (state_digest : CpuChargeState → List ℕ) (gap_id : CpuTrackingGapRequest → List ℕ) where
  pub publish-err :
      (fate : Fate) (st : Store) (db : AdmissionDb)
      (prior next : CpuChargeState × CpuChargeAdmissionState) (x : AdmissionError)
      → valid_cpu_charges next.0 ≡ true
      → valid_cpu_admission state_digest gap_id next.1 next.0 ≡ true
      → publish charges_size admission_size state_digest gap_id fate st db prior next ≡ err x
      → is_internal x ≡ false
  unfolding publish write_cpu_admission
  publish-err fate st db prior next x cv av e =
      elim (Result-cases (commit_cpu_charges charges_size db.ledger next.0)) [
        | inl (l, el) ↦ ground (arith, el, av)
        | inr (y, ey) ↦ ground (arith, ey, commit-err charges_size db.ledger next.0 y cv ey)
      ]

  pub read_both-valid :
      (db : AdmissionDb) (c : CpuChargeState) (a : CpuChargeAdmissionState)
      → read_both charges_size admission_size state_digest gap_id db ≡ ok (c, a)
      → (db.ledger.user_version == 16) ≡ true
      → valid_cpu_admission state_digest gap_id a c ≡ true
  unfolding read_both read_cpu_admission
  read_both-valid db c a e v = elim (Result-cases (read_cpu_charges charges_size db.ledger)) [
    | inr (y, ey) ↦ ground (arith, ey)
    | inl (n, en) ↦ ground (arith, en)
  ]

  pub read_both-err :
      (db : AdmissionDb) (x : AdmissionError)
      → read_both charges_size admission_size state_digest gap_id db ≡ err x
      → is_internal x ≡ false
  unfolding read_both read_cpu_admission
  read_both-err db x e = elim (Result-cases (read_cpu_charges charges_size db.ledger)) [
    | inr (y, ey) ↦ ground (arith, ey, read-err charges_size db.ledger y ey)
    | inl (n, en) ↦ ground (arith, en)
  ]

  -- A transition gives two valid states, or fails for a reason that is not its own.
  abbrev pub Sound : Result AdmissionError (CpuChargeState × CpuChargeAdmissionState) → Type 0
  Sound m =
      ((next : CpuChargeState × CpuChargeAdmissionState) × (m ≡ ok next)
        × (valid_cpu_charges next.0 ≡ true)
        × (valid_cpu_admission state_digest gap_id next.1 next.0 ≡ true))
      ⊎ ((x : AdmissionError) × (m ≡ err x) × (is_internal x ≡ false))

  overflow-not_internal : (y : ChargesError) → y ≡ overflow → is_internal (cpu y) ≡ false
  overflow-not_internal y e = rw e refl

  start_valid :
      (q : CpuLimitedSessionStart)
      → valid_cpu_limited_start q ≡ true
      → (cpu_charges_start_valid q.start ≡ true) × (cpu_admission_time q.start.observed_at ≡ true)
  unfolding valid_cpu_limited_start
  start_valid q h = (ground arith, ground arith)

  charges_le :
      (a : CpuChargeAdmissionState) (c : CpuChargeState) (act high : ℕ)
      → Parts state_digest gap_id a c act high
      → (h : ℕ) × (c.clock_high_water ≡ some h) × (h ≤ high)
  unfolding clocks_valid
  charges_le a c act high p =
      let (h, eh, t) = valid-high c p.charges_ok in (h, eh, ground (arith, eh, p.clocks))

  pub begin_limited_state-Sound :
      (c : CpuChargeState) (a : CpuChargeAdmissionState) (q : CpuLimitedSessionStart) (act high : ℕ)
      → Parts state_digest gap_id a c act high
      → valid_cpu_limited_start q ≡ true
      → q.start.expected_generation ≡ c.generation
      → q.expected_policy_revision ≡ a.policy_revision
      → high ≤ q.start.observed_at
      → status_eq c.status active ≡ false
      → c.generation < max_int64
      → a.policy_revision < max_int64
      → Sound (begin_limited_state state_digest c a q)
  unfolding begin_limited_state
  begin_limited_state-Sound c a q act high p qv eg er le idle room room' =
      let (sv, t) = start_valid q qv in
      elim (Result-cases (cpu_limited_begin_state c q.start)) [
        | inr (y, ey) ↦
            inr (cpu y, rw ey refl, overflow-not_internal y (limited_begin-err c q.start y sv ey))
        | inl (nc, en) ↦
            let (moved, closes, gen) = begin-Advanced c nc q.start en in
            let closed = status_eq nc.status unknown in
            let r =
              roll_cpu_admission-Rolls (limited a q) high q.start.observed_at
                (nc.charged_cpu_ns - c.charged_cpu_ns) closed c.charged_cpu_ns p.at_high le t
                p.hour_ok p.day_ok moved.fits in
            let (h, eh, hl) = charges_le a c act high p in
            let cv =
              begin_state-valid c nc q.start h p.charges_ok sv eg room eh (omega arith)
                (begin_state-idle c q.start p.charges_ok idle ∙ en) in
            let parts =
              Parts-begun state_digest gap_id a c nc act high q closed p moved le qv t cv r gen er
                room' (λ u. sym closes ∙ u) in
            inl (
              _,
              rw (en, r.result) refl,
              cv,
              Parts-valid state_digest gap_id _ nc act q.start.observed_at parts,
            )
      ]

  sample_limited_state-eq :
      (c nc : CpuChargeState) (a na : CpuChargeAdmissionState) (rec : CpuSessionRecord)
      (q : CpuSessionSample) (finish : Bool) (high at : ℕ)
      → a.clock_high_water ≡ some high
      → cpu_limited_sample_state c rec q finish high ≡ ok nc
      → nc.clock_high_water ≡ some at
      → roll_cpu_admission a at (nc.charged_cpu_ns - c.charged_cpu_ns) (status_eq nc.status unknown)
        ≡ ok na
      → sample_limited_state state_digest c a rec q finish
        ≡ ok (nc, bind_cpu_admission state_digest na nc)
  unfolding sample_limited_state
  sample_limited_state-eq c nc a na rec q finish high at eh en ea er =
      ground (arith, eh, en, ea, er)

  sample_limited_state-fails :
      (c : CpuChargeState) (a : CpuChargeAdmissionState) (rec : CpuSessionRecord)
      (q : CpuSessionSample) (finish : Bool) (high : ℕ) (y : ChargesError)
      → a.clock_high_water ≡ some high
      → cpu_limited_sample_state c rec q finish high ≡ err y
      → sample_limited_state state_digest c a rec q finish ≡ err (cpu y)
  unfolding sample_limited_state
  sample_limited_state-fails c a rec q finish high y eh ey = ground (arith, eh, ey)

  recover_limited_state-eq :
      (c nc : CpuChargeState) (a na : CpuChargeAdmissionState) (rec : CpuSessionRecord) (at : ℕ)
      → c.session ≡ some rec
      → recover_state c rec at ≡ ok nc
      → roll_cpu_admission a at 0 true ≡ ok na
      → recover_limited_state state_digest c a at ≡ ok (nc, bind_cpu_admission state_digest na nc)
  unfolding recover_limited_state
  recover_limited_state-eq c nc a na rec at es en er = ground (arith, es, en, er)

  recover_limited_state-fails :
      (c : CpuChargeState) (a : CpuChargeAdmissionState) (rec : CpuSessionRecord) (at : ℕ)
      (y : ChargesError)
      → c.session ≡ some rec
      → recover_state c rec at ≡ err y
      → recover_limited_state state_digest c a at ≡ err (cpu y)
  unfolding recover_limited_state
  recover_limited_state-fails c a rec at y es ey = ground (arith, es, ey)

  gap_state-eq :
      (c nc : CpuChargeState) (a na : CpuChargeAdmissionState) (q : CpuTrackingGapRequest)
      → interrupted c q.observed_at ≡ ok nc
      → roll_cpu_admission a q.observed_at 0 true ≡ ok na
      → gap_state state_digest c a q (gap_id q)
        ≡ ok (nc, bind_cpu_admission state_digest (gap_opened na q (gap_id q)) nc)
  unfolding gap_state
  gap_state-eq c nc a na q en er = rw (en, er) refl

  interrupted-active :
      (c : CpuChargeState) (rec : CpuSessionRecord) (at : ℕ)
      → c.session ≡ some rec
      → status_eq c.status active ≡ true
      → interrupted c at ≡ recover_state c rec at
  interrupted-active c rec at es live = ground (arith, es, live)

  gap_state-fails :
      (c : CpuChargeState) (a : CpuChargeAdmissionState) (q : CpuTrackingGapRequest)
      (y : ChargesError)
      → interrupted c q.observed_at ≡ err y
      → gap_state state_digest c a q (gap_id q) ≡ err (cpu y)
  unfolding gap_state
  gap_state-fails c a q y ey = rw ey refl

  pub sample_limited_state-Sound :
      (c : CpuChargeState) (a : CpuChargeAdmissionState) (rec : CpuSessionRecord)
      (q : CpuSessionSample) (finish : Bool) (act high : ℕ)
      → Parts state_digest gap_id a c act high
      → cpu_charges_sample_valid q ≡ true
      → cpu_admission_time q.observed_at ≡ true
      → c.session ≡ some rec
      → rec.status ≡ active
      → is_present a.begin_request ≡ true
      → Sound (sample_limited_state state_digest c a rec q finish)
  unfolding sample_limited_state
  sample_limited_state-Sound c a rec q finish act high p qv tq er ra begun =
      let (h, eh, hl) = charges_le a c act high p in
      let th = high_time c act high p.clocks in
      let (t, le) = instant_time q high tq th in
      let (k, live) = valid-Active c rec h p.charges_ok er ra eh in
      let (l, known) = live.self_known in
      let st : c.status ≡ active = live.running.ledger_active in
      elim (Result-cases (cpu_limited_sample_state c rec q finish high)) [
        | inr (y, ey) ↦ inr (
          cpu y,
          sample_limited_state-fails c a rec q finish high y p.at_high ey,
          overflow-not_internal y (sample_state-err c rec q finish high y l known qv ey),
        )
        | inl (nc, en) ↦
            let (moved, closes, gen) = sample-Advanced c nc rec q finish high st en in
            let closed = status_eq nc.status unknown in
            let r =
              Parts-Rolls state_digest gap_id a c nc act high (sample_instant q high) rec.start
                closed p moved le t in
            let cv =
              cpu_limited_sample_state-valid c nc rec q finish h high p.charges_ok er ra eh hl
                (charges_time high th) qv en in
            let parts =
              Parts-advanced state_digest gap_id a c nc act high (sample_instant q high) rec.start
                closed p moved le t cv r gen st begun (rw er refl) (λ u. sym closes ∙ u) in
            inl (
              _,
              sample_limited_state-eq c nc a _ rec q finish high (sample_instant q high) p.at_high
                  en moved.at_high r.result,
              cv,
              Parts-valid state_digest gap_id _ nc act (sample_instant q high) parts,
            )
      ]

  pub recover_limited_state-Sound :
      (c : CpuChargeState) (a : CpuChargeAdmissionState) (at act high : ℕ)
      → Parts state_digest gap_id a c act high
      → cpu_admission_time at ≡ true
      → high ≤ at
      → status_eq c.status active ≡ true
      → is_present a.begin_request ≡ true
      → Sound (recover_limited_state state_digest c a at)
  unfolding recover_limited_state
  recover_limited_state-Sound c a at act high p t le live begun =
      let (h, eh, hl) = charges_le a c act high p in
      let st : c.status ≡ active = status_eq-eq c.status active live in
      let (rec, er, ra) = active-session c p.charges_ok live in
      elim (Result-cases (recover_state c rec at)) [
        | inr (y, ey) ↦ inr (
          cpu y,
          recover_limited_state-fails c a rec at y er ey,
          overflow-not_internal y (recover_state-err c rec at y ey),
        )
        | inl (nc, en) ↦
            let (moved, closes, gen) = recover-Advanced c nc rec at en in
            let r =
              Parts-Rolls state_digest gap_id a c nc act high at rec.start true p moved le t in
            let zero_charge : nc.charged_cpu_ns - c.charged_cpu_ns ≡ 0 =
              omega (arith, recover_state-charge c nc rec at en) in
            let result =
              subst
                (λ n.
                  roll_cpu_admission a at n true
                  ≡ ok (rolled a at r.hour_rolled.after r.day_rolled.after))
                zero_charge r.result in
            let cv =
              recover_state-valid c nc rec at h p.charges_ok er ra eh (omega arith)
                (charges_time at t) en in
            let parts =
              Parts-advanced state_digest gap_id a c nc act high at rec.start true p moved le t cv r
                gen st begun (rw er refl) (λ u. refl) in
            inl (
              _,
              recover_limited_state-eq c nc a _ rec at er en result,
              cv,
              Parts-valid state_digest gap_id _ nc act at parts,
            )
      ]

  pub gap_state-Sound :
      (c : CpuChargeState) (a : CpuChargeAdmissionState) (q : CpuTrackingGapRequest) (act high : ℕ)
      → Parts state_digest gap_id a c act high
      → valid_cpu_gap_request q ≡ true
      → high ≤ q.observed_at
      → q.expected_generation ≡ c.generation
      → q.expected_policy_revision ≡ a.policy_revision
      → a.policy_revision < max_int64
      → Sound (gap_state state_digest c a q (gap_id q))
  unfolding gap_state
  gap_state-Sound c a q act high p qv le eg er room =
      let t = gap_time q qv in
      let r =
        roll_cpu_admission-Rolls a high q.observed_at 0 true c.charged_cpu_ns p.at_high le t
          p.hour_ok p.day_ok (omega arith) in
      elim (Bool-cases (status_eq c.status active)) [
        | inr idle ↦
            let clocks = later-clocks c act high q.observed_at p.clocks le t in
            let parts =
              Parts-gapped state_digest gap_id a c c act high q p le qv p.charges_ok clocks r refl
                refl refl idle er eg room in
            inl (
              _,
              gap_state-eq c c a _ q (rw idle refl) r.result,
              p.charges_ok,
              Parts-valid state_digest gap_id _ c act q.observed_at parts,
            )
        | inl live ↦
            let (h, eh, hl) = charges_le a c act high p in
            let (rec, es, ra) = active-session c p.charges_ok live in
            elim (Result-cases (recover_state c rec q.observed_at)) [
              | inr (y, ey) ↦ inr (
                cpu y,
                gap_state-fails c a q y (interrupted-active c rec q.observed_at es live ∙ ey),
                overflow-not_internal y (recover_state-err c rec q.observed_at y ey),
              )
              | inl (nc, en) ↦
                  let (moved, st, gen) = recover-Advanced c nc rec q.observed_at en in
                  let cv =
                    recover_state-valid c nc rec q.observed_at h p.charges_ok es ra eh (omega arith)
                      (charges_time q.observed_at t) en in
                  let clocks =
                    clocks_valid-Advanced state_digest gap_id a c nc act high q.observed_at
                      rec.start p moved le t in
                  let parts =
                    Parts-gapped state_digest gap_id a c nc act high q p le qv cv clocks r gen
                      (recover_state-charge c nc rec q.observed_at en)
                      (moved.same_start ∙ rw es refl) (recovered-idle nc.status st) er eg room in
                  inl (
                    _,
                    gap_state-eq c nc a _ q (interrupted-active c rec q.observed_at es live ∙ en)
                        r.result,
                    cv,
                    Parts-valid state_digest gap_id _ nc act q.observed_at parts,
                  )
            ]
      ]
