-- ===== src/Admission/Safety.antt =====
-- BeginCPUSessionLimited, SampleCPUSessionLimited, FinishCPUSessionLimited,
-- RecoverCPUSessionLimited and OpenCPUTrackingGap as a whole
-- (internal/state/cpu_charge_admission_transitions.go): the errors they return.
use saga_rydd.Admission.Latch.{publish-eq, written}
use saga_rydd.Charges.Valid.{valid_cpu_charges}
use saga_rydd.Prelude.{
  ℕ, ◌+◌, ◌≤◌, ◌≡◌, refl, subst, ◌⊎◌, inl, inr, Bool, true, false, not, ◌&&◌, ◌||◌, Option, none,
  some, List, arith, ltb, ◌==◌, if◌then◌else◌, Result, ok, err, ◌>>=◌, ◌>>◌, refuse_if, or_else,
  Result-cases, Bool-cases, Option-cases,
}
use saga_rydd.Prelude.Int.{max_int64}
use saga_rydd.Charges.Types.{
  active, status_eq, overflow, stale, clock_rollback, CpuSessionSample, CpuSessionRecord,
  CpuChargeState, cpu_charges_sample_valid,
}
use saga_rydd.Charges.Ledger.{Store}
use saga_rydd.Charges.Open.{valid-generation, valid-has_session, closed-generation}
use saga_rydd.Admission.Types.{
  CpuLimitedSessionMarker, AdmissionError, cpu, CpuLimitedSessionStart, CpuTrackingGapRequest,
  CpuTrackingGapReceipt, CpuChargeAdmissionState, cpu_admission_time, valid_cpu_gap_request,
  valid_cpu_limited_start,
}
use saga_rydd.Admission.Steps.{
  begin_limited_state, sample_limited_state, recover_limited_state, gap_state,
}
use saga_rydd.Admission.Operations.{
  same_request, sample_limited_new, sample_cpu_session_limited, recover_limited_active,
  recover_cpu_session_limited, gap_new, open_cpu_tracking_gap, AdmissionDb, Fate, Published,
  publish, read_both, begin_limited_new, begin_cpu_session_limited, admission_writer, committed,
  lost, stored, with_outcome, ended, cpu_admission_outcome, viewed_outcome, closed_error, viewed,
}
use saga_rydd.Admission.Kept.{Parts, valid-Parts}
use saga_rydd.Admission.Valid.{
  valid_cpu_admission, is_present, current_request, request_valid, gap_valid, receipt_valid,
  gap_open_valid, gap_closed_valid, closed_unknown,
}
use saga_rydd.Admission.Sound.{
  status_eq-eq, is_internal, Sound, publish-err, read_both-valid, read_both-err,
  begin_limited_state-Sound, sample_limited_state-Sound, recover_limited_state-Sound,
  gap_state-Sound,
}

-- The chain of checks, one at a time.
guard-err :
    {A : Type 0} (g : Bool) (why : AdmissionError) (rest : Result AdmissionError A)
    (x : AdmissionError)
    → is_internal why ≡ false
    → (refuse_if g why >> rest) ≡ err x
    → (g ≡ false → rest ≡ err x → is_internal x ≡ false)
    → is_internal x ≡ false
guard-err true why rest x fine e k =
    let same : why ≡ x = cc in subst (λ y. is_internal y ≡ false) same fine
guard-err false why rest x fine e k = k refl e

or_else-err :
    {A B : Type 0} (o : Option A) (why : AdmissionError) (f : A → Result AdmissionError B)
    (x : AdmissionError) (value : A)
    → o ≡ some value
    → (or_else o why >>= f) ≡ err x
    → f value ≡ err x
or_else-err o why f x value known e = subst (λ k. (or_else k why >>= f) ≡ err x) known e

if-err :
    {A : Type 0} (b : Bool) (y n : Result AdmissionError A) (x : AdmissionError)
    → (if b then y else n) ≡ err x
    → (b ≡ true → y ≡ err x → is_internal x ≡ false)
    → (b ≡ false → n ≡ err x → is_internal x ≡ false)
    → is_internal x ≡ false
if-err true y n x e k k' = k refl e
if-err false y n x e k k' = k' refl e

-- A valid admission's revision is an int64.
module _ (state_digest : CpuChargeState → List ℕ) (gap_id : CpuTrackingGapRequest → List ℕ) where
  current_le :
      (a : CpuChargeAdmissionState) (c : CpuChargeState) (o : Option CpuLimitedSessionStart)
      → request_valid a c o ≡ true
      → is_present o ≡ true
      → (a.begin_applied_revision == a.policy_revision) ≡ true
      → a.policy_revision ≤ max_int64
  unfolding request_valid
  current_le a c none h b e = cc
  current_le a c (some q) h b e = ground arith

  gap_revision_le :
      (a : CpuChargeAdmissionState) (c : CpuChargeState) (act high : ℕ)
      (o : Option CpuTrackingGapReceipt)
      → gap_valid state_digest gap_id a c act high o ≡ true
      → (a.policy_revision ≤ max_int64) ⊎ (current_request a ≡ true)
  unfolding gap_valid receipt_valid gap_open_valid gap_closed_valid
  gap_revision_le a c act high none h = elim (Bool-cases (current_request a)) [
    | inl y ↦ inr y
    | inr n ↦ inl (ground arith)
  ]
  gap_revision_le a c act high (some r) h = elim (Bool-cases a.tracking_gap_open) [
    | inl opened ↦ inl (ground arith)
    | inr shut ↦ elim (Option-cases a.gap_closed_at) [
      | inl never ↦ inl (ground arith)
      | inr (closed, ec) ↦ inr (ground arith)
    ]
  ]

  policy_revision_le :
      (a : CpuChargeAdmissionState) (c : CpuChargeState) (act high : ℕ)
      → Parts state_digest gap_id a c act high
      → a.policy_revision ≤ max_int64
  policy_revision_le a c act high p = elim (gap_revision_le a c act high a.latest_gap p.gap) [
    | inl le ↦ le
    | inr now ↦ current_le a c a.begin_request p.request (ground arith) (ground arith)
  ]

-- A valid ledger whose last session is closed has that session.
outcome-ok :
    (c : CpuChargeState)
    → valid_cpu_charges c ≡ true
    → (o : Option AdmissionError) × (cpu_admission_outcome c ≡ ok o)
unfolding cpu_admission_outcome
outcome-ok c v = elim (Bool-cases (closed_unknown c.status)) [
  | inr going ↦ (none, rw going refl)
  | inl closed ↦
      let (r, er) = valid-has_session c v (closed-generation c v closed) in
      (some (closed_error r.closure_reason), rw (closed, er) refl)
]

viewed-outcome :
    (st : Store) (db : AdmissionDb) (c : CpuChargeState) (a : CpuChargeAdmissionState)
    → valid_cpu_charges c ≡ true
    → (p : Published) × (viewed_outcome st db c a ≡ ok p)
unfolding viewed_outcome
viewed-outcome st db c a v = let (o, eo) = outcome-ok c v in (viewed st db c a o, rw eo refl)

module _ (charges_size : CpuChargeState → ℕ) (admission_size : CpuChargeAdmissionState → ℕ)
    (state_digest : CpuChargeState → List ℕ) (gap_id : CpuTrackingGapRequest → List ℕ) where
  published-outcome :
      (fate : Fate) (st : Store) (db : AdmissionDb)
      (prior next : CpuChargeState × CpuChargeAdmissionState) (p : Published)
      → valid_cpu_charges next.0 ≡ true
      → publish charges_size admission_size state_digest gap_id fate st db prior next ≡ ok p
      → (p' : Published) × (with_outcome p ≡ ok p')
  unfolding with_outcome
  published-outcome fate st db prior next p v ep =
      subst (λ k. (p' : Published) × (with_outcome k ≡ ok p'))
        (publish-eq charges_size admission_size state_digest gap_id fate st db prior next p ep)
        (go fate)
    where
      go :
          (f : Fate)
          → (p' : Published) × (with_outcome (
                ended f st db
                  (written charges_size admission_size state_digest gap_id db next)
                  prior
                  next)
              ≡ ok p')
      go committed =
          let (o, eo) = outcome-ok next.0 v in
          (
            viewed st (written charges_size admission_size state_digest gap_id db next) next.0
                next.1 o,
            rw eo refl,
          )
      go lost = (_, refl)
      go stored = (_, refl)

  publish-Sound :
      {A : Type 0} (fate : Fate) (st : Store) (db : AdmissionDb)
      (prior : CpuChargeState × CpuChargeAdmissionState)
      (m : Result AdmissionError (CpuChargeState × CpuChargeAdmissionState))
      (k : CpuChargeState × CpuChargeAdmissionState → Published → A) (x : AdmissionError)
      → Sound charges_size admission_size state_digest gap_id m
      → (m >>= λ next.
          publish charges_size admission_size state_digest gap_id fate st db prior next >>= λ p.
          with_outcome p >>= λ p'. ok (k next p'))
        ≡ err x
      → is_internal x ≡ false
  publish-Sound fate st db prior m k x (inr (y, ey, fine)) e = ground (arith, ey, fine)
  publish-Sound fate st db prior m k x (inl (next, en, cv, av)) e =
      elim (Result-cases
        (publish charges_size admission_size state_digest gap_id fate st db prior next)) [
          | inl (p, ep) ↦
              let (p', ep') = published-outcome fate st db prior next p cv ep in
              ground (arith, en, ep, ep')
          | inr (y, ey) ↦ ground (
            arith,
            en,
            ey,
            publish-err charges_size admission_size state_digest gap_id fate st db prior next y cv
                av ey,
          )
        ]

  publish-last :
      (fate : Fate) (st : Store) (db : AdmissionDb)
      (prior : CpuChargeState × CpuChargeAdmissionState)
      (m : Result AdmissionError (CpuChargeState × CpuChargeAdmissionState)) (x : AdmissionError)
      → Sound charges_size admission_size state_digest gap_id m
      → (m >>= publish charges_size admission_size state_digest gap_id fate st db prior) ≡ err x
      → is_internal x ≡ false
  publish-last fate st db prior m x (inr (y, ey, fine)) e = ground (arith, ey, fine)
  publish-last fate st db prior m x (inl (next, en, cv, av)) e =
      publish-err charges_size admission_size state_digest gap_id fate st db prior next x cv av
        (ground (arith, en))

  admission-charges :
      (a : CpuChargeAdmissionState) (c : CpuChargeState)
      → valid_cpu_admission state_digest gap_id a c ≡ true
      → valid_cpu_charges c ≡ true
  admission-charges a c v =
      let (act, high, p) = valid-Parts state_digest gap_id a c v in p.charges_ok

  begin_limited_new-err :
      (fate : Fate) (st : Store) (db : AdmissionDb) (c : CpuChargeState)
      (a : CpuChargeAdmissionState) (q : CpuLimitedSessionStart) (x : AdmissionError)
      → valid_cpu_admission state_digest gap_id a c ≡ true
      → valid_cpu_limited_start q ≡ true
      → begin_limited_new charges_size admission_size state_digest gap_id fate st db c a q ≡ err x
      → is_internal x ≡ false
  unfolding begin_limited_new
  begin_limited_new-err fate st db c a q x v qv e =
      let (act, high, p) = valid-Parts state_digest gap_id a c v in
      let le = policy_revision_le state_digest gap_id a c act high p in
      let gen = valid-generation c p.charges_ok in
      guard-err
        (not (
          (q.start.expected_generation == c.generation)
          && (q.expected_policy_revision == a.policy_revision)))
        (cpu stale) _ x refl e
        λ same e₁.
          guard-err (ltb q.start.observed_at high) (cpu clock_rollback) _ x refl
            (or_else-err a.clock_high_water _ _ x high p.at_high e₁)
            λ on_time e₂. guard-err (status_eq c.status active) (cpu stale) _ x refl e₂ λ idle e₃.
              guard-err ((c.generation == max_int64) || (a.policy_revision == max_int64))
                (cpu overflow) _ x refl e₃
                λ room e₄.
                  publish-Sound fate st db (c, a) (begin_limited_state state_digest c a q) _ x
                    (begin_limited_state-Sound charges_size admission_size state_digest gap_id c a q
                      act high p qv (ground arith) (ground arith) (ground arith) idle (ground arith)
                      (ground arith))
                    e₄

  -- For a valid request, BeginCPUSessionLimited never fails because of a result of its own that its
  -- check refuses as invalid, and never at a nil pointer, whatever the database holds and however
  -- the commit ends.
  pub begin_cpu_session_limited_safe :
      (fate : Fate) (st : Store) (db : AdmissionDb) (q : CpuLimitedSessionStart)
      (x : AdmissionError)
      → valid_cpu_limited_start q ≡ true
      → begin_cpu_session_limited charges_size admission_size state_digest gap_id fate st db q
        ≡ err x
      → is_internal x ≡ false
  unfolding begin_cpu_session_limited admission_writer
  begin_cpu_session_limited_safe fate st db q x qv e =
      elim (Result-cases (read_both charges_size admission_size state_digest gap_id db)) [
        | inr (y, ey) ↦
            ground
              (arith, ey, read_both-err charges_size admission_size state_digest gap_id db y ey)
        | inl ((c, a), ec) ↦ ground (
          arith,
          ec,
          read_both-valid charges_size admission_size state_digest gap_id db c a ec,
          λ (v : valid_cpu_admission state_digest gap_id a c ≡ true).
              viewed-outcome st db c a (admission-charges a c v),
          λ (v : valid_cpu_admission state_digest gap_id a c ≡ true).
              begin_limited_new-err fate st db c a q x v qv,
        )
      ]

  sample_limited_new-err :
      (fate : Fate) (st : Store) (db : AdmissionDb) (c : CpuChargeState)
      (a : CpuChargeAdmissionState) (r : CpuSessionRecord) (q : CpuSessionSample) (finish : Bool)
      (x : AdmissionError)
      → valid_cpu_admission state_digest gap_id a c ≡ true
      → c.session ≡ some r
      → is_present a.begin_request ≡ true
      → cpu_charges_sample_valid q ≡ true
      → cpu_admission_time q.observed_at ≡ true
      → sample_limited_new charges_size admission_size state_digest gap_id fate st db c a r q finish
        ≡ err x
      → is_internal x ≡ false
  unfolding sample_limited_new
  sample_limited_new-err fate st db c a r q finish x v er begun qv t e =
      let (act, high, p) = valid-Parts state_digest gap_id a c v in
      guard-err (r.last_ordinal == max_int64) (cpu overflow) _ x refl e λ room e₁.
        guard-err (not (status_eq r.status active && (q.ordinal == r.last_ordinal + 1))) (cpu stale)
          _ x refl e₁
          λ next e₂.
            publish-Sound fate st db (c, a) (sample_limited_state state_digest c a r q finish) _ x
              (sample_limited_state-Sound charges_size admission_size state_digest gap_id c a r q
                finish act high p qv t er (status_eq-eq r.status active (ground arith)) begun)
              e₂

  request-present :
      (o : Option CpuLimitedSessionStart) (q : CpuLimitedSessionStart)
      → same_request charges_size admission_size state_digest gap_id o q ≡ true
      → is_present o ≡ true
  request-present none q h = cc
  request-present (some k) q h = refl

  -- A session that the policy began is there.
  request_valid-session :
      (c : CpuChargeState) (a : CpuChargeAdmissionState) (o : Option CpuLimitedSessionStart)
      → request_valid a c o ≡ true
      → c.session ≡ none
      → is_present o ≡ false
  unfolding request_valid
  request_valid-session c a none h missing = refl
  request_valid-session c a (some q) h missing = ground (arith, missing)

  begun-session :
      (c : CpuChargeState) (a : CpuChargeAdmissionState)
      → valid_cpu_admission state_digest gap_id a c ≡ true
      → c.session ≡ none
      → is_present a.begin_request ≡ false
  begun-session c a v missing =
      let (act, high, p) = valid-Parts state_digest gap_id a c v in
      request_valid-session c a a.begin_request p.request missing

  -- For any marker and any sample, SampleCPUSessionLimited and FinishCPUSessionLimited never fail
  -- because of a result of their own that is refused as invalid, and never at a nil pointer,
  -- whatever the database holds and however the commit ends.
  pub sample_cpu_session_limited_safe :
      (fate : Fate) (st : Store) (db : AdmissionDb) (m : CpuLimitedSessionMarker)
      (q : CpuSessionSample) (finish : Bool) (x : AdmissionError)
      → sample_cpu_session_limited charges_size admission_size state_digest gap_id fate st db m q
          finish
        ≡ err x
      → is_internal x ≡ false
  unfolding sample_cpu_session_limited admission_writer
  sample_cpu_session_limited_safe fate st db m q finish x e =
      elim (Result-cases (read_both charges_size admission_size state_digest gap_id db)) [
        | inr (y, ey) ↦
            ground
              (arith, ey, read_both-err charges_size admission_size state_digest gap_id db y ey)
        | inl ((c, a), ec) ↦ elim (Option-cases c.session) [
          | inr (r, er) ↦ ground (
            arith,
            ec,
            er,
            read_both-valid charges_size admission_size state_digest gap_id db c a ec,
            request-present a.begin_request m.request,
            λ (v : valid_cpu_admission state_digest gap_id a c ≡ true).
                viewed-outcome st db c a (admission-charges a c v),
            λ (v : valid_cpu_admission state_digest gap_id a c ≡ true)
                  (b : is_present a.begin_request ≡ true).
                sample_limited_new-err fate st db c a r q finish x v er b,
          )
          | inl missing ↦ ground (
            arith,
            ec,
            missing,
            read_both-valid charges_size admission_size state_digest gap_id db c a ec,
            request-present a.begin_request m.request,
            λ (v : valid_cpu_admission state_digest gap_id a c ≡ true). begun-session c a v missing,
          )
        ]
      ]

  recover_limited_active-err :
      (fate : Fate) (st : Store) (db : AdmissionDb) (c : CpuChargeState)
      (a : CpuChargeAdmissionState) (at : ℕ) (x : AdmissionError)
      → valid_cpu_admission state_digest gap_id a c ≡ true
      → cpu_admission_time at ≡ true
      → status_eq c.status active ≡ true
      → is_present a.begin_request ≡ true
      → recover_limited_active charges_size admission_size state_digest gap_id fate st db c a at
        ≡ err x
      → is_internal x ≡ false
  unfolding recover_limited_active
  recover_limited_active-err fate st db c a at x v t live begun e =
      let (act, high, p) = valid-Parts state_digest gap_id a c v in
      guard-err (ltb at high) (cpu clock_rollback) _ x refl
        (or_else-err a.clock_high_water _ _ x high p.at_high e)
        λ on_time e₁.
          publish-last fate st db (c, a) (recover_limited_state state_digest c a at) x
            (recover_limited_state-Sound charges_size admission_size state_digest gap_id c a at act
              high p t (ground arith) live begun)
            e₁

  gap_new-err :
      (fate : Fate) (st : Store) (db : AdmissionDb) (c : CpuChargeState)
      (a : CpuChargeAdmissionState) (q : CpuTrackingGapRequest) (act high : ℕ) (x : AdmissionError)
      → Parts state_digest gap_id a c act high
      → valid_cpu_gap_request q ≡ true
      → high ≤ q.observed_at
      → q.expected_generation ≡ c.generation
      → q.expected_policy_revision ≡ a.policy_revision
      → gap_new charges_size admission_size state_digest gap_id fate st db c a q ≡ err x
      → is_internal x ≡ false
  unfolding gap_new
  gap_new-err fate st db c a q act high x p qv le eg er e =
      let bound = policy_revision_le state_digest gap_id a c act high p in
      guard-err (a.policy_revision == max_int64) (cpu overflow) _ x refl e λ room e₁.
        publish-last fate st db (c, a) (gap_state state_digest c a q (gap_id q)) x
          (gap_state-Sound charges_size admission_size state_digest gap_id c a q act high p qv le eg
            er (ground arith))
          e₁

  -- At an instant that has both slots, RecoverCPUSessionLimited never fails because of a result of
  -- its own that is refused as invalid, and never at a nil pointer, provided that an active session
  -- in the database was begun under the policy.
  pub recover_cpu_session_limited_safe :
      (fate : Fate) (st : Store) (db : AdmissionDb) (at : ℕ) (x : AdmissionError)
      → cpu_admission_time at ≡ true
      → ((c : CpuChargeState) (a : CpuChargeAdmissionState)
          → (db.ledger.user_version == 16) ≡ true
          → read_both charges_size admission_size state_digest gap_id db ≡ ok (c, a)
          → status_eq c.status active ≡ true
          → is_present a.begin_request ≡ true)
      → recover_cpu_session_limited charges_size admission_size state_digest gap_id fate st db at
        ≡ err x
      → is_internal x ≡ false
  unfolding recover_cpu_session_limited admission_writer
  recover_cpu_session_limited_safe fate st db at x t policy e =
      elim (Result-cases (read_both charges_size admission_size state_digest gap_id db)) [
        | inr (y, ey) ↦
            ground
              (arith, ey, read_both-err charges_size admission_size state_digest gap_id db y ey)
        | inl ((c, a), ec) ↦ ground (
          arith,
          ec,
          read_both-valid charges_size admission_size state_digest gap_id db c a ec,
          policy c a,
          λ (v : valid_cpu_admission state_digest gap_id a c ≡ true)
                (l : status_eq c.status active ≡ true) (b : is_present a.begin_request ≡ true).
              recover_limited_active-err fate st db c a at x v t l b,
        )
      ]

  -- For a valid request, OpenCPUTrackingGap never fails because of a result of its own that its
  -- check refuses as invalid, and never at a nil pointer, whatever the database holds, with a
  -- session active or not.
  pub open_cpu_tracking_gap_safe :
      (fate : Fate) (st : Store) (db : AdmissionDb) (q : CpuTrackingGapRequest) (x : AdmissionError)
      → valid_cpu_gap_request q ≡ true
      → open_cpu_tracking_gap charges_size admission_size state_digest gap_id fate st db q ≡ err x
      → is_internal x ≡ false
  unfolding open_cpu_tracking_gap admission_writer
  open_cpu_tracking_gap_safe fate st db q x qv e =
      elim (Result-cases (read_both charges_size admission_size state_digest gap_id db)) [
        | inr (y, ey) ↦
            ground
              (arith, ey, read_both-err charges_size admission_size state_digest gap_id db y ey)
        | inl ((c, a), ec) ↦ elim (Bool-cases (db.ledger.user_version == 16)) [
          | inr other ↦ ground (arith, ec, other)
          | inl now ↦
              let v =
                read_both-valid charges_size admission_size state_digest gap_id db c a ec now in
              let (act, high, p) = valid-Parts state_digest gap_id a c v in
              ground (arith, ec, now, p.at_high, gap_new-err fate st db c a q act high x p qv)
        ]
      ]
