-- ===== src/Admission/Runs.antt =====
-- Any sequence of calls of the period admission on one database
-- (internal/state/cpu_charge_admission_transitions.go): every active session was begun under the policy.
use saga_rydd.Prelude.{
  ℕ, ◌+◌, ◌-◌, ◌≡◌, refl, sym, ap, ◌∙◌, subst, inl, inr, Bool, true, false, not, ◌&&◌, ◌||◌, Option,
  none, some, List, arith, ltb, ◌==◌, if◌then◌else◌, Result, ok, ◌>>◌, refuse_if, or_else,
  >>=-eq-ok, ok_inj, Bool-cases, ◌>>=◌,
}
use saga_rydd.Prelude.Int.{max_int64}
use saga_rydd.Charges.Types.{
  cpu_charges_sample_valid, stale, overflow, clock_rollback, unknown, nil_dereference, active,
  status_eq, CpuChargeState, CpuSessionSample, CpuSessionRecord,
}
use saga_rydd.Charges.Steps.{cpu_limited_begin_state, cpu_limited_sample_state, recover_state}
use saga_rydd.Charges.Ledger.{sample_retry, Store, read_cpu_charges}
use saga_rydd.Admission.Types.{
  valid_cpu_limited_start, valid_cpu_gap_request, cpu_admission_limits_valid, unavailable_admission,
  invalid_admission, AdmissionError, cpu, of_charges, CpuChargeLimits, CpuLimitedSessionStart,
  CpuTrackingGapRequest, CpuLimitedSessionMarker, CpuChargeAdmissionState, cpu_admission_time,
  cpu_admission_slots,
}
use saga_rydd.Admission.Valid.{no_limits, is_present}
use saga_rydd.Admission.Steps.{
  limited, roll_cpu_admission, bind_cpu_admission, interrupted, begin_limited_state,
  sample_limited_state, recover_limited_state, gap_state, activated_admission,
}
use saga_rydd.Admission.Operations.{
  admission_writer, AdmissionDb, Fate, committed, lost, stored, Published, cpu_admission_outcome,
  with_outcome, publish, read_both, read_cpu_admission, same_request, activate_new,
  activate_cpu_charge_admission, begin_limited_new, begin_cpu_session_limited, sample_limited_new,
  sample_cpu_session_limited, recover_limited_active, recover_cpu_session_limited, gap_retry,
  gap_new, open_cpu_tracking_gap, viewed_outcome,
}
use saga_rydd.Admission.Latch.{written, publish-eq}

-- The chain of checks, one at a time.
guard-ok :
    {A : Type 0} (g : Bool) (why : AdmissionError) (rest : Result AdmissionError A) (r : A)
    → (refuse_if g why >> rest) ≡ ok r
    → rest ≡ ok r
guard-ok true why rest r e = cc
guard-ok false why rest r e = e

guard-passed :
    {A : Type 0} (g : Bool) (why : AdmissionError) (rest : Result AdmissionError A) (r : A)
    → (refuse_if g why >> rest) ≡ ok r
    → g ≡ false
guard-passed true why rest r e = cc
guard-passed false why rest r e = refl

absurd-active :
    (c : CpuChargeState) {b : Bool}
    → status_eq c.status active ≡ false
    → status_eq c.status active ≡ true
    → b ≡ true
absurd-active c idle live = cc

viewed-db :
    (st : Store) (db : AdmissionDb) (c : CpuChargeState) (a : CpuChargeAdmissionState)
    (p : Published)
    → viewed_outcome st db c a ≡ ok p
    → p.db_after ≡ db
unfolding viewed_outcome
viewed-db st db c a p e =
    let (o, eo, e₁) = >>=-eq-ok (cpu_admission_outcome c) _ e in
    ap (λ k. k.db_after) (sym (ok_inj {E = AdmissionError} e₁))

with_outcome-db : (p p' : Published) → with_outcome p ≡ ok p' → p'.db_after ≡ p.db_after
unfolding with_outcome
with_outcome-db p p' e = elim (Bool-cases p.publication_failed) [
  | inl y ↦ ground arith
  | inr n ↦
      let steps : (cpu_admission_outcome p.charges >>= λ outcome.
      ok (record p { outcome = outcome }))
          ≡ ok p' =
        ground arith in
      let (o, eo, e₁) = >>=-eq-ok (cpu_admission_outcome p.charges) _ steps in
      ap (λ k. k.db_after) (sym (ok_inj {E = AdmissionError} e₁))
]

module _ (charges_size : CpuChargeState → ℕ) (admission_size : CpuChargeAdmissionState → ℕ)
    (state_digest : CpuChargeState → List ℕ) (gap_id : CpuTrackingGapRequest → List ℕ) where
  -- What is active was begun under the policy.
  abbrev pub Begun : CpuChargeState → CpuChargeAdmissionState → Type 0
  Begun c a = status_eq c.status active ≡ true → is_present a.begin_request ≡ true

  abbrev pub Policy : AdmissionDb → Type 0
  Policy db =
      (c : CpuChargeState) (a : CpuChargeAdmissionState)
      → (db.ledger.user_version == 16) ≡ true
      → read_both charges_size admission_size state_digest gap_id db ≡ ok (c, a)
      → Begun c a

  written-Policy :
      (db : AdmissionDb) (next : CpuChargeState × CpuChargeAdmissionState)
      → Begun next.0 next.1
      → Policy (written charges_size admission_size state_digest gap_id db next)
  unfolding read_both read_cpu_admission read_cpu_charges
  written-Policy db next b c a v e live =
      let same : c ≡ next.0 = ground arith in
      let same' : a ≡ next.1 = ground arith in
      subst (λ k. is_present k.begin_request ≡ true) (sym same')
        (b (subst (λ k. status_eq k.status active ≡ true) same live))

  publish-Policy :
      (fate : Fate) (st : Store) (db : AdmissionDb)
      (prior next : CpuChargeState × CpuChargeAdmissionState) (p : Published)
      → publish charges_size admission_size state_digest gap_id fate st db prior next ≡ ok p
      → Begun next.0 next.1
      → Policy db
      → Policy p.db_after
  publish-Policy committed st db prior next p e b before =
      subst (λ k. Policy k.db_after)
        (publish-eq charges_size admission_size state_digest gap_id committed st db prior next p e)
        (written-Policy db next b)
  publish-Policy lost st db prior next p e b before =
      subst (λ k. Policy k.db_after)
        (publish-eq charges_size admission_size state_digest gap_id lost st db prior next p e)
        before
  publish-Policy stored st db prior next p e b before =
      subst (λ k. Policy k.db_after)
        (publish-eq charges_size admission_size state_digest gap_id stored st db prior next p e)
        (written-Policy db next b)

  roll-request :
      (a na : CpuChargeAdmissionState) (at charge : ℕ) (closed : Bool)
      → roll_cpu_admission a at charge closed ≡ ok na
      → na.begin_request ≡ a.begin_request
  unfolding roll_cpu_admission
  roll-request a na at charge closed e = ground arith

  begin-present :
      (c : CpuChargeState) (a : CpuChargeAdmissionState) (q : CpuLimitedSessionStart)
      (next : CpuChargeState × CpuChargeAdmissionState)
      → begin_limited_state state_digest c a q ≡ ok next
      → is_present next.1.begin_request ≡ true
  unfolding begin_limited_state bind_cpu_admission
  begin-present c a q next e =
      let (nc, en, e₁) = >>=-eq-ok (of_charges (cpu_limited_begin_state c q.start)) _ e in
      let (na, er, e₂) =
        >>=-eq-ok
          (roll_cpu_admission (limited a q) q.start.observed_at
            (nc.charged_cpu_ns - c.charged_cpu_ns) (status_eq nc.status unknown))
          _ e₁ in
      let kept =
        roll-request (limited a q) na q.start.observed_at (nc.charged_cpu_ns - c.charged_cpu_ns)
          (status_eq nc.status unknown) er in
      ground (arith, kept, e₂)

  sample-request :
      (c : CpuChargeState) (a : CpuChargeAdmissionState) (r : CpuSessionRecord)
      (q : CpuSessionSample) (finish : Bool) (next : CpuChargeState × CpuChargeAdmissionState)
      → sample_limited_state state_digest c a r q finish ≡ ok next
      → next.1.begin_request ≡ a.begin_request
  unfolding sample_limited_state bind_cpu_admission
  sample-request c a r q finish next e =
      let (high, eh, e₁) = >>=-eq-ok (or_else a.clock_high_water (cpu nil_dereference)) _ e in
      let (nc, en, e₂) = >>=-eq-ok (of_charges (cpu_limited_sample_state c r q finish high)) _ e₁ in
      let (at, ea, e₃) = >>=-eq-ok (or_else nc.clock_high_water (cpu nil_dereference)) _ e₂ in
      let (na, er, e₄) =
        >>=-eq-ok
          (roll_cpu_admission a at (nc.charged_cpu_ns - c.charged_cpu_ns)
            (status_eq nc.status unknown))
          _ e₃ in
      let kept =
        roll-request a na at (nc.charged_cpu_ns - c.charged_cpu_ns) (status_eq nc.status unknown)
          er in
      ground (arith, kept, e₄)

  recover-request :
      (c : CpuChargeState) (a : CpuChargeAdmissionState) (at : ℕ)
      (next : CpuChargeState × CpuChargeAdmissionState)
      → recover_limited_state state_digest c a at ≡ ok next
      → next.1.begin_request ≡ a.begin_request
  unfolding recover_limited_state bind_cpu_admission
  recover-request c a at next e =
      let (r, er, e₁) = >>=-eq-ok (or_else c.session (cpu nil_dereference)) _ e in
      let (nc, en, e₂) = >>=-eq-ok (of_charges (recover_state c r at)) _ e₁ in
      let (na, ea, e₃) = >>=-eq-ok (roll_cpu_admission a at 0 true) _ e₂ in
      ground (arith, roll-request a na at 0 true ea, e₃)

  gap-Begun :
      (c : CpuChargeState) (a : CpuChargeAdmissionState) (q : CpuTrackingGapRequest)
      (next : CpuChargeState × CpuChargeAdmissionState)
      → gap_state state_digest c a q (gap_id q) ≡ ok next
      → Begun c a
      → Begun next.0 next.1
  unfolding gap_state bind_cpu_admission
  gap-Begun c a q next e b live =
      let (nc, en, e₁) = >>=-eq-ok (of_charges (interrupted c q.observed_at)) _ e in
      let (na, ea, e₂) = >>=-eq-ok (roll_cpu_admission a q.observed_at 0 true) _ e₁ in
      let kept = roll-request a na q.observed_at 0 true ea in
      elim (Bool-cases (status_eq c.status active)) [
        | inl was ↦ let there = b was in ground (arith, kept, e₂, there)
        | inr idle ↦ ground (arith, kept, e₂, idle, en, live)
      ]

  begin-Policy :
      (fate : Fate) (st : Store) (db : AdmissionDb) (c : CpuChargeState)
      (a : CpuChargeAdmissionState) (q : CpuLimitedSessionStart)
      (r : Option CpuLimitedSessionMarker × Published)
      → begin_limited_new charges_size admission_size state_digest gap_id fate st db c a q ≡ ok r
      → Policy db
      → Policy r.1.db_after
  unfolding begin_limited_new
  begin-Policy fate st db c a q r e before =
      let e₁ =
        guard-ok
          (not (
            (q.start.expected_generation == c.generation)
            && (q.expected_policy_revision == a.policy_revision)))
          (cpu stale) _ r e in
      let (high, eh, e₂) = >>=-eq-ok (or_else a.clock_high_water (cpu nil_dereference)) _ e₁ in
      let e₃ = guard-ok (ltb q.start.observed_at high) (cpu clock_rollback) _ r e₂ in
      let e₄ = guard-ok (status_eq c.status active) (cpu stale) _ r e₃ in
      let e₅ =
        guard-ok ((c.generation == max_int64) || (a.policy_revision == max_int64)) (cpu overflow) _
          r e₄ in
      let (next, en, e₆) = >>=-eq-ok (begin_limited_state state_digest c a q) _ e₅ in
      let (p, ep, e₇) =
        >>=-eq-ok (publish charges_size admission_size state_digest gap_id fate st db (c, a) next) _
          e₆ in
      let after =
        publish-Policy fate st db (c, a) next p ep (λ live. begin-present c a q next en) before in
      let (p', ep', e₈) = >>=-eq-ok (with_outcome p) _ e₇ in
      let same : p'.db_after ≡ r.1.db_after =
        ap (λ k. k.1.db_after) (ok_inj {E = AdmissionError} e₈) in
      subst Policy (sym (with_outcome-db p p' ep') ∙ same) after

  sample-Policy :
      (fate : Fate) (st : Store) (db : AdmissionDb) (c : CpuChargeState)
      (a : CpuChargeAdmissionState) (rec : CpuSessionRecord) (q : CpuSessionSample) (finish : Bool)
      (r : Published)
      → sample_limited_new charges_size admission_size state_digest gap_id fate st db c a rec q
          finish
        ≡ ok r
      → is_present a.begin_request ≡ true
      → Policy db
      → Policy r.db_after
  unfolding sample_limited_new
  sample-Policy fate st db c a rec q finish r e there before =
      let e₁ = guard-ok (rec.last_ordinal == max_int64) (cpu overflow) _ r e in
      let e₂ =
        guard-ok (not (status_eq rec.status active && (q.ordinal == rec.last_ordinal + 1)))
          (cpu stale) _ r e₁ in
      let (next, en, e₃) = >>=-eq-ok (sample_limited_state state_digest c a rec q finish) _ e₂ in
      let (p, ep, e₄) =
        >>=-eq-ok (publish charges_size admission_size state_digest gap_id fate st db (c, a) next) _
          e₃ in
      let b =
        subst (λ o. is_present o ≡ true) (sym (sample-request c a rec q finish next en)) there in
      let after = publish-Policy fate st db (c, a) next p ep (λ live. b) before in
      let (p', ep', e₅) = >>=-eq-ok (with_outcome p) _ e₄ in
      let same : p'.db_after ≡ r.db_after = ap (λ k. k.db_after) (ok_inj {E = AdmissionError} e₅) in
      subst Policy (sym (with_outcome-db p p' ep') ∙ same) after

  recover-Policy :
      (fate : Fate) (st : Store) (db : AdmissionDb) (c : CpuChargeState)
      (a : CpuChargeAdmissionState) (at : ℕ) (r : Published)
      → recover_limited_active charges_size admission_size state_digest gap_id fate st db c a at
        ≡ ok r
      → is_present a.begin_request ≡ true
      → Policy db
      → Policy r.db_after
  unfolding recover_limited_active
  recover-Policy fate st db c a at r e there before =
      let (high, eh, e₁) = >>=-eq-ok (or_else a.clock_high_water (cpu nil_dereference)) _ e in
      let e₂ = guard-ok (ltb at high) (cpu clock_rollback) _ r e₁ in
      let (next, en, ep) = >>=-eq-ok (recover_limited_state state_digest c a at) _ e₂ in
      let b = subst (λ o. is_present o ≡ true) (sym (recover-request c a at next en)) there in
      publish-Policy fate st db (c, a) next r ep (λ live. b) before

  gap-Policy :
      (fate : Fate) (st : Store) (db : AdmissionDb) (c : CpuChargeState)
      (a : CpuChargeAdmissionState) (q : CpuTrackingGapRequest) (r : Published)
      → gap_new charges_size admission_size state_digest gap_id fate st db c a q ≡ ok r
      → Begun c a
      → Policy db
      → Policy r.db_after
  unfolding gap_new
  gap-Policy fate st db c a q r e b before =
      let e₁ = guard-ok (a.policy_revision == max_int64) (cpu overflow) _ r e in
      let (next, en, ep) = >>=-eq-ok (gap_state state_digest c a q (gap_id q)) _ e₁ in
      publish-Policy fate st db (c, a) next r ep (gap-Begun c a q next en b) before

  -- What is not the last version is changed by an activation alone.
  activate-Policy :
      (fate : Fate) (st : Store) (db : AdmissionDb) (c : CpuChargeState)
      (a : CpuChargeAdmissionState) (at : ℕ) (limits : CpuChargeLimits) (r : Published)
      → activate_new charges_size admission_size state_digest gap_id fate st db c a at limits ≡ ok r
      → Policy db
      → Policy r.db_after
  unfolding activate_new
  activate-Policy fate st db c a at limits r e before =
      let e₁ =
        guard-ok (not ((db.ledger.user_version == 15) && c.available)) unavailable_admission _ r
          e in
      let e₂ = guard-ok (no_limits limits) invalid_admission _ r e₁ in
      let idle = guard-passed (status_eq c.status active) (cpu stale) _ r e₂ in
      let e₃ = guard-ok (status_eq c.status active) (cpu stale) _ r e₂ in
      let (high, eh, e₄) = >>=-eq-ok (or_else c.clock_high_water (cpu nil_dereference)) _ e₃ in
      let e₅ = guard-ok (ltb at high) (cpu clock_rollback) _ r e₄ in
      let (slots, es, e₆) = >>=-eq-ok (cpu_admission_slots at) _ e₅ in
      let migrated : AdmissionDb = record db {
        ledger = record db.ledger { user_version = 16 };
        applied_at = some at;
      } in
      let next : CpuChargeState × CpuChargeAdmissionState =
        (c, activated_admission state_digest c at limits slots.0 slots.1) in
      let (p, ep, e₇) =
        >>=-eq-ok
          (publish charges_size admission_size state_digest gap_id fate st migrated (c, a) next) _
          e₆ in
      let same = ap (λ k. k.db_after) (ok_inj {E = AdmissionError} e₇) in
      subst Policy same
        (after fate st migrated db (c, a) next p ep (λ live. absurd-active c idle live) before)
    where
      after :
          (fate : Fate) (st : Store) (m db : AdmissionDb)
          (prior next : CpuChargeState × CpuChargeAdmissionState) (p : Published)
          → publish charges_size admission_size state_digest gap_id fate st m prior next ≡ ok p
          → Begun next.0 next.1
          → Policy db
          → Policy
              (if p.publication_failed
                then record p { db_after = elim fate [ lost ↦ db | _ ↦ p.db_after ] }
                else p).db_after
      after committed st m db prior next p ep b before =
          subst
            (λ k.
              Policy
                (if k.publication_failed
                  then record k { db_after = elim committed [ lost ↦ db | _ ↦ k.db_after ] }
                  else k).db_after)
            (publish-eq charges_size admission_size state_digest gap_id committed st m prior next p
              ep)
            (written-Policy m next b)
      after lost st m db prior next p ep b before =
          subst
            (λ k.
              Policy
                (if k.publication_failed
                  then record k { db_after = elim lost [ lost ↦ db | _ ↦ k.db_after ] }
                  else k).db_after)
            (publish-eq charges_size admission_size state_digest gap_id lost st m prior next p ep)
            (before)
      after stored st m db prior next p ep b before =
          subst
            (λ k.
              Policy
                (if k.publication_failed
                  then record k { db_after = elim stored [ lost ↦ db | _ ↦ k.db_after ] }
                  else k).db_after)
            (publish-eq charges_size admission_size state_digest gap_id stored st m prior next p ep)
            (written-Policy m next b)

  request-begun :
      (o : Option CpuLimitedSessionStart) (q : CpuLimitedSessionStart)
      → same_request charges_size admission_size state_digest gap_id o q ≡ true
      → is_present o ≡ true
  request-begun none q h = cc
  request-begun (some k) q h = refl

  if-Policy :
      {A : Type 0} (g : Bool) (y n : Result AdmissionError A) (db_of : A → AdmissionDb) (r : A)
      → (if g then y else n) ≡ ok r
      → (g ≡ true → y ≡ ok r → Policy (db_of r))
      → (g ≡ false → n ≡ ok r → Policy (db_of r))
      → Policy (db_of r)
  if-Policy true y n db_of r e k k' = k refl e
  if-Policy false y n db_of r e k k' = k' refl e

  pub begin_call-Policy :
      (fate : Fate) (st : Store) (db : AdmissionDb) (q : CpuLimitedSessionStart)
      (r : Option CpuLimitedSessionMarker × Published)
      → begin_cpu_session_limited charges_size admission_size state_digest gap_id fate st db q
        ≡ ok r
      → Policy db
      → Policy r.1.db_after
  unfolding begin_cpu_session_limited
  begin_call-Policy fate st db q r e before =
      let e₁ = guard-ok (not (valid_cpu_limited_start q)) invalid_admission _ r e in
      let (w, ew, e₂) = >>=-eq-ok (admission_writer st) _ e₁ in
      let (both, eb, e₃) =
        >>=-eq-ok (read_both charges_size admission_size state_digest gap_id db) _ e₂ in
      let e₄ = guard-ok (not (db.ledger.user_version == 16)) unavailable_admission _ r e₃ in
      if-Policy
        (same_request charges_size admission_size state_digest gap_id both.1.begin_request q) _ _
        (λ k. k.1.db_after) r e₄
        (λ same done.
          let (p, ep, e₅) = >>=-eq-ok (viewed_outcome st db both.0 both.1) _ done in
          let kept : p.db_after ≡ r.1.db_after =
            ap (λ k. k.1.db_after) (ok_inj {E = AdmissionError} e₅) in
          subst Policy (sym (viewed-db st db both.0 both.1 p ep) ∙ kept) before)
        (λ other done. begin-Policy fate st db both.0 both.1 q r done before)

  pub sample_call-Policy :
      (fate : Fate) (st : Store) (db : AdmissionDb) (m : CpuLimitedSessionMarker)
      (q : CpuSessionSample) (finish : Bool) (r : Published)
      → sample_cpu_session_limited charges_size admission_size state_digest gap_id fate st db m q
          finish
        ≡ ok r
      → Policy db
      → Policy r.db_after
  unfolding sample_cpu_session_limited
  sample_call-Policy fate st db m q finish r e before =
      let e₁ =
        guard-ok
          (not (
            (m.store == st.handle)
            && ltb 0 m.generation
            && ltb 0 m.revision
            && valid_cpu_limited_start m.request
            && cpu_charges_sample_valid q
            && cpu_admission_time q.observed_at))
          (cpu stale) _ r e in
      let (w, ew, e₂) = >>=-eq-ok (admission_writer st) _ e₁ in
      let (both, eb, e₃) =
        >>=-eq-ok (read_both charges_size admission_size state_digest gap_id db) _ e₂ in
      let e₄ = guard-ok (not (db.ledger.user_version == 16)) unavailable_admission _ r e₃ in
      let g : Bool = not (
        not both.1.tracking_gap_open
        && (both.1.policy_revision == m.revision)
        && (both.0.generation == m.generation)
        && same_request charges_size admission_size state_digest gap_id both.1.begin_request
            m.request) in
      let current = guard-passed g (cpu stale) _ r e₄ in
      let e₅ = guard-ok g (cpu stale) _ r e₄ in
      let (rec, er, e₆) = >>=-eq-ok (or_else both.0.session (cpu nil_dereference)) _ e₅ in
      if-Policy (sample_retry rec q finish rec.last_sample) _ _ (λ k. k.db_after) r e₆
        (λ same done. subst Policy (sym (viewed-db st db both.0 both.1 r done)) before)
        (λ other done.
          sample-Policy fate st db both.0 both.1 rec q finish r done
            (request-begun both.1.begin_request m.request (ground (arith, current))) before)

  pub recover_call-Policy :
      (fate : Fate) (st : Store) (db : AdmissionDb) (at : ℕ) (r : Published)
      → recover_cpu_session_limited charges_size admission_size state_digest gap_id fate st db at
        ≡ ok r
      → Policy db
      → Policy r.db_after
  unfolding recover_cpu_session_limited
  recover_call-Policy fate st db at r e before =
      let e₁ = guard-ok (not (cpu_admission_time at)) invalid_admission _ r e in
      let (w, ew, e₂) = >>=-eq-ok (admission_writer st) _ e₁ in
      let (both, eb, e₃) =
        >>=-eq-ok (read_both charges_size admission_size state_digest gap_id db) _ e₂ in
      let current =
        guard-passed (not (db.ledger.user_version == 16)) unavailable_admission _ r e₃ in
      let e₄ = guard-ok (not (db.ledger.user_version == 16)) unavailable_admission _ r e₃ in
      if-Policy (status_eq both.0.status active) _ _ (λ k. k.db_after) r e₄
        (λ live done.
          recover-Policy fate st db both.0 both.1 at r done
            (before both.0 both.1 (ground (arith, current)) eb live) before)
        (λ idle done. subst Policy (ap (λ k. k.db_after) (ok_inj {E = AdmissionError} done)) before)

  pub gap_call-Policy :
      (fate : Fate) (st : Store) (db : AdmissionDb) (q : CpuTrackingGapRequest) (r : Published)
      → open_cpu_tracking_gap charges_size admission_size state_digest gap_id fate st db q ≡ ok r
      → Policy db
      → Policy r.db_after
  unfolding open_cpu_tracking_gap
  gap_call-Policy fate st db q r e before =
      let e₁ = guard-ok (not (valid_cpu_gap_request q)) invalid_admission _ r e in
      let (w, ew, e₂) = >>=-eq-ok (admission_writer st) _ e₁ in
      let (both, eb, e₃) =
        >>=-eq-ok (read_both charges_size admission_size state_digest gap_id db) _ e₂ in
      let current =
        guard-passed (not (db.ledger.user_version == 16)) unavailable_admission _ r e₃ in
      let e₄ = guard-ok (not (db.ledger.user_version == 16)) unavailable_admission _ r e₃ in
      let g : Bool = not (
        (q.expected_generation == both.0.generation)
        && (q.expected_policy_revision == both.1.policy_revision)) in
      if-Policy (gap_retry charges_size admission_size state_digest gap_id both.1 q) _ _
        (λ k. k.db_after) r e₄
        (λ same done. subst Policy (ap (λ k. k.db_after) (ok_inj {E = AdmissionError} done)) before)
        (λ other done.
          let e₅ = guard-ok g (cpu stale) _ r done in
          let (high, eh, e₆) =
            >>=-eq-ok (or_else both.1.clock_high_water (cpu nil_dereference)) _ e₅ in
          let e₇ = guard-ok (ltb q.observed_at high) (cpu clock_rollback) _ r e₆ in
          if-Policy both.1.tracking_gap_open _ _ (λ k. k.db_after) r e₇
            (λ same done'.
              subst Policy (ap (λ k. k.db_after) (ok_inj {E = AdmissionError} done')) before)
            (λ shut done'.
              gap-Policy fate st db both.0 both.1 q r done'
                (before both.0 both.1 (ground (arith, current)) eb) before))

  pub activate_call-Policy :
      (fate : Fate) (st : Store) (db : AdmissionDb) (at : ℕ) (limits : CpuChargeLimits)
      (r : Published)
      → activate_cpu_charge_admission charges_size admission_size state_digest gap_id fate st db at
          limits
        ≡ ok r
      → Policy db
      → Policy r.db_after
  unfolding activate_cpu_charge_admission
  activate_call-Policy fate st db at limits r e before =
      let e₁ =
        guard-ok (not (cpu_admission_limits_valid limits && cpu_admission_time at))
          invalid_admission _ r e in
      let (w, ew, e₂) = >>=-eq-ok (admission_writer st) _ e₁ in
      let (both, eb, e₃) =
        >>=-eq-ok (read_both charges_size admission_size state_digest gap_id db) _ e₂ in
      if-Policy (db.ledger.user_version == 16) _ _ (λ k. k.db_after) r e₃
        (λ same done. subst Policy (ap (λ k. k.db_after) (ok_inj {E = AdmissionError} done)) before)
        (λ other done. activate-Policy fate st db both.0 both.1 at limits r done before)
