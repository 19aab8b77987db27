-- ===== src/Admission/Latch.antt =====
-- cpuAdmissionOperation.publish (internal/state/cpu_charge_admission_transitions.go): what a commit
-- leaves, and what one that reports an error leaves to do.
use saga_rydd.Prelude.{
  ℕ, ◌≡◌, refl, subst, ◌≢◌, inl, inr, Bool, true, false, Option, some, List, arith, ltb, ◌==◌, ok,
  err, ok_inj, Bool-cases,
}
use saga_rydd.Charges.Types.{CpuChargeState, authority_refused, read_only}
use saga_rydd.Charges.Valid.{valid_cpu_charges}
use saga_rydd.Charges.Ledger.{max_json_bytes, Store, read_cpu_charges, commit_cpu_charges}
use saga_rydd.Admission.Types.{
  AdmissionError, cpu, CpuChargeLimits, CpuLimitedSessionStart, CpuTrackingGapRequest,
  CpuLimitedSessionMarker, CpuChargeAdmissionState,
}
use saga_rydd.Charges.Types.{CpuSessionSample}
use saga_rydd.Admission.Valid.{valid_cpu_admission}
use saga_rydd.Admission.Operations.{
  AdmissionDb, Fate, committed, lost, stored, Published, admission_writer, publish,
  write_cpu_admission, read_both, read_cpu_admission, ended, max_admission_bytes,
  activate_cpu_charge_admission, begin_cpu_session_limited, sample_cpu_session_limited,
  recover_cpu_session_limited, open_cpu_tracking_gap,
}

-- A Store whose authority is refused publishes nothing.
refused_writer :
    (st : Store)
    → st.cpu_authority_refused ≡ true
    → (y : AdmissionError) × (admission_writer st ≡ err y)
unfolding admission_writer
refused_writer st h = elim (Bool-cases st.readonly) [
  | inl r ↦ (cpu read_only, rw r refl)
  | inr w ↦ (cpu authority_refused, rw (w, h) refl)
]

module _ (charges_size : CpuChargeState → ℕ) (admission_size : CpuChargeAdmissionState → ℕ)
    (state_digest : CpuChargeState → List ℕ) (gap_id : CpuTrackingGapRequest → List ℕ) where
  abbrev pub written : AdmissionDb → CpuChargeState × CpuChargeAdmissionState → AdmissionDb
  written db next = record db {
    ledger = record db.ledger { saved = some next.0 };
    row = some (record { policy_revision = next.1.policy_revision; state = next.1 });
  }

  pub publish-eq :
      (fate : Fate) (st : Store) (db : AdmissionDb)
      (prior next : CpuChargeState × CpuChargeAdmissionState) (p : Published)
      → publish charges_size admission_size state_digest gap_id fate st db prior next ≡ ok p
      → ended fate st db (written db next) prior next ≡ p
  unfolding publish write_cpu_admission commit_cpu_charges
  publish-eq fate st db prior next p e = ok_inj {E = AdmissionError} (ground arith)

  publish-checks :
      (fate : Fate) (st : Store) (db : AdmissionDb)
      (prior next : CpuChargeState × CpuChargeAdmissionState) (p : Published)
      → publish charges_size admission_size state_digest gap_id fate st db prior next ≡ ok p
      → (valid_cpu_charges next.0 ≡ true)
        × (ltb max_json_bytes (charges_size next.0) ≡ false)
        × (valid_cpu_admission state_digest gap_id next.1 next.0 ≡ true)
        × (ltb max_admission_bytes (admission_size next.1) ≡ false)
  unfolding publish write_cpu_admission commit_cpu_charges
  publish-checks fate st db prior next p e =
      (ground arith, ground arith, ground arith, ground arith)

  written-read_both :
      (db : AdmissionDb) (next : CpuChargeState × CpuChargeAdmissionState) (at : ℕ)
      → (db.ledger.user_version == 16) ≡ true
      → db.applied_at ≡ some at
      → next.1.activated_at ≡ some at
      → (valid_cpu_charges next.0 ≡ true)
      → (ltb max_json_bytes (charges_size next.0) ≡ false)
      → (valid_cpu_admission state_digest gap_id next.1 next.0 ≡ true)
      → (ltb max_admission_bytes (admission_size next.1) ≡ false)
      → read_both charges_size admission_size state_digest gap_id (written db next)
        ≡ ok (next.0, next.1)
  unfolding read_both read_cpu_admission read_cpu_charges
  written-read_both db next at v ea en c₁ c₂ c₃ c₄ = ground arith

  -- The reader repeats the writer's tests.
  pub publish-read_both :
      (fate : Fate) (st : Store) (db : AdmissionDb)
      (prior next : CpuChargeState × CpuChargeAdmissionState) (p : Published) (at : ℕ)
      → (db.ledger.user_version == 16) ≡ true
      → db.applied_at ≡ some at
      → next.1.activated_at ≡ some at
      → publish charges_size admission_size state_digest gap_id fate st db prior next ≡ ok p
      → p.publication_failed ≡ false
      → read_both charges_size admission_size state_digest gap_id p.db_after ≡ ok (next.0, next.1)
  publish-read_both committed st db prior next p at v ea en e f =
      let (c₁, c₂, c₃, c₄) = publish-checks committed st db prior next p e in
      subst
        (λ k.
          read_both charges_size admission_size state_digest gap_id k.db_after
          ≡ ok (next.0, next.1))
        (publish-eq committed st db prior next p e)
        (written-read_both db next at v ea en c₁ c₂ c₃ c₄)
  publish-read_both lost st db prior next p at v ea en e f =
      let same = publish-eq lost st db prior next p e in cc
  publish-read_both stored st db prior next p at v ea en e f =
      let same = publish-eq stored st db prior next p e in cc

  publish-latch :
      (fate : Fate) (st : Store) (db : AdmissionDb)
      (prior next : CpuChargeState × CpuChargeAdmissionState) (p : Published)
      → publish charges_size admission_size state_digest gap_id fate st db prior next ≡ ok p
      → p.publication_failed ≡ true
      → p.store_after.cpu_authority_refused ≡ true
  publish-latch committed st db prior next p e f =
      let same = publish-eq committed st db prior next p e in cc
  publish-latch lost st db prior next p e f =
      let same = publish-eq lost st db prior next p e in
      subst (λ k. k.store_after.cpu_authority_refused ≡ true) same refl
  publish-latch stored st db prior next p e f =
      let same = publish-eq stored st db prior next p e in
      subst (λ k. k.store_after.cpu_authority_refused ≡ true) same refl

  -- An operation of a Store whose authority is refused gives no result.
  begin_refused :
      (st : Store)
      → st.cpu_authority_refused ≡ true
      → (fate : Fate) (db : AdmissionDb) (q : CpuLimitedSessionStart)
        (r : Option CpuLimitedSessionMarker × Published)
      → begin_cpu_session_limited charges_size admission_size state_digest gap_id fate st db q
        ≢ ok r
  unfolding begin_cpu_session_limited
  begin_refused st h fate db q r e = let (y, ey) = refused_writer st h in ground (arith, ey)

  sample_refused :
      (st : Store)
      → st.cpu_authority_refused ≡ true
      → (fate : Fate) (db : AdmissionDb) (m : CpuLimitedSessionMarker) (q : CpuSessionSample)
        (finish : Bool) (r : Published)
      → sample_cpu_session_limited charges_size admission_size state_digest gap_id fate st db m q
          finish
        ≢ ok r
  unfolding sample_cpu_session_limited
  sample_refused st h fate db m q finish r e =
      let (y, ey) = refused_writer st h in ground (arith, ey)

  recover_refused :
      (st : Store)
      → st.cpu_authority_refused ≡ true
      → (fate : Fate) (db : AdmissionDb) (at : ℕ) (r : Published)
      → recover_cpu_session_limited charges_size admission_size state_digest gap_id fate st db at
        ≢ ok r
  unfolding recover_cpu_session_limited
  recover_refused st h fate db at r e = let (y, ey) = refused_writer st h in ground (arith, ey)

  gap_refused :
      (st : Store)
      → st.cpu_authority_refused ≡ true
      → (fate : Fate) (db : AdmissionDb) (q : CpuTrackingGapRequest) (r : Published)
      → open_cpu_tracking_gap charges_size admission_size state_digest gap_id fate st db q ≢ ok r
  unfolding open_cpu_tracking_gap
  gap_refused st h fate db q r e = let (y, ey) = refused_writer st h in ground (arith, ey)

  activate_refused :
      (st : Store)
      → st.cpu_authority_refused ≡ true
      → (fate : Fate) (db : AdmissionDb) (at : ℕ) (limits : CpuChargeLimits) (r : Published)
      → activate_cpu_charge_admission charges_size admission_size state_digest gap_id fate st db at
          limits
        ≢ ok r
  unfolding activate_cpu_charge_admission
  activate_refused st h fate db at limits r e =
      let (y, ey) = refused_writer st h in ground (arith, ey)

  -- After a publication whose commit reported an error, the Store never again begins, samples,
  -- recovers, opens a gap or activates: each such call fails, for any arguments and any database.
  pub publish_refuses :
      (fate : Fate) (st : Store) (db : AdmissionDb)
      (prior next : CpuChargeState × CpuChargeAdmissionState) (p : Published)
      → publish charges_size admission_size state_digest gap_id fate st db prior next ≡ ok p
      → p.publication_failed ≡ true
      → (fate' : Fate) (db' : AdmissionDb) (start : CpuLimitedSessionStart)
        (m : CpuLimitedSessionMarker) (q : CpuSessionSample) (finish : Bool) (at : ℕ)
        (gap : CpuTrackingGapRequest) (limits : CpuChargeLimits) (r : Published)
        (marked : Option CpuLimitedSessionMarker × Published)
      → (begin_cpu_session_limited charges_size admission_size state_digest gap_id fate'
            p.store_after db' start
          ≢ ok marked)
        × (sample_cpu_session_limited charges_size admission_size state_digest gap_id fate'
              p.store_after db' m q finish
            ≢ ok r)
        × (recover_cpu_session_limited charges_size admission_size state_digest gap_id fate'
              p.store_after db' at
            ≢ ok r)
        × (open_cpu_tracking_gap charges_size admission_size state_digest gap_id fate' p.store_after
              db' gap
            ≢ ok r)
        × (activate_cpu_charge_admission charges_size admission_size state_digest gap_id fate'
              p.store_after db' at limits
            ≢ ok r)
  publish_refuses fate st db prior next p e f fate' db' start m q finish at gap limits r marked =
      let h = publish-latch fate st db prior next p e f in
      (
        begin_refused p.store_after h fate' db' start marked,
        sample_refused p.store_after h fate' db' m q finish r,
        recover_refused p.store_after h fate' db' at r,
        gap_refused p.store_after h fate' db' gap r,
        activate_refused p.store_after h fate' db' at limits r,
      )
