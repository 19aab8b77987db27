-- ===== src/Admission/Histories.antt =====
-- The calls of the period admission in any order, with any arguments, over restarts and with any end of
-- each commit (internal/state/cpu_charge_admission_transitions.go).
use saga_rydd.Prelude.{ℕ, ◌≡◌, refl, Bool, true, false, List, [], ◌∷◌, ◌==◌, Result, ok, err}
use saga_rydd.Charges.Types.{CpuChargeState, CpuSessionSample}
use saga_rydd.Charges.Ledger.{Store}
use saga_rydd.Admission.Types.{
  AdmissionError, CpuChargeLimits, CpuLimitedSessionStart, CpuTrackingGapRequest,
  CpuLimitedSessionMarker, CpuChargeAdmissionState, cpu_admission_time,
}
use saga_rydd.Admission.Operations.{
  AdmissionDb, Fate, activate_cpu_charge_admission, begin_cpu_session_limited,
  sample_cpu_session_limited, recover_cpu_session_limited, open_cpu_tracking_gap,
}
use saga_rydd.Admission.Sound.{is_internal}
use saga_rydd.Admission.Safety.{recover_cpu_session_limited_safe}
use saga_rydd.Admission.Runs.{
  Policy, begin_call-Policy, sample_call-Policy, recover_call-Policy, gap_call-Policy,
  activate_call-Policy,
}

pub data Call : Type 0 where
  activates : ℕ → CpuChargeLimits → Call
  begins : CpuLimitedSessionStart → Call
  samples : CpuLimitedSessionMarker → CpuSessionSample → Bool → Call
  recovers : ℕ → Call
  opens_gap : CpuTrackingGapRequest → Call

-- A call that fails leaves the database as it was.
abbrev pub db_or :
    {A : Type 0} → (A → AdmissionDb) → AdmissionDb → Result AdmissionError A → AdmissionDb
db_or db_of db (err why) = db
db_or db_of db (ok p) = db_of p

module _ (charges_size : CpuChargeState → ℕ) (admission_size : CpuChargeAdmissionState → ℕ)
    (state_digest : CpuChargeState → List ℕ) (gap_id : CpuTrackingGapRequest → List ℕ) where
  unfoldable pub after_call : Fate → Store → AdmissionDb → Call → AdmissionDb
  after_call fate st db (activates at limits) =
      db_or (λ p. p.db_after) db
        (activate_cpu_charge_admission charges_size admission_size state_digest gap_id fate st db at
          limits)
  after_call fate st db (begins q) =
      db_or (λ p. p.1.db_after) db
        (begin_cpu_session_limited charges_size admission_size state_digest gap_id fate st db q)
  after_call fate st db (samples m q finish) =
      db_or (λ p. p.db_after) db
        (sample_cpu_session_limited charges_size admission_size state_digest gap_id fate st db m q
          finish)
  after_call fate st db (recovers at) =
      db_or (λ p. p.db_after) db
        (recover_cpu_session_limited charges_size admission_size state_digest gap_id fate st db at)
  after_call fate st db (opens_gap q) =
      db_or (λ p. p.db_after) db
        (open_cpu_tracking_gap charges_size admission_size state_digest gap_id fate st db q)

  -- Each call names the Store that makes it, which a restart opens anew.
  unfoldable pub after_calls : AdmissionDb → List (Fate × Store × Call) → AdmissionDb
  unfolding after_call
  after_calls db [] = db
  after_calls db (c ∷ cs) = after_calls (after_call c.0 c.1 db c.2) cs

  db_or-Policy :
      {A : Type 0} (db_of : A → AdmissionDb) (db : AdmissionDb) (m : Result AdmissionError A)
      → ((r : A)
          → m ≡ ok r
          → Policy charges_size admission_size state_digest gap_id db
          → Policy charges_size admission_size state_digest gap_id (db_of r))
      → Policy charges_size admission_size state_digest gap_id db
      → Policy charges_size admission_size state_digest gap_id (db_or db_of db m)
  db_or-Policy db_of db (err why) k before = before
  db_or-Policy db_of db (ok r) k before = k r refl before

  after_call-Policy :
      (fate : Fate) (st : Store) (db : AdmissionDb) (c : Call)
      → Policy charges_size admission_size state_digest gap_id db
      → Policy charges_size admission_size state_digest gap_id (after_call fate st db c)
  unfolding after_call
  after_call-Policy fate st db (activates at limits) =
      db_or-Policy (λ p. p.db_after) db
        (activate_cpu_charge_admission charges_size admission_size state_digest gap_id fate st db at
          limits)
        (activate_call-Policy charges_size admission_size state_digest gap_id fate st db at limits)
  after_call-Policy fate st db (begins q) =
      db_or-Policy (λ p. p.1.db_after) db
        (begin_cpu_session_limited charges_size admission_size state_digest gap_id fate st db q)
        (begin_call-Policy charges_size admission_size state_digest gap_id fate st db q)
  after_call-Policy fate st db (samples m q finish) =
      db_or-Policy (λ p. p.db_after) db
        (sample_cpu_session_limited charges_size admission_size state_digest gap_id fate st db m q
          finish)
        (sample_call-Policy charges_size admission_size state_digest gap_id fate st db m q finish)
  after_call-Policy fate st db (recovers at) =
      db_or-Policy (λ p. p.db_after) db
        (recover_cpu_session_limited charges_size admission_size state_digest gap_id fate st db at)
        (recover_call-Policy charges_size admission_size state_digest gap_id fate st db at)
  after_call-Policy fate st db (opens_gap q) =
      db_or-Policy (λ p. p.db_after) db
        (open_cpu_tracking_gap charges_size admission_size state_digest gap_id fate st db q)
        (gap_call-Policy charges_size admission_size state_digest gap_id fate st db q)

  after_calls-Policy :
      (db : AdmissionDb) (cs : List (Fate × Store × Call))
      → Policy charges_size admission_size state_digest gap_id db
      → Policy charges_size admission_size state_digest gap_id (after_calls db cs)
  unfolding after_calls
  after_calls-Policy db [] before = before
  after_calls-Policy db (c ∷ cs) before =
      after_calls-Policy (after_call c.0 c.1 db c.2) cs (after_call-Policy c.0 c.1 db c.2 before)

  not_activated-Policy :
      (db : AdmissionDb)
      → (db.ledger.user_version == 16) ≡ false
      → Policy charges_size admission_size state_digest gap_id db
  not_activated-Policy db other c a v e live = cc

  -- From a database whose admission is not activated, after any calls in any order, RecoverCPUSessionLimited
  -- at an instant that has both slots never fails because of a result of its own that is refused as
  -- invalid, and never at a nil pointer.
  pub after_calls_recover_safe :
      (db : AdmissionDb) (cs : List (Fate × Store × Call)) (fate : Fate) (st : Store) (at : ℕ)
      (x : AdmissionError)
      → (db.ledger.user_version == 16) ≡ false
      → cpu_admission_time at ≡ true
      → recover_cpu_session_limited charges_size admission_size state_digest gap_id fate st
          (after_calls db cs)
          at
        ≡ err x
      → is_internal x ≡ false
  after_calls_recover_safe db cs fate st at x other t e =
      recover_cpu_session_limited_safe charges_size admission_size state_digest gap_id fate st
        (after_calls db cs) at x t (after_calls-Policy db cs (not_activated-Policy db other)) e
