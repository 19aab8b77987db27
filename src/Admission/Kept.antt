-- ===== src/Admission/Kept.antt =====
-- The parts of a valid period admission, and the common part of what its transitions keep.
use saga_rydd.Prelude.{
  ℕ, ◌-◌, ◌≤◌, ◌≡◌, refl, inl, inr, Bool, true, Option, none, some, List, arith, bytes_eq_refl,
  Option-cases,
}
use saga_rydd.Prelude.Int.{ℤ, pos, negsuc}
use saga_rydd.Clock.{day_ns}
use saga_rydd.Feedback.{hour}
use saga_rydd.Charges.Types.{
  CpuSessionStart, CpuChargeState, same_ns, same_cpu_start, reason_eq, Reason,
}
use saga_rydd.Charges.Valid.{valid_cpu_charges}
use saga_rydd.Admission.Types.{
  CpuTrackingGapRequest, CpuTrackingGapReceipt, CpuChargeAdmissionState, cpu_admission_time,
}
use saga_rydd.Admission.Charged.{Advanced}
use saga_rydd.Admission.Rolls.{Rolls, roll_cpu_admission-Rolls}
use saga_rydd.Admission.Valid.{
  clocks_valid, bound_valid, slot_valid, slots_valid, first_policy_valid, marks_valid,
  request_valid, gap_valid, gap_open_valid, gap_closed_valid, admission_valid, valid_cpu_admission,
}

module _ (state_digest : CpuChargeState → List ℕ) (gap_id : CpuTrackingGapRequest → List ℕ) where
  pub record Parts (a : CpuChargeAdmissionState) (c : CpuChargeState) (act high : ℕ) : Type 0 where
    pub at_activation : a.activated_at ≡ some act
    pub at_high : a.clock_high_water ≡ some high
    pub is_available : a.available ≡ true
    pub charges_ok : valid_cpu_charges c ≡ true
    pub clocks : clocks_valid c act high ≡ true
    pub bound : bound_valid state_digest gap_id a c ≡ true
    pub hour_ok :
        slot_valid hour high a.activation_baseline_cpu_ns a.hour_slot c.charged_cpu_ns ≡ true
    pub day_ok :
        slot_valid day_ns high a.activation_baseline_cpu_ns a.day_slot c.charged_cpu_ns ≡ true
    pub first : first_policy_valid a c act high ≡ true
    pub hour_marks : marks_valid hour act a c a.hour_slot ≡ true
    pub day_marks : marks_valid day_ns act a c a.day_slot ≡ true
    pub request : request_valid a c a.begin_request ≡ true
    pub gap : gap_valid state_digest gap_id a c act high a.latest_gap ≡ true

  pub valid-Parts :
      (a : CpuChargeAdmissionState) (c : CpuChargeState)
      → valid_cpu_admission state_digest gap_id a c ≡ true
      → (act : ℕ) × (high : ℕ) × Parts a c act high
  unfolding valid_cpu_admission admission_valid slots_valid
  valid-Parts a c v = elim (Option-cases a.activated_at) [
    | inl missing ↦ ground (arith, missing)
    | inr (act, ea) ↦ elim (Option-cases a.clock_high_water) [
      | inl missing ↦ ground (arith, missing, ea)
      | inr (high, eh) ↦
          let parts : admission_valid state_digest gap_id a c act high ≡ true =
            ground (arith, ea, eh) in
          (
            act,
            high,
            record {
              at_activation = ea;
              at_high = eh;
              is_available = ground arith;
              charges_ok = ground arith;
              clocks = ground arith;
              bound = ground arith;
              hour_ok = ground arith;
              day_ok = ground arith;
              first = ground arith;
              hour_marks = ground arith;
              day_marks = ground arith;
              request = ground arith;
              gap = ground arith;
            },
          )
    ]
  ]

  Parts-admission :
      (a : CpuChargeAdmissionState) (c : CpuChargeState) (act high : ℕ)
      → Parts a c act high
      → admission_valid state_digest gap_id a c act high ≡ true
  unfolding admission_valid slots_valid
  Parts-admission a c act high p = ground (
    arith, p.is_available, p.charges_ok, p.clocks, p.bound, p.hour_ok, p.day_ok, p.first,
    p.hour_marks, p.day_marks, p.request, p.gap,
  )

  pub Parts-valid :
      (a : CpuChargeAdmissionState) (c : CpuChargeState) (act high : ℕ)
      → Parts a c act high
      → valid_cpu_admission state_digest gap_id a c ≡ true
  unfolding valid_cpu_admission
  Parts-valid a c act high p =
      ground (arith, p.at_activation, p.at_high, Parts-admission a c act high p)

  -- Where the slots stand once both ledgers have moved on to `at`.
  pub clocks_valid-Advanced :
      (a : CpuChargeAdmissionState) (c nc : CpuChargeState) (act high at : ℕ)
      (start : CpuSessionStart)
      → Parts a c act high
      → Advanced c nc at start
      → high ≤ at
      → cpu_admission_time at ≡ true
      → clocks_valid nc act at ≡ true
  unfolding clocks_valid
  clocks_valid-Advanced a c nc act high at start p moved le t =
      ground (arith, p.clocks, moved.same_activation, moved.at_high, t)

  pub Parts-Rolls :
      (a : CpuChargeAdmissionState) (c nc : CpuChargeState) (act high at : ℕ)
      (start : CpuSessionStart) (closed : Bool)
      → Parts a c act high
      → Advanced c nc at start
      → high ≤ at
      → cpu_admission_time at ≡ true
      → Rolls a high at (nc.charged_cpu_ns - c.charged_cpu_ns) closed c.charged_cpu_ns
  Parts-Rolls a c nc act high at start closed p moved le t =
      roll_cpu_admission-Rolls a high at (nc.charged_cpu_ns - c.charged_cpu_ns) closed
        c.charged_cpu_ns p.at_high le t p.hour_ok p.day_ok moved.fits

  pub activation_le :
      (a : CpuChargeAdmissionState) (c : CpuChargeState) (act high : ℕ)
      → Parts a c act high
      → act ≤ high
  unfolding clocks_valid
  activation_le a c act high p = ground (arith, p.clocks)

  gap_valid-none :
      (a : CpuChargeAdmissionState) (c : CpuChargeState) (act high x : ℕ)
      → a.gap_closed_at ≡ some x
      → gap_valid state_digest gap_id a c act high none ≡ true
      → x ≤ high
  unfolding gap_valid
  gap_valid-none a c act high x ex g = ground (arith, ex)

  gap_valid-le :
      (a : CpuChargeAdmissionState) (c : CpuChargeState) (act high : ℕ) (r : CpuTrackingGapReceipt)
      (x : ℕ)
      → a.gap_closed_at ≡ some x
      → gap_valid state_digest gap_id a c act high (some r) ≡ true
      → x ≤ high
  unfolding gap_valid gap_open_valid gap_closed_valid
  gap_valid-le a c act high r x ex g = ground (arith, ex)

  -- A closed gap was closed at the last instant or before.
  pub gap_closed_le :
      (a : CpuChargeAdmissionState) (c : CpuChargeState) (act high : ℕ)
      → Parts a c act high
      → (x : ℕ) → a.gap_closed_at ≡ some x
      → x ≤ high
  gap_closed_le a c act high p x ex = go a.latest_gap p.gap
    where
      go :
          (o : Option CpuTrackingGapReceipt)
          → gap_valid state_digest gap_id a c act high o ≡ true
          → x ≤ high
      go none g = gap_valid-none a c act high x ex g
      go (some r) g = gap_valid-le a c act high r x ex g

same_ns_refl : (o : Option ℤ) → same_ns o o ≡ true
same_ns_refl none = refl
same_ns_refl (some (pos n)) = ground arith
same_ns_refl (some (negsuc n)) = ground arith

reason_eq_refl : (x : Reason) → reason_eq x x ≡ true
reason_eq_refl x = ground arith

pub same_cpu_start_refl : (q : CpuSessionStart) → same_cpu_start q q ≡ true
unfolding same_cpu_start
same_cpu_start_refl q = ground (
  arith,
  bytes_eq_refl q.nonce,
  bytes_eq_refl q.instance_id,
  same_ns_refl q.self_cpu_ns,
  reason_eq_refl q.reason,
)
