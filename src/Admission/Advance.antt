-- ===== src/Admission/Advance.antt =====
-- A sample or a recovery of the session that the period admission began: what the roll of both slots
-- leaves is valid (SampleCPUSessionLimited, FinishCPUSessionLimited and RecoverCPUSessionLimited).
use saga_rydd.Prelude.{
  ℕ, ◌+◌, ◌-◌, ◌≤◌, ◌≡◌, refl, subst, Bool, true, false, Option, none, some, List, arith,
  bytes_eq_refl,
}
use saga_rydd.Clock.{day_ns}
use saga_rydd.Feedback.{hour}
use saga_rydd.Charges.Types.{
  active, CpuSessionStart, CpuSessionRecord, CpuChargeState, same_cpu_start,
}
use saga_rydd.Charges.Valid.{valid_cpu_charges}
use saga_rydd.Admission.Types.{
  CpuLimitedSessionStart, CpuTrackingGapRequest, CpuTrackingGapReceipt, CpuChargeAdmissionState,
  cpu_admission_time,
}
use saga_rydd.Admission.Charged.{Advanced, start_of}
use saga_rydd.Admission.Slots.{Rolled, hour-Slotted, day-Slotted}
use saga_rydd.Admission.Steps.{rolled, bind_cpu_admission}
use saga_rydd.Admission.Rolls.{Rolls, marks_valid-rolled, slot_valid-start}
use saga_rydd.Admission.Kept.{Parts, clocks_valid-Advanced, activation_le, gap_closed_le}
use saga_rydd.Admission.Valid.{
  bound_valid, slot_valid, first_policy_valid, request_valid, gap_valid, receipt_valid,
  gap_open_valid, gap_closed_valid, closed_unknown, session_started, is_present,
}

pub slot_valid-charged :
    (d high at base charge charged after : ℕ) (closed : Bool) (p : _)
    → (r : Rolled d high at base charge closed p charged) → charged + charge ≡ after
    → slot_valid d at base r.after after ≡ true
slot_valid-charged d high at base charge charged after closed p r e =
    subst (λ n. slot_valid d at base r.after n ≡ true) e r.is_valid

session_started-Advanced :
    (q : CpuLimitedSessionStart) (x y : Option CpuSessionRecord) (start : CpuSessionStart)
    → start_of x ≡ some start
    → start_of y ≡ some start
    → session_started q x ≡ true
    → session_started q y ≡ true
session_started-Advanced q (some x) (some y) start ex ey h =
    let same : x.start ≡ y.start = cc in subst (λ s. same_cpu_start q.start s ≡ true) same h
session_started-Advanced q none y start ex ey h = cc
session_started-Advanced q (some x) none start ex ey h = cc

module _ (state_digest : CpuChargeState → List ℕ) (gap_id : CpuTrackingGapRequest → List ℕ)
    (a : CpuChargeAdmissionState) (c nc : CpuChargeState) (act high at : ℕ)
    (start : CpuSessionStart) (closed : Bool) (p : Parts state_digest gap_id a c act high)
    (moved : Advanced c nc at start) (le : high ≤ at) (t : cpu_admission_time at ≡ true)
    (valid : valid_cpu_charges nc ≡ true)
    (r : Rolls a high at (nc.charged_cpu_ns - c.charged_cpu_ns) closed c.charged_cpu_ns)
    (same_generation : nc.generation ≡ c.generation) (was_active : c.status ≡ active)
    (begun : is_present a.begin_request ≡ true) (started : start_of c.session ≡ some start)
    (closes : closed_unknown nc.status ≡ true → closed ≡ true) where
  abbrev pub after : CpuChargeAdmissionState
  after = bind_cpu_admission state_digest (rolled a at r.hour_rolled.after r.day_rolled.after) nc

  charge_sum : c.charged_cpu_ns + (nc.charged_cpu_ns - c.charged_cpu_ns) ≡ nc.charged_cpu_ns
  charge_sum = omega (arith, moved.not_less)

  bound-kept : bound_valid state_digest gap_id after nc ≡ true
  unfolding bind_cpu_admission bound_valid
  bound-kept = ground (arith, p.bound, moved.not_less, bytes_eq_refl (state_digest nc))

  first-kept : first_policy_valid after nc act at ≡ true
  unfolding bind_cpu_admission first_policy_valid
  first-kept = ground (arith, p.first, begun)

  request-kept :
      (o : Option CpuLimitedSessionStart)
      → request_valid a c o ≡ true
      → request_valid after nc o ≡ true
  unfolding bind_cpu_admission request_valid
  request-kept none h = ground arith
  request-kept (some q) h =
      let s =
        session_started-Advanced q c.session nc.session start started moved.same_start
          (ground arith) in
      ground (arith, s)

  receipt-kept :
      (g : CpuTrackingGapReceipt)
      → receipt_valid state_digest gap_id a c act high g ≡ true
      → receipt_valid state_digest gap_id after nc act at g ≡ true
  unfolding bind_cpu_admission receipt_valid
  receipt-kept g h = ground arith

  closed-kept :
      (g : CpuTrackingGapReceipt) (opened : ℕ) (o : Option ℕ)
      → gap_closed_valid a g high opened o ≡ true
      → gap_closed_valid after g at opened o ≡ true
  unfolding bind_cpu_admission gap_closed_valid
  closed-kept g opened none h = h
  closed-kept g opened (some x) h = ground arith

  not_open : (g : CpuTrackingGapReceipt) → gap_open_valid a c g ≡ false
  unfolding gap_open_valid
  not_open g = ground arith

  gap-kept :
      (o : Option CpuTrackingGapReceipt)
      → gap_valid state_digest gap_id a c act high o ≡ true
      → gap_valid state_digest gap_id after nc act at o ≡ true
  unfolding bind_cpu_admission gap_valid
  gap-kept none h = ground arith
  gap-kept (some g) h =
      let closed = not_open g in
      let receipt = receipt-kept g (ground arith) in
      let kept = closed-kept g g.request.observed_at a.gap_closed_at in
      ground (arith, closed, receipt, kept)

  pub Parts-advanced : Parts state_digest gap_id after nc act at
  unfolding bind_cpu_admission
  Parts-advanced = record {
    at_activation = p.at_activation;
    at_high = refl;
    is_available = p.is_available;
    charges_ok = valid;
    clocks = clocks_valid-Advanced state_digest gap_id a c nc act high at start p moved le t;
    bound = bound-kept;
    hour_ok =
        slot_valid-charged hour high at a.activation_baseline_cpu_ns
          (nc.charged_cpu_ns - c.charged_cpu_ns) c.charged_cpu_ns nc.charged_cpu_ns closed
          a.hour_slot r.hour_rolled charge_sum;
    day_ok =
        slot_valid-charged day_ns high at a.activation_baseline_cpu_ns
          (nc.charged_cpu_ns - c.charged_cpu_ns) c.charged_cpu_ns nc.charged_cpu_ns closed
          a.day_slot r.day_rolled charge_sum;
    first = first-kept;
    hour_marks =
        marks_valid-rolled hour hour-Slotted high at a.activation_baseline_cpu_ns
          (nc.charged_cpu_ns - c.charged_cpu_ns) closed a.hour_slot c.charged_cpu_ns r.hour_rolled
          (slot_valid-start hour high a.activation_baseline_cpu_ns a.hour_slot c.charged_cpu_ns
            p.hour_ok)
          le act a after c nc (activation_le state_digest gap_id a c act high p)
          (gap_closed_le state_digest gap_id a c act high p) refl closes p.hour_marks;
    day_marks =
        marks_valid-rolled day_ns day-Slotted high at a.activation_baseline_cpu_ns
          (nc.charged_cpu_ns - c.charged_cpu_ns) closed a.day_slot c.charged_cpu_ns r.day_rolled
          (slot_valid-start day_ns high a.activation_baseline_cpu_ns a.day_slot c.charged_cpu_ns
            p.day_ok)
          le act a after c nc (activation_le state_digest gap_id a c act high p)
          (gap_closed_le state_digest gap_id a c act high p) refl closes p.day_marks;
    request = request-kept a.begin_request p.request;
    gap = gap-kept a.latest_gap p.gap;
  }
