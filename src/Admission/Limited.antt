-- ===== src/Admission/Limited.antt =====
-- A session that the period admission begins: what the roll of both slots leaves is valid, with a
-- tracking gap that was open now closed (BeginCPUSessionLimited).
use saga_rydd.Prelude.{
  ℕ, ◌+◌, ◌-◌, ◌≤◌, ◌<◌, ◌≡◌, refl, sym, subst, inl, inr, Bool, true, false, Option, none, some,
  List, arith, bytes_eq_refl, Bool-cases,
}
use saga_rydd.Prelude.Int.{max_int64}
use saga_rydd.Clock.{day_ns}
use saga_rydd.Feedback.{hour}
use saga_rydd.Charges.Types.{CpuSessionRecord, CpuChargeState, same_cpu_start}
use saga_rydd.Charges.Valid.{valid_cpu_charges}
use saga_rydd.Admission.Types.{
  CpuLimitedSessionStart, CpuTrackingGapRequest, CpuTrackingGapReceipt, CpuChargeAdmissionState,
  CpuChargePeriod, cpu_admission_time, valid_cpu_limited_start,
}
use saga_rydd.Admission.Charged.{Advanced, start_of}
use saga_rydd.Admission.Slots.{Slotted, Rolled, hour-Slotted, day-Slotted}
use saga_rydd.Admission.Steps.{rolled, limited, close_gap, partial, bind_cpu_admission}
use saga_rydd.Admission.Rolls.{Rolls, marks_valid-rolled, marks_valid-partial, slot_valid-start}
use saga_rydd.Admission.Kept.{
  Parts, clocks_valid-Advanced, activation_le, gap_closed_le, same_cpu_start_refl,
}
use saga_rydd.Admission.Advance.{slot_valid-charged}
use saga_rydd.Admission.Valid.{
  bound_valid, slot_valid, first_policy_valid, marks_valid, request_valid, gap_valid, receipt_valid,
  gap_closed_valid, closed_unknown, session_started,
}

session_started-start :
    (q : CpuLimitedSessionStart) (o : Option CpuSessionRecord)
    → start_of o ≡ some q.start
    → session_started q o ≡ true
session_started-start q none e = cc
session_started-start q (some r) e =
    let same : r.start ≡ q.start = cc in
    subst (λ s. same_cpu_start q.start s ≡ true) (sym same) (same_cpu_start_refl q.start)

slot_valid-partial :
    (d at base : ℕ) (p : CpuChargePeriod) (charged : ℕ)
    → slot_valid d at base p charged ≡ true
    → slot_valid d at base (partial p) charged ≡ true
unfolding slot_valid
slot_valid-partial d at base p charged h = h

-- What closing a gap changes: the two slots' marks and the instant.
module _ (a : CpuChargeAdmissionState) (at : ℕ) where
  close_gap-request : (close_gap a at).begin_request ≡ a.begin_request
  close_gap-request = elim (Bool-cases a.tracking_gap_open) [
    | inl o ↦ rw o refl
    | inr o ↦ rw o refl
  ]

  close_gap-gap : (close_gap a at).latest_gap ≡ a.latest_gap
  close_gap-gap = elim (Bool-cases a.tracking_gap_open) [ inl o ↦ rw o refl | inr o ↦ rw o refl ]

  close_gap-baseline : (close_gap a at).activation_baseline_cpu_ns ≡ a.activation_baseline_cpu_ns
  close_gap-baseline = elim (Bool-cases a.tracking_gap_open) [
    | inl o ↦ rw o refl
    | inr o ↦ rw o refl
  ]

  close_gap-hour :
      (P : CpuChargePeriod → Type 0)
      → (a.tracking_gap_open ≡ true → P (partial a.hour_slot))
      → (a.tracking_gap_open ≡ false → P a.hour_slot)
      → P (close_gap a at).hour_slot
  close_gap-hour P y n = elim (Bool-cases a.tracking_gap_open) [
    | inl o ↦ rw o (y o)
    | inr o ↦ rw o (n o)
  ]

  close_gap-day :
      (P : CpuChargePeriod → Type 0)
      → (a.tracking_gap_open ≡ true → P (partial a.day_slot))
      → (a.tracking_gap_open ≡ false → P a.day_slot)
      → P (close_gap a at).day_slot
  close_gap-day P y n = elim (Bool-cases a.tracking_gap_open) [
    | inl o ↦ rw o (y o)
    | inr o ↦ rw o (n o)
  ]

  close_gap-shut : a.tracking_gap_open ≡ false → (close_gap a at).gap_closed_at ≡ a.gap_closed_at
  close_gap-shut o = rw o refl

module _ (state_digest : CpuChargeState → List ℕ) (gap_id : CpuTrackingGapRequest → List ℕ)
    (a : CpuChargeAdmissionState) (c nc : CpuChargeState) (act high : ℕ)
    (q : CpuLimitedSessionStart) (closed : Bool) (p : Parts state_digest gap_id a c act high)
    (moved : Advanced c nc q.start.observed_at q.start) (le : high ≤ q.start.observed_at)
    (qv : valid_cpu_limited_start q ≡ true) (t : cpu_admission_time q.start.observed_at ≡ true)
    (valid : valid_cpu_charges nc ≡ true)
    (r : Rolls
      (limited a q)
      high
      q.start.observed_at
      (nc.charged_cpu_ns - c.charged_cpu_ns)
      closed
      c.charged_cpu_ns)
    (next_generation : nc.generation ≡ c.generation + 1)
    (expected : q.expected_policy_revision ≡ a.policy_revision)
    (room : a.policy_revision < max_int64)
    (closes : closed_unknown nc.status ≡ true → closed ≡ true) where
  abbrev pub begun : CpuChargeAdmissionState
  begun =
      bind_cpu_admission state_digest
        (close_gap (rolled (limited a q) q.start.observed_at r.hour_rolled.after r.day_rolled.after)
          q.start.observed_at)
        nc

  charge_sum : c.charged_cpu_ns + (nc.charged_cpu_ns - c.charged_cpu_ns) ≡ nc.charged_cpu_ns
  charge_sum = omega (arith, moved.not_less)

  bound-begun : bound_valid state_digest gap_id begun nc ≡ true
  unfolding bind_cpu_admission bound_valid valid_cpu_limited_start
  bound-begun = ground (arith, p.bound, moved.not_less, bytes_eq_refl (state_digest nc))

  first-begun : first_policy_valid begun nc act q.start.observed_at ≡ true
  unfolding bind_cpu_admission first_policy_valid
  first-begun = ground (arith, p.first)

  request-begun : request_valid begun nc (some q) ≡ true
  unfolding bind_cpu_admission request_valid
  request-begun =
      let s = session_started-start q nc.session moved.same_start in ground (arith, s, qv)

  receipt-begun :
      (g : CpuTrackingGapReceipt)
      → receipt_valid state_digest gap_id a c act high g ≡ true
      → receipt_valid state_digest gap_id begun nc act q.start.observed_at g ≡ true
  unfolding bind_cpu_admission receipt_valid
  receipt-begun g h = ground arith

  -- The gap that was open is closed now.
  was_open :
      (g : CpuTrackingGapReceipt)
      → receipt_valid state_digest gap_id a c act high g ≡ true
      → a.tracking_gap_open ≡ true
      → gap_closed_valid begun g q.start.observed_at g.request.observed_at begun.gap_closed_at
        ≡ true
  unfolding bind_cpu_admission gap_closed_valid receipt_valid
  was_open g h opened = ground (arith, opened)

  was_closed :
      (g : CpuTrackingGapReceipt) (o : Option ℕ)
      → gap_closed_valid a g high g.request.observed_at o ≡ true
      → receipt_valid state_digest gap_id a c act high g ≡ true
      → gap_closed_valid begun g q.start.observed_at g.request.observed_at o ≡ true
  unfolding bind_cpu_admission gap_closed_valid receipt_valid
  was_closed g none h v = h
  was_closed g (some x) h v = ground arith

  gap-begun :
      (o : Option CpuTrackingGapReceipt)
      → a.latest_gap ≡ o
      → gap_valid state_digest gap_id a c act high o ≡ true
      → gap_valid state_digest gap_id begun nc act q.start.observed_at o ≡ true
  unfolding bind_cpu_admission gap_valid
  gap-begun none e h = ground arith
  gap-begun (some g) e h =
      let receipt : receipt_valid state_digest gap_id a c act high g ≡ true = ground arith in
      let receipt' = receipt-begun g receipt in
      elim (Bool-cases a.tracking_gap_open) [
        | inl opened ↦
            let done = was_open g receipt opened in ground (arith, opened, receipt', done)
        | inr shut ↦
            let done = was_closed g a.gap_closed_at (ground (arith, shut)) receipt in
            ground (arith, shut, receipt', done)
      ]

  slot-begun :
      (d : ℕ) (s : CpuChargePeriod)
      (w : Rolled d high q.start.observed_at a.activation_baseline_cpu_ns
        (nc.charged_cpu_ns - c.charged_cpu_ns)
        closed
        s
        c.charged_cpu_ns)
      → slot_valid d q.start.observed_at a.activation_baseline_cpu_ns w.after nc.charged_cpu_ns
        ≡ true
  slot-begun d s w =
      slot_valid-charged d high q.start.observed_at a.activation_baseline_cpu_ns
        (nc.charged_cpu_ns - c.charged_cpu_ns) c.charged_cpu_ns nc.charged_cpu_ns closed s w
        charge_sum

  abbrev moved_on : CpuChargeAdmissionState
  moved_on = rolled (limited a q) q.start.observed_at r.hour_rolled.after r.day_rolled.after

  mark-begun :
      (d : ℕ) (sl : Slotted d) (s : CpuChargePeriod)
      (w : Rolled d high q.start.observed_at a.activation_baseline_cpu_ns
        (nc.charged_cpu_ns - c.charged_cpu_ns)
        closed
        s
        c.charged_cpu_ns)
      → slot_valid d high a.activation_baseline_cpu_ns s c.charged_cpu_ns ≡ true
      → marks_valid d act a c s ≡ true
      → a.tracking_gap_open ≡ false
      → marks_valid d act begun nc w.after ≡ true
  unfolding bind_cpu_admission
  mark-begun d sl s w sv m shut =
      marks_valid-rolled d sl high q.start.observed_at a.activation_baseline_cpu_ns
        (nc.charged_cpu_ns - c.charged_cpu_ns) closed s c.charged_cpu_ns w
        (slot_valid-start d high a.activation_baseline_cpu_ns s c.charged_cpu_ns sv) le act a begun
        c nc (activation_le state_digest gap_id a c act high p)
        (gap_closed_le state_digest gap_id a c act high p)
        (close_gap-shut moved_on q.start.observed_at shut) closes m

  pub Parts-begun : Parts state_digest gap_id begun nc act q.start.observed_at
  unfolding bind_cpu_admission
  Parts-begun = record {
    at_activation = elim (Bool-cases a.tracking_gap_open) [
      | inl o ↦ rw o p.at_activation
      | inr o ↦ rw o p.at_activation
    ];
    at_high = elim (Bool-cases a.tracking_gap_open) [ inl o ↦ rw o refl | inr o ↦ rw o refl ];
    is_available = elim (Bool-cases a.tracking_gap_open) [
      | inl o ↦ rw o p.is_available
      | inr o ↦ rw o p.is_available
    ];
    charges_ok = valid;
    clocks =
        clocks_valid-Advanced state_digest gap_id a c nc act high q.start.observed_at q.start p
          moved le t;
    bound = bound-begun;
    hour_ok =
        (let w = slot-begun hour a.hour_slot r.hour_rolled in
          rw (close_gap-baseline moved_on q.start.observed_at) (
            close_gap-hour moved_on q.start.observed_at
              (λ s.
                slot_valid hour q.start.observed_at a.activation_baseline_cpu_ns s nc.charged_cpu_ns
                ≡ true)
              (λ opened.
                slot_valid-partial hour q.start.observed_at a.activation_baseline_cpu_ns
                  r.hour_rolled.after nc.charged_cpu_ns w)
              (λ shut. w)));
    day_ok =
        (let w = slot-begun day_ns a.day_slot r.day_rolled in
          rw (close_gap-baseline moved_on q.start.observed_at) (
            close_gap-day moved_on q.start.observed_at
              (λ s.
                slot_valid day_ns q.start.observed_at a.activation_baseline_cpu_ns s
                  nc.charged_cpu_ns
                ≡ true)
              (λ opened.
                slot_valid-partial day_ns q.start.observed_at a.activation_baseline_cpu_ns
                  r.day_rolled.after nc.charged_cpu_ns w)
              (λ shut. w)));
    first = first-begun;
    hour_marks =
        close_gap-hour moved_on q.start.observed_at (λ s. marks_valid hour act begun nc s ≡ true)
          (λ opened.
            marks_valid-partial hour act begun nc r.hour_rolled.after
              (λ u. r.hour_rolled.blocks (closes u)))
          (mark-begun hour hour-Slotted a.hour_slot r.hour_rolled p.hour_ok p.hour_marks);
    day_marks =
        close_gap-day moved_on q.start.observed_at (λ s. marks_valid day_ns act begun nc s ≡ true)
          (λ opened.
            marks_valid-partial day_ns act begun nc r.day_rolled.after
              (λ u. r.day_rolled.blocks (closes u)))
          (mark-begun day_ns day-Slotted a.day_slot r.day_rolled p.day_ok p.day_marks);
    request =
        subst (λ o. request_valid begun nc o ≡ true)
          (sym (close_gap-request moved_on q.start.observed_at)) request-begun;
    gap =
        subst (λ o. gap_valid state_digest gap_id begun nc act q.start.observed_at o ≡ true)
          (sym (close_gap-gap moved_on q.start.observed_at)) (gap-begun a.latest_gap refl p.gap);
  }
