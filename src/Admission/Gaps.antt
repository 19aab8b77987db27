-- ===== src/Admission/Gaps.antt =====
-- A tracking gap that is opened: what it leaves is valid, whether a session was active or not
-- (OpenCPUTrackingGap).
use saga_rydd.Prelude.{
  ℕ, ◌+◌, ◌≤◌, ◌<◌, ◌≡◌, refl, subst, true, false, Option, none, some, List, arith, bytes_eq,
  bytes_eq_refl,
}
use saga_rydd.Prelude.Int.{max_int64}
use saga_rydd.Clock.{day_ns}
use saga_rydd.Feedback.{hour}
use saga_rydd.Charges.Types.{active, status_eq, CpuSessionRecord, CpuChargeState, same_cpu_start}
use saga_rydd.Charges.Valid.{valid_cpu_charges}
use saga_rydd.Admission.Types.{
  CpuLimitedSessionStart, CpuTrackingGapRequest, CpuChargeAdmissionState, CpuChargePeriod,
  valid_cpu_gap_request,
}
use saga_rydd.Admission.Charged.{start_of}
use saga_rydd.Admission.Slots.{Rolled}
use saga_rydd.Admission.Steps.{rolled, gap_opened, partial, bind_cpu_admission}
use saga_rydd.Admission.Rolls.{Rolls, marks_valid-partial}
use saga_rydd.Admission.Kept.{Parts, activation_le}
use saga_rydd.Admission.Advance.{slot_valid-charged}
use saga_rydd.Admission.Valid.{
  clocks_valid, bound_valid, slot_valid, first_policy_valid, request_valid, gap_valid,
  receipt_valid, gap_open_valid, session_started,
}

session_started-same :
    (q : CpuLimitedSessionStart) (x y : Option CpuSessionRecord)
    → start_of y ≡ start_of x
    → session_started q x ≡ true
    → session_started q y ≡ true
session_started-same q none y e h = cc
session_started-same q (some x) none e h = cc
session_started-same q (some x) (some y) e h =
    let same : x.start ≡ y.start = cc in subst (λ s. same_cpu_start q.start s ≡ true) same h

module _ (state_digest : CpuChargeState → List ℕ) (gap_id : CpuTrackingGapRequest → List ℕ)
    (a : CpuChargeAdmissionState) (c nc : CpuChargeState) (act high : ℕ) (q : CpuTrackingGapRequest)
    (p : Parts state_digest gap_id a c act high) (le : high ≤ q.observed_at)
    (qv : valid_cpu_gap_request q ≡ true) (valid : valid_cpu_charges nc ≡ true)
    (clocks : clocks_valid nc act q.observed_at ≡ true)
    (r : Rolls a high q.observed_at 0 true c.charged_cpu_ns)
    (same_generation : nc.generation ≡ c.generation)
    (same_charge : nc.charged_cpu_ns ≡ c.charged_cpu_ns)
    (same_session : start_of nc.session ≡ start_of c.session)
    (idle : status_eq nc.status active ≡ false)
    (expected : q.expected_policy_revision ≡ a.policy_revision)
    (expected_generation : q.expected_generation ≡ c.generation)
    (room : a.policy_revision < max_int64) where
  abbrev pub gapped : CpuChargeAdmissionState
  gapped =
      bind_cpu_admission state_digest
        (gap_opened (rolled a q.observed_at r.hour_rolled.after r.day_rolled.after) q (gap_id q)) nc

  bound-gapped : bound_valid state_digest gap_id gapped nc ≡ true
  unfolding bind_cpu_admission bound_valid
  bound-gapped = ground (arith, p.bound, same_charge, bytes_eq_refl (state_digest nc))

  first-gapped : first_policy_valid gapped nc act q.observed_at ≡ true
  unfolding bind_cpu_admission first_policy_valid
  first-gapped = ground (arith, p.first)

  request-gapped :
      (o : Option CpuLimitedSessionStart)
      → request_valid a c o ≡ true
      → request_valid gapped nc o ≡ true
  unfolding bind_cpu_admission request_valid
  request-gapped none h = ground arith
  request-gapped (some k) h =
      let s = session_started-same k c.session nc.session same_session (ground arith) in
      ground (arith, s)

  receipt-gapped :
      (id : List ℕ)
      → bytes_eq id (gap_id q) ≡ true
      → receipt_valid state_digest gap_id gapped nc act q.observed_at
          (record { request = q; request_id = id; applied_revision = a.policy_revision + 1 })
        ≡ true
  unfolding bind_cpu_admission receipt_valid
  receipt-gapped id same = ground (arith, qv, activation_le state_digest gap_id a c act high p)

  open-gapped :
      (id : List ℕ)
      → gap_open_valid gapped nc
          (record { request = q; request_id = id; applied_revision = a.policy_revision + 1 })
        ≡ true
  unfolding bind_cpu_admission gap_open_valid
  open-gapped id = ground (arith, idle, r.hour_rolled.blocks refl, r.day_rolled.blocks refl)

  gap-gapped : gap_valid state_digest gap_id gapped nc act q.observed_at gapped.latest_gap ≡ true
  unfolding bind_cpu_admission gap_valid
  gap-gapped = rw (receipt-gapped (gap_id q) (bytes_eq_refl (gap_id q))) (open-gapped (gap_id q))

  slot-gapped :
      (d : ℕ) (s : CpuChargePeriod)
      (w : Rolled d high q.observed_at a.activation_baseline_cpu_ns 0 true s c.charged_cpu_ns)
      → slot_valid d q.observed_at a.activation_baseline_cpu_ns (partial w.after) nc.charged_cpu_ns
        ≡ true
  unfolding slot_valid
  slot-gapped d s w =
      slot_valid-charged d high q.observed_at a.activation_baseline_cpu_ns 0 c.charged_cpu_ns
        nc.charged_cpu_ns true s w (omega (arith, same_charge))

  pub Parts-gapped : Parts state_digest gap_id gapped nc act q.observed_at
  unfolding bind_cpu_admission
  Parts-gapped = record {
    at_activation = p.at_activation;
    at_high = refl;
    is_available = p.is_available;
    charges_ok = valid;
    clocks = clocks;
    bound = bound-gapped;
    hour_ok = slot-gapped hour a.hour_slot r.hour_rolled;
    day_ok = slot-gapped day_ns a.day_slot r.day_rolled;
    first = first-gapped;
    hour_marks =
        marks_valid-partial hour act gapped nc r.hour_rolled.after (λ u. r.hour_rolled.blocks refl);
    day_marks =
        marks_valid-partial day_ns act gapped nc r.day_rolled.after (λ u. r.day_rolled.blocks refl);
    request = request-gapped a.begin_request p.request;
    gap = gap-gapped;
  }
