-- ===== src/Admission/Rolls.antt =====
-- Rolling both slots of a period admission (rollCPUAdmission), and the marks that they keep.
use saga_rydd.Prelude.{
  ℕ, ◌+◌, ◌-◌, ◌/◌, ◌≤◌, ◌≡◌, refl, sym, subst, inl, inr, Bool, true, not, ◌||◌, Option, none, some,
  arith, ◌==◌, ok, Bool-cases,
}
use saga_rydd.Prelude.Int.{max_int64}
use saga_rydd.Clock.{day_ns}
use saga_rydd.Feedback.{hour}
use saga_rydd.Charges.Types.{CpuChargeState}
use saga_rydd.Admission.Types.{
  CpuChargePeriod, CpuChargeAdmissionState, slot_start, cpu_admission_time,
}
use saga_rydd.Admission.Valid.{slot_valid, in_slot, marks_valid, closed_unknown}
use saga_rydd.Admission.Steps.{roll_cpu_admission, rolled, partial}
use saga_rydd.Admission.Slots.{Slotted, Rolled, roll_period-Rolled, cpu_admission_time-slots}

-- Both slots account for what is charged; the roll succeeds, and both account for the new charge.
pub record Rolls (a : CpuChargeAdmissionState) (high at charge : ℕ) (closed : Bool) (charged : ℕ)
    : Type 0 where
  pub hour_rolled :
      Rolled hour high at a.activation_baseline_cpu_ns charge closed a.hour_slot charged
  pub day_rolled :
      Rolled day_ns high at a.activation_baseline_cpu_ns charge closed a.day_slot charged
  pub result :
      roll_cpu_admission a at charge closed ≡ ok (rolled a at hour_rolled.after day_rolled.after)

pub roll_cpu_admission-Rolls :
    (a : CpuChargeAdmissionState) (high at charge : ℕ) (closed : Bool) (charged : ℕ)
    → a.clock_high_water ≡ some high
    → high ≤ at
    → cpu_admission_time at ≡ true
    → slot_valid hour high a.activation_baseline_cpu_ns a.hour_slot charged ≡ true
    → slot_valid day_ns high a.activation_baseline_cpu_ns a.day_slot charged ≡ true
    → charge ≤ max_int64 - charged
    → Rolls a high at charge closed charged
unfolding roll_cpu_admission
roll_cpu_admission-Rolls a high at charge closed charged eh le t hv dv fits =
    let h =
      roll_period-Rolled hour high at a.activation_baseline_cpu_ns charge closed a.hour_slot charged
        hv fits in
    let d =
      roll_period-Rolled day_ns high at a.activation_baseline_cpu_ns charge closed a.day_slot
        charged dv fits in
    let slots = cpu_admission_time-slots at t in
    record {
      hour_rolled = h;
      day_rolled = d;
      result = ground (arith, eh, slots, h.result, d.result);
    }

pub slot_valid-start :
    (d high base : ℕ) (p : CpuChargePeriod) (charged : ℕ)
    → slot_valid d high base p charged ≡ true
    → p.start_ns ≡ slot_start d high
unfolding slot_valid
slot_valid-start d high base p charged v = ground arith

module _ (d : ℕ) (s : Slotted d) (high at base charge : ℕ) (closed : Bool) (p : CpuChargePeriod)
    (charged : ℕ) (r : Rolled d high at base charge closed p charged)
    (before : p.start_ns ≡ slot_start d high) (le : high ≤ at) where
  after_start : r.after.start_ns ≡ slot_start d at
  after_start = slot_valid-start d at base r.after (charged + charge) r.is_valid

  start_mark-kept :
      (act : ℕ)
      → act ≤ high
      → (not (p.start_ns == slot_start d act) || p.partial_tracking) ≡ true
      → (not (r.after.start_ns == slot_start d act) || r.after.partial_tracking) ≡ true
  start_mark-kept act al m = elim (Bool-cases (r.after.start_ns == slot_start d act)) [
    | inr moved ↦ rw moved refl
    | inl here ↦
        let same : slot_start d at ≡ slot_start d act = ground (arith, after_start) in
        let still = s.still_start act high at al le same in
        let kept = r.marks_kept still in ground (arith, after_start, before, still, kept)
  ]

  gap_mark-kept :
      (g : Option ℕ)
      → ((x : ℕ) → g ≡ some x → x ≤ high)
      → (not (in_slot d g p) || p.partial_tracking) ≡ true
      → (not (in_slot d g r.after) || r.after.partial_tracking) ≡ true
  gap_mark-kept none gl m = refl
  gap_mark-kept (some x) gl m = elim (Bool-cases (x / d == r.after.start_ns / d)) [
    | inr moved ↦ rw moved refl
    | inl here ↦
        let same : x / d ≡ slot_start d at / d =
          subst (λ n. x / d ≡ n / d) after_start (ground arith) in
        let still = s.still x high at (gl x refl) le same in
        let kept = r.marks_kept still in
        let inside : (x / d == p.start_ns / d) ≡ true =
          rw (before, sym still) (ground (arith, same)) in
        rw (kept) (ground (arith, inside))
  ]

  pub marks_valid-rolled :
      (act : ℕ) (a a' : CpuChargeAdmissionState) (c c' : CpuChargeState)
      → act ≤ high
      → ((x : ℕ) → a.gap_closed_at ≡ some x → x ≤ high)
      → a'.gap_closed_at ≡ a.gap_closed_at
      → (closed_unknown c'.status ≡ true → closed ≡ true)
      → marks_valid d act a c p ≡ true
      → marks_valid d act a' c' r.after ≡ true
  unfolding marks_valid
  marks_valid-rolled act a a' c c' al gl eg uc m =
      let m₁ = start_mark-kept act al (ground arith) in
      let m₂ = gap_mark-kept a.gap_closed_at gl (ground arith) in
      rw (m₁, eg, m₂)
        (elim (Bool-cases (closed_unknown c'.status)) [
          | inl u ↦ rw (u, r.blocks (uc u)) (ground arith)
          | inr k ↦ rw k (ground arith)
        ])

-- A slot whose tracking is partial, and that is blocked if the last session's end is not known.
pub marks_valid-partial :
    (d act : ℕ) (a : CpuChargeAdmissionState) (c : CpuChargeState) (p : CpuChargePeriod)
    → (closed_unknown c.status ≡ true → p.blocking_unknown ≡ true)
    → marks_valid d act a c (partial p) ≡ true
unfolding marks_valid
marks_valid-partial d act a c p uc = elim (Bool-cases (closed_unknown c.status)) [
  | inl u ↦ rw (u, uc u) (ground arith)
  | inr k ↦ rw k (ground arith)
]
