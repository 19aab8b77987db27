-- ===== src/Admission/Slots.antt =====
-- The UTC slots as a last instant moves on, and rolling one of them (rollCPUAdmission).
use saga_rydd.Prelude.{
  ℕ, ◌+◌, ◌-◌, ◌/◌, ◌≤◌, ◌≡◌, refl, ap, inl, inr, Bool, true, false, ◌||◌, arith, ◌==◌, ok,
  Bool-cases,
}
use saga_rydd.Prelude.Int.{max_int64}
use saga_rydd.Clock.{cpu_feedback_time, day_ns}
use saga_rydd.Feedback.{hour}
use saga_rydd.Charges.Types.{cpu_charges_time}
use saga_rydd.Admission.Types.{
  CpuChargePeriod, slot_start, slot_at, fresh_slot, cpu_admission_slots, cpu_admission_time,
}
use saga_rydd.Admission.Valid.{slot_valid}
use saga_rydd.Admission.Steps.{current_period, roll_period, charged_period, moved_period}

-- What the proofs need of slots of one length: as the last instant goes from `y` to `z`, a slot that
-- `x` before lies in is still the current one only if it does not move.
pub record Slotted (d : ℕ) : Type 0 where
  pub still :
      (x y z : ℕ) → x ≤ y → y ≤ z → x / d ≡ slot_start d z / d → slot_start d z ≡ slot_start d y
  pub still_start :
      (x y z : ℕ)
      → x ≤ y
      → y ≤ z
      → slot_start d z ≡ slot_start d x
      → slot_start d z ≡ slot_start d y

pub hour-Slotted : Slotted hour
unfolding slot_start
hour-Slotted = record {
  still = λ x y z xy yz same. omega arith;
  still_start = λ x y z xy yz same. omega arith;
}

pub day-Slotted : Slotted day_ns
unfolding slot_start
day-Slotted = record {
  still = λ x y z xy yz same. omega arith;
  still_start = λ x y z xy yz same. omega arith;
}

-- An instant that the admission accepts has both of its slots.
pub cpu_admission_time-slots :
    (at : ℕ)
    → cpu_admission_time at ≡ true
    → cpu_admission_slots at
      ≡ ok (fresh_slot hour (slot_start hour at), fresh_slot day_ns (slot_start day_ns at))
unfolding cpu_admission_time cpu_admission_slots slot_at cpu_charges_time cpu_feedback_time
cpu_admission_time-slots at h = ground arith

-- A slot that accounts for `charged` is rolled to one that accounts for `charge` more.
pub record Rolled (d high at baseline charge : ℕ) (closed : Bool) (p : CpuChargePeriod)
    (charged : ℕ) : Type 0 where
  pub after : CpuChargePeriod
  pub result : roll_period charge closed (fresh_slot d (slot_start d at)) p ≡ ok after
  pub is_valid : slot_valid d at baseline after (charged + charge) ≡ true
  pub marks_kept : slot_start d at ≡ slot_start d high → after.partial_tracking ≡ p.partial_tracking
  pub blocks_kept :
      slot_start d at ≡ slot_start d high → after.blocking_unknown ≡ (closed || p.blocking_unknown)
  pub blocks : closed ≡ true → after.blocking_unknown ≡ true

pub roll_period-Rolled :
    (d high at baseline charge : ℕ) (closed : Bool) (p : CpuChargePeriod) (charged : ℕ)
    → slot_valid d high baseline p charged ≡ true
    → charge ≤ max_int64 - charged
    → Rolled d high at baseline charge closed p charged
unfolding slot_valid roll_period current_period
roll_period-Rolled d high at baseline charge closed p charged valid fits =
    elim (Bool-cases (p.start_ns == slot_start d at)) [
      | inl same ↦ record {
        after = charged_period p charge closed;
        result = ground arith;
        is_valid = ground arith;
        marks_kept = λ still. refl;
        blocks_kept = λ still. refl;
        blocks = λ c. ap (λ b. b || p.blocking_unknown) c;
      }
      | inr moved ↦ record {
        after = charged_period (moved_period (fresh_slot d (slot_start d at)) p) charge closed;
        result = ground arith;
        is_valid = ground arith;
        marks_kept = λ still. ground arith;
        blocks_kept = λ still. ground arith;
        blocks = λ c. ap (λ b. b || false) c;
      }
    ]
