-- ===== src/Admission/Types.antt =====
-- The records of the period admission and its UTC slots (internal/state/cpu_charge_admission.go). The
-- constant fields of the state are left out, and counters that the source refuses when negative are
-- natural numbers.
use saga_rydd.Prelude.{
  ℕ, ◌+◌, ◌-◌, ◌%◌, Bool, true, false, ◌&&◌, Option, none, some, List, [], bytes_eq, leb, ltb, ◌==◌,
  if◌then◌else◌, Result, ok, err, ◌>>=◌, ◌>>◌, refuse_if,
}
use saga_rydd.Prelude.Int.{max_int64}
use saga_rydd.Clock.{metadata_digest, day_ns}
use saga_rydd.Feedback.{hour}
use saga_rydd.Charges.Types.{
  ChargesError, overflow, CpuSessionStart, CpuSessionRecord, same_cpu_start, cpu_charges_time,
  cpu_charges_start_valid,
}

pub data AdmissionError : Type 0 where
  invalid_admission unavailable_admission corrupt_admission : AdmissionError
  cpu : ChargesError → AdmissionError

-- An error of the charge ledger is passed on.
abbrev pub of_charges : {A : Type 0} → Result ChargesError A → Result AdmissionError A
of_charges (err why) = err (cpu why)
of_charges (ok value) = ok value

pub record CpuChargeLimits : Type 0 where
  pub hour_ns : ℕ
  pub day_limit_ns : ℕ

pub record CpuLimitedSessionStart : Type 0 where
  pub start : CpuSessionStart
  pub expected_policy_revision : ℕ
  pub limits : CpuChargeLimits

pub record CpuTrackingGapRequest : Type 0 where
  pub expected_policy_revision : ℕ
  pub expected_generation : ℕ
  pub nonce : List ℕ
  pub observed_at : ℕ

pub record CpuTrackingGapReceipt : Type 0 where
  pub request : CpuTrackingGapRequest
  pub request_id : List ℕ
  pub applied_revision : ℕ

pub record CpuLimitedSessionMarker : Type 0 where
  pub store : ℕ
  pub generation : ℕ
  pub revision : ℕ
  pub request : CpuLimitedSessionStart

pub record CpuChargePeriod : Type 0 where
  pub start_ns : ℕ
  pub next_boundary_ns : ℕ
  pub assigned_cpu_ns : ℕ
  pub retired_assigned_cpu_ns : ℕ
  pub partial_tracking : Bool
  pub blocking_unknown : Bool

pub record CpuChargeAdmissionState : Type 0 where
  pub available : Bool
  pub activated_at : Option ℕ
  pub clock_high_water : Option ℕ
  pub activation_baseline_cpu_ns : ℕ
  pub policy_revision : ℕ
  pub limits : CpuChargeLimits
  pub hour_slot : CpuChargePeriod
  pub day_slot : CpuChargePeriod
  pub cpu_generation : ℕ
  pub cpu_ordinal : ℕ
  pub cpu_state_digest : List ℕ
  pub begin_request : Option CpuLimitedSessionStart
  pub begin_applied_revision : ℕ
  pub tracking_gap_open : Bool
  pub gap_opened_at : Option ℕ
  pub gap_closed_at : Option ℕ
  pub latest_gap : Option CpuTrackingGapReceipt

abbrev pub no_period : CpuChargePeriod
no_period = record {
  start_ns = 0;
  next_boundary_ns = 0;
  assigned_cpu_ns = 0;
  retired_assigned_cpu_ns = 0;
  partial_tracking = false;
  blocking_unknown = false;
}

unfoldable pub cpu_admission_base : Bool → CpuChargeAdmissionState
cpu_admission_base available = record {
  available = available;
  activated_at = none;
  clock_high_water = none;
  activation_baseline_cpu_ns = 0;
  policy_revision = 0;
  limits = record { hour_ns = 0; day_limit_ns = 0 };
  hour_slot = no_period;
  day_slot = no_period;
  cpu_generation = 0;
  cpu_ordinal = 0;
  cpu_state_digest = [];
  begin_request = none;
  begin_applied_revision = 0;
  tracking_gap_open = false;
  gap_opened_at = none;
  gap_closed_at = none;
  latest_gap = none;
}

unfoldable pub cpu_admission_limits_valid : CpuChargeLimits → Bool
cpu_admission_limits_valid l = leb l.hour_ns hour && leb l.day_limit_ns day_ns

-- The start of the slot of length `d` that an instant lies in.
unfoldable pub slot_start : ℕ → ℕ → ℕ
slot_start d at = at - at % d

abbrev pub fresh_slot : ℕ → ℕ → CpuChargePeriod
fresh_slot d start = record no_period { start_ns = start; next_boundary_ns = start + d }

-- The slot at `at`, unless it ends after the representable time.
unfoldable pub slot_at : ℕ → ℕ → Result AdmissionError CpuChargePeriod
slot_at d at =
    if ltb (max_int64 - d) (slot_start d at)
    then err (cpu overflow)
    else ok (fresh_slot d (slot_start d at))

unfoldable pub cpu_admission_slots : ℕ → Result AdmissionError (CpuChargePeriod × CpuChargePeriod)
cpu_admission_slots at = do
  refuse_if (elim (cpu_charges_time at) [ true ↦ false | false ↦ true ]) invalid_admission
  h ← slot_at hour at
  d ← slot_at day_ns at
  ok (h, d)

abbrev pub is_ok : {A : Type 0} → Result AdmissionError A → Bool
is_ok (ok value) = true
is_ok (err why) = false

unfoldable pub cpu_admission_time : ℕ → Bool
cpu_admission_time at = cpu_charges_time at && is_ok (cpu_admission_slots at)

unfoldable pub valid_cpu_gap_request : CpuTrackingGapRequest → Bool
valid_cpu_gap_request q = metadata_digest q.nonce 64 && cpu_admission_time q.observed_at

unfoldable pub same_cpu_gap_request : CpuTrackingGapRequest → CpuTrackingGapRequest → Bool
same_cpu_gap_request a b =
    (a.expected_generation == b.expected_generation)
    && (a.expected_policy_revision == b.expected_policy_revision)
    && bytes_eq a.nonce b.nonce
    && (a.observed_at == b.observed_at)

abbrev pub same_limits : CpuChargeLimits → CpuChargeLimits → Bool
same_limits a b = (a.hour_ns == b.hour_ns) && (a.day_limit_ns == b.day_limit_ns)

unfoldable pub same_cpu_limited_start : CpuLimitedSessionStart → CpuLimitedSessionStart → Bool
same_cpu_limited_start a b =
    (a.expected_policy_revision == b.expected_policy_revision)
    && same_limits a.limits b.limits
    && same_cpu_start a.start b.start

unfoldable pub valid_cpu_limited_start : CpuLimitedSessionStart → Bool
valid_cpu_limited_start q =
    cpu_admission_limits_valid q.limits
    && cpu_charges_start_valid q.start
    && cpu_admission_time q.start.observed_at

abbrev pub ordinal_of : Option CpuSessionRecord → ℕ
ordinal_of none = 0
ordinal_of (some r) = r.last_ordinal
