-- ===== src/Admission/Valid.antt =====
-- validCPUAdmission (internal/state/cpu_charge_admission.go), in the parts that its early returns make.
-- The digest of a charge state and the identity of a gap request, both SHA-256 of a JSON text, are
-- parameters.
use saga_rydd.Prelude.{
  ℕ, ◌+◌, ◌-◌, ◌/◌, Bool, true, false, not, ◌&&◌, ◌||◌, Option, none, some, List, bytes_eq, leb,
  ltb, ◌==◌, if◌then◌else◌,
}
use saga_rydd.Prelude.Int.{max_int64}
use saga_rydd.Clock.{day_ns}
use saga_rydd.Feedback.{hour}
use saga_rydd.Charges.Types.{
  ChargeStatus, active, unknown, recovered_unknown, status_eq, CpuSessionRecord, CpuChargeState,
  same_cpu_start,
}
use saga_rydd.Charges.Valid.{valid_cpu_charges}
use saga_rydd.Admission.Types.{
  CpuChargeLimits, CpuLimitedSessionStart, CpuTrackingGapRequest, CpuTrackingGapReceipt,
  CpuChargePeriod, CpuChargeAdmissionState, cpu_admission_limits_valid, slot_start,
  cpu_admission_time, valid_cpu_gap_request, same_limits, valid_cpu_limited_start, ordinal_of,
}

-- at is set, and is `from` or later; and: `to` or earlier
abbrev pub set_from : Option ℕ → ℕ → Bool
set_from none from = false
set_from (some at) from = leb from at

abbrev pub set_until : Option ℕ → ℕ → Bool
set_until none to = false
set_until (some at) to = leb at to

abbrev pub is_present {ℓ} : {A : Type ℓ} → Option A → Bool
is_present none = false
is_present (some a) = true

-- The instants of both ledgers.
unfoldable pub clocks_valid : CpuChargeState → ℕ → ℕ → Bool
clocks_valid c act high =
    cpu_admission_time act
    && cpu_admission_time high
    && set_until c.activated_at act
    && leb act high
    && set_until c.clock_high_water high

-- A slot is the one of the high-water instant, and accounts for everything since the activation.
unfoldable pub slot_valid : ℕ → ℕ → ℕ → CpuChargePeriod → ℕ → Bool
slot_valid d high baseline p charged =
    (p.start_ns == slot_start d high)
    && (p.next_boundary_ns == slot_start d high + d)
    && leb p.retired_assigned_cpu_ns (max_int64 - baseline)
    && leb p.assigned_cpu_ns (max_int64 - baseline - p.retired_assigned_cpu_ns)
    && (baseline + p.retired_assigned_cpu_ns + p.assigned_cpu_ns == charged)

unfoldable pub slots_valid : CpuChargeAdmissionState → CpuChargeState → ℕ → Bool
slots_valid a c high =
    slot_valid hour high a.activation_baseline_cpu_ns a.hour_slot c.charged_cpu_ns
    && slot_valid day_ns high a.activation_baseline_cpu_ns a.day_slot c.charged_cpu_ns

-- Before the first change of policy.
unfoldable pub first_policy_valid : CpuChargeAdmissionState → CpuChargeState → ℕ → ℕ → Bool
first_policy_valid a c act high =
    not (a.policy_revision == 0)
    || not (is_present a.begin_request)
      && not (is_present a.latest_gap)
      && (high == act)
      && (a.activation_baseline_cpu_ns == c.charged_cpu_ns)

abbrev pub closed_unknown : ChargeStatus → Bool
closed_unknown s = status_eq s unknown || status_eq s recovered_unknown

-- The instant lies in the slot.
abbrev pub in_slot : ℕ → Option ℕ → CpuChargePeriod → Bool
in_slot d none p = false
in_slot d (some at) p = at / d == p.start_ns / d

abbrev pub closed_at_of : Option CpuSessionRecord → Option ℕ
closed_at_of none = none
closed_at_of (some r) = r.closed_at

-- What a slot must be marked with.
unfoldable pub marks_valid :
    ℕ → ℕ → CpuChargeAdmissionState → CpuChargeState → CpuChargePeriod → Bool
marks_valid d act a c p =
    (not (p.start_ns == slot_start d act) || p.partial_tracking)
    && (not (in_slot d a.gap_closed_at p) || p.partial_tracking)
    && (not (
          is_present a.begin_request
          && closed_unknown c.status
          && in_slot d (closed_at_of c.session) p)
        || p.blocking_unknown)

abbrev pub no_limits : CpuChargeLimits → Bool
no_limits l = (l.hour_ns == 0) && (l.day_limit_ns == 0)

abbrev pub session_started : CpuLimitedSessionStart → Option CpuSessionRecord → Bool
session_started q none = false
session_started q (some r) = same_cpu_start q.start r.start

unfoldable pub request_valid :
    CpuChargeAdmissionState → CpuChargeState → Option CpuLimitedSessionStart → Bool
request_valid a c none = (a.begin_applied_revision == 0) && not (no_limits a.limits)
request_valid a c (some q) =
    valid_cpu_limited_start q
    && ltb q.expected_policy_revision max_int64
    && (q.expected_policy_revision + 1 == a.begin_applied_revision)
    && leb a.begin_applied_revision a.policy_revision
    && same_limits q.limits a.limits
    && session_started q c.session

abbrev pub current_request : CpuChargeAdmissionState → Bool
current_request a = is_present a.begin_request && (a.begin_applied_revision == a.policy_revision)

abbrev pub starts_from : Option CpuLimitedSessionStart → ℕ → Bool
starts_from none from = false
starts_from (some q) from = leb from q.start.observed_at

unfoldable pub gap_closed_valid :
    CpuChargeAdmissionState → CpuTrackingGapReceipt → ℕ → ℕ → Option ℕ → Bool
gap_closed_valid a r high opened none = false
gap_closed_valid a r high opened (some closed) =
    cpu_admission_time closed
    && leb opened closed
    && leb closed high
    && current_request a
    && starts_from a.begin_request closed
    && ltb r.applied_revision a.begin_applied_revision

unfoldable pub gap_open_valid :
    CpuChargeAdmissionState → CpuChargeState → CpuTrackingGapReceipt → Bool
gap_open_valid a c r =
    (r.applied_revision == a.policy_revision)
    && (r.request.expected_generation == c.generation)
    && not (is_present a.gap_closed_at)
    && a.hour_slot.partial_tracking
    && a.day_slot.partial_tracking
    && a.hour_slot.blocking_unknown
    && a.day_slot.blocking_unknown
    && not (status_eq c.status active)

abbrev pub equals_at : Option ℕ → ℕ → Bool
equals_at none at = false
equals_at (some t) at = t == at

module _ (state_digest : CpuChargeState → List ℕ) (gap_id : CpuTrackingGapRequest → List ℕ) where
  unfoldable pub bound_valid : CpuChargeAdmissionState → CpuChargeState → Bool
  bound_valid a c =
      leb a.activation_baseline_cpu_ns c.charged_cpu_ns
      && cpu_admission_limits_valid a.limits
      && (a.cpu_generation == c.generation)
      && bytes_eq a.cpu_state_digest (state_digest c)
      && (a.cpu_ordinal == ordinal_of c.session)

  unfoldable pub receipt_valid :
      CpuChargeAdmissionState → CpuChargeState → ℕ → ℕ → CpuTrackingGapReceipt → Bool
  receipt_valid a c act high r =
      valid_cpu_gap_request r.request
      && ltb r.request.expected_policy_revision max_int64
      && (r.applied_revision == r.request.expected_policy_revision + 1)
      && leb r.applied_revision a.policy_revision
      && leb r.request.expected_generation c.generation
      && bytes_eq r.request_id (gap_id r.request)
      && equals_at a.gap_opened_at r.request.observed_at
      && leb r.request.observed_at high
      && leb act r.request.observed_at

  unfoldable pub gap_valid :
      CpuChargeAdmissionState → CpuChargeState → ℕ → ℕ → Option CpuTrackingGapReceipt → Bool
  gap_valid a c act high none =
      not a.tracking_gap_open
      && not (is_present a.gap_opened_at)
      && not (is_present a.gap_closed_at)
      && ((a.policy_revision == 0) || current_request a)
  gap_valid a c act high (some r) =
      receipt_valid a c act high r
      && (if a.tracking_gap_open
          then gap_open_valid a c r
          else gap_closed_valid a r high r.request.observed_at a.gap_closed_at)

  unfoldable pub admission_valid : CpuChargeAdmissionState → CpuChargeState → ℕ → ℕ → Bool
  admission_valid a c act high =
      a.available
      && valid_cpu_charges c
      && clocks_valid c act high
      && bound_valid a c
      && slots_valid a c high
      && first_policy_valid a c act high
      && marks_valid hour act a c a.hour_slot
      && marks_valid day_ns act a c a.day_slot
      && request_valid a c a.begin_request
      && gap_valid a c act high a.latest_gap

  unfoldable pub valid_cpu_admission : CpuChargeAdmissionState → CpuChargeState → Bool
  valid_cpu_admission a c = elim a.activated_at [
    | none ↦ false
    | some act ↦ elim a.clock_high_water [ none ↦ false | some high ↦ admission_valid a c act high ]
  ]
