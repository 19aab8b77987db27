-- ===== src/Windows/Types.antt =====
-- The records of the CPU windows and the tests on a measurement (internal/state/cpu_feedback.go).
-- Counters and identities that the source refuses when negative are natural numbers; the two
-- observations are integers. The constant fields of the state are left out.
use saga_rydd.Prelude.{
  ℕ, ◌+◌, Bool, true, false, ◌&&◌, ◌||◌, Option, none, some, List, bytes_eq, ltb, ◌==◌,
}
use saga_rydd.Prelude.Int.{ℤ, pos, negsuc, max_int64}
use saga_rydd.Clock.{cpu_feedback_time}
use saga_rydd.Int64.{int_eq}
use saga_rydd.Queue.Types.{Job}

-- `other_reason` is any other text.
pub data WindowReason : Type 0 where
  no_reason cpu_observation_unavailable cpu_observation_invalid : WindowReason
  cpu_observation_regressed elapsed_window_invalid interrupted_window other_reason : WindowReason

abbrev window_reason_code : WindowReason → ℕ
window_reason_code no_reason = 0
window_reason_code cpu_observation_unavailable = 1
window_reason_code cpu_observation_invalid = 2
window_reason_code cpu_observation_regressed = 3
window_reason_code elapsed_window_invalid = 4
window_reason_code interrupted_window = 5
window_reason_code other_reason = 6

abbrev pub window_reason_eq : WindowReason → WindowReason → Bool
window_reason_eq a b = window_reason_code a == window_reason_code b

pub data WindowKind : Type 0 where
  source maintenance other_kind : WindowKind

abbrev pub window_kind_eq : WindowKind → WindowKind → Bool
window_kind_eq source source = true
window_kind_eq maintenance maintenance = true
window_kind_eq other_kind other_kind = true
window_kind_eq _ _ = false

-- The status of a saved window, and of the state that holds it.
pub data WindowStatus : Type 0 where
  unavailable untracked pending observed completed_unknown recovered_unknown : WindowStatus

pub data WindowError : Type 0 where
  invalid no_schema corrupt read_only deferred clock_rollback still_pending stale : WindowError
  cursor_corrupt no_dispatch nil_dereference : WindowError

pub record CpuWindowStart : Type 0 where
  pub instance_id : List ℕ
  pub window_started_at : ℕ

pub record CpuWindowMeasurement : Type 0 where
  pub cpu_time_ns : Option ℤ
  pub elapsed_ns : Option ℤ
  pub reason : WindowReason

pub record CpuWindowRecord : Type 0 where
  pub token : List ℕ
  pub instance_id : List ℕ
  pub kind : WindowKind
  pub root_id : ℕ
  pub job_id : ℕ
  pub job_token : List ℕ
  pub job_lease_until : Option ℕ
  pub dispatch_reserved_at : ℕ
  pub window_started_at : ℕ
  pub recorded_at : ℕ
  pub status : WindowStatus
  pub settled_at : Option ℕ
  pub cpu_time_ns : Option ℤ
  pub elapsed_ns : Option ℤ
  pub reason : WindowReason
  pub backoff_ns : ℕ
  pub backoff_capped : Bool

pub record CpuFeedbackState : Type 0 where
  pub available : Bool
  pub status : WindowStatus
  pub tracking_started_at : Option ℕ
  pub clock_high_water : Option ℕ
  pub last_begun_dispatch_at : Option ℕ
  pub window : Option CpuWindowRecord
  pub next_allowed_at : Option ℕ
  pub completed_unknown_windows : ℕ
  pub recovered_unknown_windows : ℕ
  pub unknown_count_saturated : Bool

pub record FairInventoryReceipt : Type 0 where
  pub store : ℕ
  pub root : ℕ
  pub path : List ℕ
  pub kind : WindowKind
  pub job : Option Job
  pub reserved_at : ℕ

pub record FairInventoryTurn : Type 0 where
  pub root_id : ℕ
  pub root_path : List ℕ
  pub kind : WindowKind
  pub job : Option Job
  pub receipt : Option FairInventoryReceipt

unfoldable pub same_cpu_job : Option Job → Option Job → Bool
same_cpu_job none none = true
same_cpu_job (some a) (some b) =
    (a.id == b.id)
    && (a.root_id == b.root_id)
    && bytes_eq a.kind b.kind
    && (a.attempts == b.attempts)
    && bytes_eq a.token b.token
    && int_eq a.lease_until b.lease_until
    && bytes_eq a.root_identity b.root_identity
    && bytes_eq a.path b.path
    && bytes_eq a.cursor b.cursor
    && bytes_eq a.root_path b.root_path
same_cpu_job _ _ = false

unfoldable pub cpu_feedback_snapshot : Bool → CpuFeedbackState
cpu_feedback_snapshot available = record {
  available = available;
  status = elim available [ true ↦ untracked | false ↦ unavailable ];
  tracking_started_at = none;
  clock_high_water = none;
  last_begun_dispatch_at = none;
  window = none;
  next_allowed_at = none;
  completed_unknown_windows = 0;
  recovered_unknown_windows = 0;
  unknown_count_saturated = false;
}

abbrev pub cpu_unknown_reason : WindowReason → Bool
cpu_unknown_reason cpu_observation_unavailable = true
cpu_unknown_reason cpu_observation_invalid = true
cpu_unknown_reason cpu_observation_regressed = true
cpu_unknown_reason elapsed_window_invalid = true
cpu_unknown_reason _ = false

-- m.ElapsedNS != nil && *m.ElapsedNS <= 0
abbrev pub elapsed_refused : Option ℤ → Bool
elapsed_refused none = false
elapsed_refused (some (negsuc n)) = true
elapsed_refused (some (pos n)) = n == 0

abbrev pub is_set {ℓ} : {A : Type ℓ} → Option A → Bool
is_set none = false
is_set (some a) = true

abbrev pub measured_valid : Option ℤ → Bool → WindowReason → Bool
measured_valid none timed why = cpu_unknown_reason why
measured_valid (some (negsuc n)) timed why = false
measured_valid (some (pos n)) timed why = timed && window_reason_eq why no_reason

unfoldable pub cpu_measurement_valid : CpuWindowMeasurement → Bool
cpu_measurement_valid m =
    (elim (elapsed_refused m.elapsed_ns) [ true ↦ false | false ↦ true ])
    && measured_valid m.cpu_time_ns (is_set m.elapsed_ns) m.reason

abbrev pub valid_time : ℕ → Bool
valid_time at = elim (cpu_feedback_time at) [ none ↦ false | some t ↦ true ]

-- An instant that is checked only when it is set.
abbrev pub valid_if_set : Option ℕ → Bool
valid_if_set none = true
valid_if_set (some at) = valid_time at

unfoldable pub same_time : Option ℕ → Option ℕ → Bool
same_time none none = true
same_time (some a) (some b) = a == b
same_time _ _ = false

-- sameCPUNS
unfoldable pub same_observation : Option ℤ → Option ℤ → Bool
same_observation none none = true
same_observation (some (pos a)) (some (pos b)) = a == b
same_observation (some (negsuc a)) (some (negsuc b)) = a == b
same_observation _ _ = false

unfoldable pub same_cpu_window : CpuWindowRecord → CpuWindowRecord → Bool
same_cpu_window a b =
    bytes_eq a.token b.token
    && bytes_eq a.instance_id b.instance_id
    && window_kind_eq a.kind b.kind
    && (a.root_id == b.root_id)
    && (a.job_id == b.job_id)
    && bytes_eq a.job_token b.job_token
    && same_time a.job_lease_until b.job_lease_until
    && (a.dispatch_reserved_at == b.dispatch_reserved_at)
    && (a.window_started_at == b.window_started_at)
    && (a.recorded_at == b.recorded_at)

-- The count of unknown windows stops at its largest value, and says so.
unfoldable pub increment_cpu_unknown : ℕ → Bool → ℕ × Bool
increment_cpu_unknown count saturated =
    let after : ℕ = elim (ltb count max_int64) [ true ↦ count + 1 | false ↦ count ] in
    (after, after == max_int64 || saturated)
