-- ===== src/Windows/Valid.antt =====
-- validCPUFeedback (internal/state/cpu_feedback.go), in the parts that its early returns make.
use saga_rydd.Prelude.{
  ℕ, Bool, true, false, not, ◌&&◌, ◌||◌, Option, none, some, List, [], ◌∷◌, leb, ltb, ◌==◌,
}
use saga_rydd.Prelude.Int.{ℤ, max_int64}
use saga_rydd.Clock.{cpu_feedback_add, metadata_digest}
use saga_rydd.Feedback.{backoff_limit, hour, cpu_feedback_wait}
use saga_rydd.Windows.Types.{
  no_reason, interrupted_window, window_reason_eq, WindowKind, source, maintenance, other_kind,
  WindowStatus, pending, observed, completed_unknown, recovered_unknown, CpuWindowRecord,
  CpuWindowMeasurement, CpuFeedbackState, cpu_measurement_valid, is_set, valid_time, valid_if_set,
}

abbrev same_bool : Bool → Bool → Bool
same_bool true b = b
same_bool false b = not b

abbrev is_nil : List ℕ → Bool
is_nil [] = true
is_nil (c ∷ cs) = false

-- The record and the counters on their own.
unfoldable pub window_identity_valid : CpuWindowRecord → Bool
window_identity_valid r =
    metadata_digest r.token 64
    && metadata_digest r.instance_id 32
    && ltb 0 r.root_id
    && leb r.backoff_ns backoff_limit

unfoldable pub instants_valid : CpuFeedbackState → CpuWindowRecord → ℕ → ℕ → ℕ → Bool
instants_valid s r tracked high begun =
    valid_time tracked
    && valid_time high
    && valid_time begun
    && valid_time r.dispatch_reserved_at
    && valid_time r.window_started_at
    && valid_time r.recorded_at
    && valid_if_set r.job_lease_until
    && valid_if_set r.settled_at
    && valid_if_set s.next_allowed_at

unfoldable pub order_valid : CpuFeedbackState → CpuWindowRecord → ℕ → ℕ → ℕ → Bool
order_valid s r tracked high begun =
    (begun == r.dispatch_reserved_at)
    && leb r.window_started_at r.recorded_at
    && leb r.dispatch_reserved_at r.recorded_at
    && leb tracked r.recorded_at
    && leb r.recorded_at high
    && leb tracked high
    && same_bool s.unknown_count_saturated
        ((s.completed_unknown_windows == max_int64) || (s.recovered_unknown_windows == max_int64))

abbrev pub lease_after : Option ℕ → ℕ → Bool
lease_after none recorded = false
lease_after (some until) recorded = ltb recorded until

unfoldable pub kind_valid : CpuWindowRecord → WindowKind → Bool
kind_valid r source =
    ltb 0 r.job_id && metadata_digest r.job_token 32 && lease_after r.job_lease_until r.recorded_at
kind_valid r maintenance = (r.job_id == 0) && is_nil r.job_token && not (is_set r.job_lease_until)
kind_valid r other_kind = false

unfoldable pub pending_valid : CpuFeedbackState → CpuWindowRecord → Bool
pending_valid s r =
    not (is_set r.settled_at)
    && not (is_set r.cpu_time_ns)
    && not (is_set r.elapsed_ns)
    && window_reason_eq r.reason no_reason
    && (r.backoff_ns == 0)
    && not r.backoff_capped
    && not (is_set s.next_allowed_at)

abbrev pub measurement_of : CpuWindowRecord → CpuWindowMeasurement
measurement_of r = record {
  cpu_time_ns = r.cpu_time_ns;
  elapsed_ns = r.elapsed_ns;
  reason = r.reason;
}

-- The wait of an observed window is the one that the formula gives.
unfoldable pub observed_wait_valid : CpuWindowRecord → Option ℤ → Option ℤ → Bool
observed_wait_valid r (some cpu) (some elapsed) =
    (r.backoff_ns == (cpu_feedback_wait cpu elapsed).0)
    && same_bool r.backoff_capped (cpu_feedback_wait cpu elapsed).1
observed_wait_valid r _ _ = false

unfoldable pub outcome_valid : CpuFeedbackState → CpuWindowRecord → WindowStatus → Bool
outcome_valid s r observed =
    cpu_measurement_valid (measurement_of r)
    && is_set r.cpu_time_ns
    && observed_wait_valid r r.cpu_time_ns r.elapsed_ns
outcome_valid s r completed_unknown =
    not (is_set r.cpu_time_ns)
    && cpu_measurement_valid (measurement_of r)
    && (r.backoff_ns == 0)
    && not r.backoff_capped
    && leb 1 s.completed_unknown_windows
outcome_valid s r recovered_unknown =
    not (is_set r.cpu_time_ns)
    && not (is_set r.elapsed_ns)
    && window_reason_eq r.reason interrupted_window
    && (r.backoff_ns == hour)
    && not r.backoff_capped
    && leb 1 s.recovered_unknown_windows
outcome_valid s r _ = false

abbrev pub equals : Option ℕ → Option ℕ → Bool
equals (some a) (some b) = a == b
equals _ _ = false

-- The end of the wait after a settled window.
unfoldable pub next_valid : CpuFeedbackState → CpuWindowRecord → ℕ → Bool
next_valid s r settled = elim (r.backoff_ns == 0) [
  | true ↦ not (is_set s.next_allowed_at)
  | false ↦ equals s.next_allowed_at (cpu_feedback_add settled r.backoff_ns)
]

unfoldable pub settled_valid : CpuFeedbackState → CpuWindowRecord → ℕ → Option ℕ → Bool
settled_valid s r high none = false
settled_valid s r high (some settled) =
    leb r.recorded_at settled
    && leb settled high
    && outcome_valid s r r.status
    && next_valid s r settled

unfoldable pub status_valid : CpuFeedbackState → CpuWindowRecord → ℕ → WindowStatus → Bool
status_valid s r high pending = pending_valid s r
status_valid s r high _ = settled_valid s r high r.settled_at

unfoldable pub window_valid : CpuFeedbackState → CpuWindowRecord → ℕ → ℕ → ℕ → Bool
window_valid s r tracked high begun =
    window_identity_valid r
    && instants_valid s r tracked high begun
    && order_valid s r tracked high begun
    && kind_valid r r.kind
    && status_valid s r high r.status

unfoldable pub valid_cpu_feedback : CpuFeedbackState → Bool
valid_cpu_feedback s = elim s.window [
  | none ↦ false
  | some r ↦ elim s.tracking_started_at [
    | none ↦ false
    | some tracked ↦ elim s.clock_high_water [
      | none ↦ false
      | some high ↦ elim s.last_begun_dispatch_at [
        | none ↦ false
        | some begun ↦ window_valid s r tracked high begun
      ]
    ]
  ]
]
