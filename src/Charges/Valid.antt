-- ===== src/Charges/Valid.antt =====
-- validCPUCharges of internal/state/cpu_charges.go, the test that every saved ledger passes when it is
-- read and before it is written, in the parts that its early returns make.
use saga_rydd.Prelude.{
  ℕ, ◌+◌, ◌-◌, Bool, true, false, not, ◌&&◌, ◌||◌, Option, none, some, leb, ltb, ◌==◌,
  if◌then◌else◌,
}
use saga_rydd.Prelude.Int.{ℤ, pos, negsuc, max_int64}
use saga_rydd.Feedback.{backoff_limit, hour, cpu_feedback_wait, cpu_charges_prefix_wait}
use saga_rydd.Charges.Types.{
  Reason, no_reason, cpu_clock_rollback, interrupted_session, graceful_tail_unobserved,
  cpu_observation_regressed, reason_eq, ChargeStatus, untracked, active, finished, unknown,
  recovered_unknown, status_eq, CpuSessionSample, CpuSessionRecord, CpuChargeState, same_ns,
  cpu_charges_time, cpu_charges_start_valid, cpu_charges_sample_valid, cpu_charges_problem,
}

abbrev pub signed : Option ℕ → Option ℤ
signed none = none
signed (some n) = some (pos n)

-- A pointer that is nil or negative counts as 0.
abbrev pub nonneg_part : Option ℤ → ℕ
nonneg_part (some (pos n)) = n
nonneg_part _ = 0

abbrev pub is_some {ℓ} : {A : Type ℓ} → Option A → Bool
is_some none = false
is_some (some _) = true

-- at is set and not before `from`
abbrev pub not_before : Option ℕ → ℕ → Bool
not_before none from = false
not_before (some at) from = leb from at

unfoldable pub next_within : Option ℕ → ℕ → Bool
next_within none high = true
next_within (some next) high = cpu_charges_time next && leb (next - high) backoff_limit

unfoldable pub untracked_valid : CpuChargeState → Bool
untracked_valid s =
    status_eq s.status untracked
    && not (is_some s.session)
    && (s.charged_cpu_ns == 0)
    && (s.closed_sessions == 0)
    && not (is_some s.next_allowed_at)
    && not s.open_tail_unobserved

-- The bounds and the request of the current session.
unfoldable pub record_valid : CpuChargeState → ℕ → ℕ → CpuSessionRecord → Bool
record_valid s activated high r =
    (r.generation == s.generation)
    && cpu_charges_start_valid r.start
    && ltb r.start.expected_generation max_int64
    && (r.start.expected_generation + 1 == r.generation)
    && leb activated r.start.observed_at
    && leb r.start.observed_at high
    && status_eq r.status s.status
    && leb r.initial_prefix_charge_ns r.session_charged_cpu_ns
    && leb r.session_charged_cpu_ns s.charged_cpu_ns
    && leb r.last_charge_ns r.session_charged_cpu_ns
    && leb r.last_backoff_ns backoff_limit
    && (nonneg_part r.start.self_cpu_ns == r.initial_prefix_charge_ns)

unfoldable pub last_self_valid : CpuSessionRecord → Option ℕ → Bool
last_self_valid r none = r.session_charged_cpu_ns == 0
last_self_valid r (some last) = last == r.session_charged_cpu_ns

-- A start's observation, nil if it was negative.
abbrev pub known_start : Option ℤ → Option ℤ
known_start (some (pos n)) = some (pos n)
known_start _ = none

unfoldable pub last_sample_valid : CpuSessionRecord → ℕ → Option CpuSessionSample → Bool
last_sample_valid r high none =
    (r.last_ordinal == 0)
    && not r.last_sample_final
    && same_ns (signed r.last_self_cpu_ns) (known_start r.start.self_cpu_ns)
last_sample_valid r high (some q) =
    cpu_charges_sample_valid q && (q.ordinal == r.last_ordinal) && leb q.observed_at high

-- A wait since `anchor` is recorded and covered by the next allowed instant.
unfoldable pub wait_valid : CpuChargeState → CpuSessionRecord → ℕ → ℕ → ℕ × Bool → Bool
wait_valid s r high anchor (wait, capped) =
    (r.last_backoff_ns == wait)
    && (if capped then r.last_backoff_capped else not r.last_backoff_capped)
    && (anchor == high)
    && (leb wait 0 || not_before s.next_allowed_at (anchor + wait))

abbrev pub problem_of : CpuSessionSample → Reason
problem_of q = cpu_charges_problem q.self_cpu_ns q.reason q.elapsed_ns true

-- *q.ElapsedNS, which is read only where `is_some q.elapsed_ns` was tested.
abbrev pub elapsed_of : CpuSessionSample → ℤ
elapsed_of q = elim q.elapsed_ns [ none ↦ pos 0 | some n ↦ n ]

-- For a session that is active or finished. A nil ElapsedNS, at which the source would panic after the
-- test of the problem, is refused.
unfoldable pub live_valid : CpuChargeState → CpuSessionRecord → ℕ → Option CpuSessionSample → Bool
live_valid s r high none =
    (r.last_charge_ns == r.initial_prefix_charge_ns)
    && wait_valid s r high r.start.observed_at
        (cpu_charges_prefix_wait (pos r.initial_prefix_charge_ns))
live_valid s r high (some q) =
    reason_eq (problem_of q) no_reason
    && leb r.initial_prefix_charge_ns (nonneg_part q.self_cpu_ns)
    && same_ns (signed r.last_self_cpu_ns) q.self_cpu_ns
    && is_some q.elapsed_ns
    && wait_valid s r high q.observed_at (cpu_feedback_wait (pos r.last_charge_ns) (elapsed_of q))

abbrev pub nonneg : Option ℤ → Bool
nonneg (some (pos _)) = true
nonneg _ = false

unfoldable pub active_valid : CpuChargeState → CpuSessionRecord → Bool
active_valid s r =
    s.open_tail_unobserved
    && (s.closed_sessions + 1 == s.generation)
    && not (is_some r.closed_at)
    && reason_eq r.closure_reason no_reason
    && nonneg r.start.self_cpu_ns
    && not r.last_sample_final

-- An hour's wait since the closing of a session whose tail is unknown.
unfoldable pub unknown_wait_valid : CpuChargeState → CpuSessionRecord → ℕ → Bool
unknown_wait_valid s r closed =
    (r.last_backoff_ns == hour)
    && not r.last_backoff_capped
    && not_before s.next_allowed_at (closed + hour)

unfoldable pub finished_valid : CpuSessionRecord → ℕ → Option CpuSessionSample → Bool
finished_valid r closed none = false
finished_valid r closed (some q) =
    (closed == q.observed_at)
    && reason_eq r.closure_reason graceful_tail_unobserved
    && r.last_sample_final
    && reason_eq (problem_of q) no_reason
    && is_some r.last_self_cpu_ns
    && same_ns (signed r.last_self_cpu_ns) q.self_cpu_ns

abbrev pub regressed : Option ℤ → Option ℕ → Bool
regressed (some (pos n)) (some last) = ltb n last
regressed (some (negsuc _)) (some last) = true
regressed _ _ = false

unfoldable pub unknown_reason_valid : CpuSessionRecord → ℕ → Option CpuSessionSample → Bool
unknown_reason_valid r closed none =
    reason_eq (cpu_charges_problem r.start.self_cpu_ns r.start.reason none false) r.closure_reason
    && not (reason_eq r.closure_reason no_reason)
unknown_reason_valid r closed (some q) =
    not (reason_eq (problem_of q) no_reason) && reason_eq (problem_of q) r.closure_reason
    || reason_eq r.closure_reason cpu_clock_rollback && ltb q.observed_at closed
    || reason_eq r.closure_reason cpu_observation_regressed
      && reason_eq (problem_of q) no_reason
      && regressed q.self_cpu_ns r.last_self_cpu_ns

unfoldable pub closed_status_valid : CpuChargeState → CpuSessionRecord → ℕ → ChargeStatus → Bool
closed_status_valid s r closed finished = finished_valid r closed r.last_sample
closed_status_valid s r closed recovered_unknown =
    reason_eq r.closure_reason interrupted_session
    && ltb 0 s.recovered_sessions
    && unknown_wait_valid s r closed
closed_status_valid s r closed unknown =
    unknown_reason_valid r closed r.last_sample
    && (r.last_charge_ns == 0)
    && unknown_wait_valid s r closed
closed_status_valid s r closed _ = false

unfoldable pub closed_valid : CpuChargeState → CpuSessionRecord → ℕ → Option ℕ → Bool
closed_valid s r high none = false
closed_valid s r high (some closed) =
    not s.open_tail_unobserved
    && (s.closed_sessions == s.generation)
    && cpu_charges_time closed
    && leb r.start.observed_at closed
    && leb closed high
    && closed_status_valid s r closed r.status

unfoldable pub phase_valid : CpuChargeState → CpuSessionRecord → ℕ → ChargeStatus → Bool
phase_valid s r high active = live_valid s r high r.last_sample && active_valid s r
phase_valid s r high finished =
    live_valid s r high r.last_sample && closed_valid s r high r.closed_at
phase_valid s r high _ = closed_valid s r high r.closed_at

unfoldable pub session_valid : CpuChargeState → ℕ → ℕ → Option CpuSessionRecord → Bool
session_valid s activated high none = false
session_valid s activated high (some r) =
    record_valid s activated high r
    && last_self_valid r r.last_self_cpu_ns
    && last_sample_valid r high r.last_sample
    && phase_valid s r high r.status

unfoldable pub base_valid : CpuChargeState → ℕ → ℕ → Bool
base_valid s activated high =
    s.available
    && (s.unknown_tail_sessions == s.closed_sessions)
    && leb s.recovered_sessions s.closed_sessions
    && cpu_charges_time activated
    && cpu_charges_time high
    && leb activated high
    && next_within s.next_allowed_at high

unfoldable pub ledger_valid : CpuChargeState → ℕ → ℕ → Bool
ledger_valid s activated high =
    base_valid s activated high
    && (if s.generation == 0 then untracked_valid s else session_valid s activated high s.session)

unfoldable pub valid_cpu_charges : CpuChargeState → Bool
valid_cpu_charges s = elim s.activated_at [
  | none ↦ false
  | some activated ↦ elim s.clock_high_water [
    | none ↦ false
    | some high ↦ ledger_valid s activated high
  ]
]
