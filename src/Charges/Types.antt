-- ===== src/Charges/Types.antt =====
-- The records of the charge ledger and the tests on a single request (internal/state/cpu_charges.go).
-- Counters, generations, ordinals and charges are int64 values that the ledger refuses when negative,
-- and are natural numbers here; the two observations, which may be negative, are integers. The
-- constant fields (contract, scope and the four evidence flags) are left out. A nil pointer is `none`.
use saga_rydd.Prelude.{
  ℕ, Bool, true, false, ◌&&◌, ◌||◌, Option, none, some, List, bytes_eq, ltb, ◌==◌,
}
use saga_rydd.Prelude.Int.{ℤ, pos, negsuc}
use saga_rydd.Clock.{cpu_feedback_time, metadata_digest}

-- The saved reasons. `other` is any other text, which every check of a request refuses.
pub data Reason : Type 0 where
  no_reason cpu_observation_unavailable cpu_observation_invalid cpu_observation_regressed : Reason
  elapsed_window_invalid cpu_clock_rollback interrupted_session graceful_tail_unobserved : Reason
  other : Reason

abbrev reason_code : Reason → ℕ
reason_code no_reason = 0
reason_code cpu_observation_unavailable = 1
reason_code cpu_observation_invalid = 2
reason_code cpu_observation_regressed = 3
reason_code elapsed_window_invalid = 4
reason_code cpu_clock_rollback = 5
reason_code interrupted_session = 6
reason_code graceful_tail_unobserved = 7
reason_code other = 8

abbrev pub reason_eq : Reason → Reason → Bool
reason_eq a b = reason_code a == reason_code b

pub data ChargeStatus : Type 0 where
  unavailable untracked active finished unknown recovered_unknown : ChargeStatus

abbrev status_code : ChargeStatus → ℕ
status_code unavailable = 0
status_code untracked = 1
status_code active = 2
status_code finished = 3
status_code unknown = 4
status_code recovered_unknown = 5

abbrev pub status_eq : ChargeStatus → ChargeStatus → Bool
status_eq a b = status_code a == status_code b

pub data ChargesError : Type 0 where
  invalid unavailable_ledger corrupt read_only stale overflow clock_rollback : ChargesError
  unknown_session authority_refused policy_required nil_dereference : ChargesError

pub record CpuSessionStart : Type 0 where
  pub expected_generation : ℕ
  pub nonce : List ℕ
  pub instance_id : List ℕ
  pub observed_at : ℕ
  pub self_cpu_ns : Option ℤ
  pub reason : Reason

pub record CpuSessionSample : Type 0 where
  pub ordinal : ℕ
  pub observed_at : ℕ
  pub self_cpu_ns : Option ℤ
  pub elapsed_ns : Option ℤ
  pub reason : Reason

pub record CpuSessionRecord : Type 0 where
  pub generation : ℕ
  pub start : CpuSessionStart
  pub status : ChargeStatus
  pub initial_prefix_charge_ns : ℕ
  pub session_charged_cpu_ns : ℕ
  pub last_self_cpu_ns : Option ℕ
  pub last_ordinal : ℕ
  pub last_sample : Option CpuSessionSample
  pub last_sample_final : Bool
  pub closed_at : Option ℕ
  pub closure_reason : Reason
  pub last_charge_ns : ℕ
  pub last_backoff_ns : ℕ
  pub last_backoff_capped : Bool

pub record CpuChargeState : Type 0 where
  pub available : Bool
  pub status : ChargeStatus
  pub generation : ℕ
  pub charged_cpu_ns : ℕ
  pub closed_sessions : ℕ
  pub unknown_tail_sessions : ℕ
  pub open_tail_unobserved : Bool
  pub recovered_sessions : ℕ
  pub activated_at : Option ℕ
  pub clock_high_water : Option ℕ
  pub next_allowed_at : Option ℕ
  pub session : Option CpuSessionRecord

unfoldable pub cpu_charges_base : Bool → CpuChargeState
cpu_charges_base available = record {
  available = available;
  status = elim available [ true ↦ untracked | false ↦ unavailable ];
  generation = 0;
  charged_cpu_ns = 0;
  closed_sessions = 0;
  unknown_tail_sessions = 0;
  open_tail_unobserved = false;
  recovered_sessions = 0;
  activated_at = none;
  clock_high_water = none;
  next_allowed_at = none;
  session = none;
}

-- sameCPUNS
abbrev pub same_ns : Option ℤ → Option ℤ → Bool
same_ns none none = true
same_ns (some (pos a)) (some (pos b)) = a == b
same_ns (some (negsuc a)) (some (negsuc b)) = a == b
same_ns _ _ = false

unfoldable pub same_cpu_start : CpuSessionStart → CpuSessionStart → Bool
same_cpu_start a b =
    (a.expected_generation == b.expected_generation)
    && bytes_eq a.nonce b.nonce
    && bytes_eq a.instance_id b.instance_id
    && (a.observed_at == b.observed_at)
    && same_ns a.self_cpu_ns b.self_cpu_ns
    && reason_eq a.reason b.reason

unfoldable pub same_cpu_sample : CpuSessionSample → CpuSessionSample → Bool
same_cpu_sample a b =
    (a.ordinal == b.ordinal)
    && (a.observed_at == b.observed_at)
    && same_ns a.self_cpu_ns b.self_cpu_ns
    && same_ns a.elapsed_ns b.elapsed_ns
    && reason_eq a.reason b.reason

-- cpuChargesInputCPU with cpuChargesReason
unfoldable pub cpu_charges_input_cpu : Option ℤ → Reason → Bool
cpu_charges_input_cpu (some cpu) reason = reason_eq reason no_reason
cpu_charges_input_cpu none reason =
    reason_eq reason cpu_observation_unavailable || reason_eq reason cpu_observation_invalid

-- Every instant here is in UTC, so the test of the location always passes.
unfoldable pub cpu_charges_time : ℕ → Bool
unfolding cpu_feedback_time
cpu_charges_time at = elim (cpu_feedback_time at) [ none ↦ false | some _ ↦ true ]

unfoldable pub cpu_charges_start_valid : CpuSessionStart → Bool
cpu_charges_start_valid s =
    metadata_digest s.nonce 64
    && metadata_digest s.instance_id 32
    && cpu_charges_time s.observed_at
    && cpu_charges_input_cpu s.self_cpu_ns s.reason

unfoldable pub cpu_charges_sample_valid : CpuSessionSample → Bool
cpu_charges_sample_valid s =
    ltb 0 s.ordinal
    && cpu_charges_time s.observed_at
    && cpu_charges_input_cpu s.self_cpu_ns s.reason

-- elapsed == nil || *elapsed <= 0
abbrev pub elapsed_missing : Option ℤ → Bool
elapsed_missing none = true
elapsed_missing (some (negsuc _)) = true
elapsed_missing (some (pos n)) = n == 0

unfoldable pub cpu_charges_problem : Option ℤ → Reason → Option ℤ → Bool → Reason
cpu_charges_problem none reason _ _ = reason
cpu_charges_problem (some (negsuc _)) _ _ _ = cpu_observation_invalid
cpu_charges_problem (some (pos _)) _ elapsed require_elapsed =
    elim (require_elapsed && elapsed_missing elapsed) [
      | true ↦ elapsed_window_invalid
      | false ↦ no_reason
    ]
