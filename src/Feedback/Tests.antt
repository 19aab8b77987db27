-- ===== src/Feedback/Tests.antt =====
-- The waits of internal/state/cpu_feedback.go at concrete durations.
use saga_rydd.Prelude.{◌+◌, ◌-◌, ◌*◌, ◌≤◌, ◌<◌, min, ◌≡◌, refl, false, ltb, arith}
use saga_rydd.Prelude.Int.{pos}
use saga_rydd.Feedback.{backoff_limit, cpu_feedback_wait, cpu_charges_prefix_wait}
use saga_rydd.Feedback.Formula.{
  cpu_feedback_wait_exact, cpu_feedback_wait_percent, cpu_charges_prefix_wait_exact,
}

-- 2 ms of CPU in 50 ms
cpu_feedback_wait_exact_example :
    cpu_feedback_wait (pos 2000000) (pos 50000000)
    ≡ (min backoff_limit (100 * 2000000 - 50000000), ltb backoff_limit (100 * 2000000 - 50000000))
cpu_feedback_wait_exact_example = cpu_feedback_wait_exact 2000000 50000000 (omega arith)

short_wait : cpu_feedback_wait (pos 2000000) (pos 50000000) ≡ (150000000, false)
unfolding cpu_feedback_wait
short_wait = refl

cpu_feedback_wait_percent_example :
    (100 * 2000000 ≤ 50000000 + 150000000) × (0 < 150000000 → 100 * 2000000 ≡ 50000000 + 150000000)
cpu_feedback_wait_percent_example =
    cpu_feedback_wait_percent 2000000 50000000 150000000 (omega arith) short_wait

-- 40 s of CPU before the session, which is more than 1% of the longest wait
cpu_charges_prefix_wait_exact_example :
    cpu_charges_prefix_wait (pos 40000000000)
    ≡ (min backoff_limit (100 * 40000000000), ltb backoff_limit (100 * 40000000000))
cpu_charges_prefix_wait_exact_example = cpu_charges_prefix_wait_exact 40000000000
