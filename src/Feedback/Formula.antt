-- ===== src/Feedback/Formula.antt =====
-- Closed forms of the waits of internal/state/cpu_feedback.go and internal/state/cpu_charges.go.
use saga_rydd.Prelude.{ℕ, zero, suc, ◌+◌, ◌-◌, ◌*◌, ◌≤◌, ◌<◌, min, ◌≡◌, false, ltb, arith}
use saga_rydd.Prelude.Int.{ℤ, pos, negsuc}
use saga_rydd.Feedback.{backoff_limit, cpu_feedback_wait, cpu_charges_prefix_wait}

-- For nonnegative CPU time and positive elapsed time the wait is 100 * cpu - elapsed (0 when that is
-- negative) cut off at one hour, and it is marked as capped exactly when the cut took effect.
pub cpu_feedback_wait_exact :
    (cpu elapsed : ℕ)
    → 0 < elapsed
    → cpu_feedback_wait (pos cpu) (pos elapsed)
      ≡ (min backoff_limit (100 * cpu - elapsed), ltb backoff_limit (100 * cpu - elapsed))
unfolding cpu_feedback_wait
cpu_feedback_wait_exact cpu zero h = elim h [ ]
cpu_feedback_wait_exact cpu (suc e) h = ground arith

-- For positive elapsed time, a wait that is not capped makes the CPU time at most 1% of elapsed time
-- and wait together, and exactly 1% when it is positive.
pub cpu_feedback_wait_percent :
    (cpu elapsed wait : ℕ)
    → 0 < elapsed
    → cpu_feedback_wait (pos cpu) (pos elapsed) ≡ (wait, false)
    → (100 * cpu ≤ elapsed + wait) × (0 < wait → 100 * cpu ≡ elapsed + wait)
unfolding cpu_feedback_wait
cpu_feedback_wait_percent cpu zero wait h e = elim h [ ]
cpu_feedback_wait_percent cpu (suc k) wait h e = ground arith

-- Every input, negative ones included, gives a wait of at most one hour.
pub cpu_feedback_wait-le : (cpu elapsed : ℤ) → (cpu_feedback_wait cpu elapsed).0 ≤ backoff_limit
unfolding cpu_feedback_wait
cpu_feedback_wait-le (negsuc c) elapsed = omega arith
cpu_feedback_wait-le (pos c) (negsuc e) = omega arith
cpu_feedback_wait-le (pos c) (pos zero) = omega arith
cpu_feedback_wait-le (pos c) (pos (suc e)) = ground arith

-- For nonnegative CPU time the prospective wait is 100 * cpu cut off at one hour, and it is marked as
-- capped exactly when the cut took effect.
pub cpu_charges_prefix_wait_exact :
    (cpu : ℕ)
    → cpu_charges_prefix_wait (pos cpu)
      ≡ (min backoff_limit (100 * cpu), ltb backoff_limit (100 * cpu))
unfolding cpu_charges_prefix_wait
cpu_charges_prefix_wait_exact cpu = ground arith

pub cpu_charges_prefix_wait-le : (cpu : ℤ) → (cpu_charges_prefix_wait cpu).0 ≤ backoff_limit
unfolding cpu_charges_prefix_wait
cpu_charges_prefix_wait-le (negsuc c) = omega arith
cpu_charges_prefix_wait-le (pos c) = ground arith
