-- ===== src/Feedback.antt =====
-- The bounded 1% feedback formula of the CPU accounting (internal/state/cpu_feedback.go) and its
-- prospective variant for a session's prefix (internal/state/cpu_charges.go). Durations are int64
-- nanoseconds.
pub mod Formula
pub mod Tests
use saga_rydd.Prelude.{
  ℕ, zero, suc, ◌+◌, ◌-◌, ◌*◌, ◌/◌, ◌%◌, Bool, true, false, ltb, leb, if◌then◌else◌,
}
use saga_rydd.Prelude.Int.{ℤ, pos, negsuc}

-- time.Hour
abbrev pub hour : ℕ
hour = 3600000000000

abbrev pub backoff_limit : ℕ
backoff_limit = hour

-- Once `elapsed / 100 < cpu` is known the subtractions below do not stop at 0.
unfoldable pub cpu_feedback_wait : ℤ → ℤ → ℕ × Bool
cpu_feedback_wait (negsuc _) _ = (0, false)
cpu_feedback_wait (pos _) (negsuc _) = (0, false)
cpu_feedback_wait (pos _) (pos zero) = (0, false)
cpu_feedback_wait (pos cpu) (pos (suc e)) =
    let elapsed : ℕ = suc e in
    if leb cpu (elapsed / 100)
    then (0, false)
    else let headroom : ℕ = cpu - elapsed / 100 in
      if ltb (backoff_limit / 100 + 1) headroom
      then (backoff_limit, true)
      else let wait : ℕ = headroom * 100 - elapsed % 100 in
        if ltb backoff_limit wait then (backoff_limit, true) else (wait, false)

unfoldable pub cpu_charges_prefix_wait : ℤ → ℕ × Bool
cpu_charges_prefix_wait (negsuc _) = (0, false)
cpu_charges_prefix_wait (pos cpu) =
    if ltb (backoff_limit / 100) cpu then (backoff_limit, true) else (cpu * 100, false)
