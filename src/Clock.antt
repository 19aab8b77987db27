-- ===== src/Clock.antt =====
-- Instants and durations in nanoseconds, the UTC calendar days of the ledgers, and the checks that
-- they share (cpuFeedbackTime and cpuFeedbackAdd of internal/state/cpu_feedback.go, metadataTime and
-- metadataDigest of internal/state/metadata_budget.go). An instant is its nanoseconds since
-- 1970-01-01T00:00:00Z; earlier instants, which the ledgers refuse, are not represented. A UTC date
-- YYYY-MM-DD is the number of days since 1970-01-01, so dates compare as their texts do.
use saga_rydd.Prelude.{
  ℕ, ◌+◌, ◌*◌, ◌/◌, Bool, true, false, ◌&&◌, ◌||◌, Option, none, some, List, [], ◌∷◌, ltb, leb,
  ◌==◌, length, if◌then◌else◌,
}
use saga_rydd.Prelude.Int.{max_int64}

-- 24 * time.Hour
abbrev pub day_ns : ℕ
day_ns = 86400000000000

-- The UTC date of an instant.
unfoldable pub day_of : ℕ → ℕ
day_of now = now / day_ns

-- The first instant of the day after a date.
unfoldable pub day_end : ℕ → ℕ
day_end day = (day + 1) * day_ns

-- `none` is ErrCPUFeedbackInvalid: the instant has no positive int64 nanosecond count.
unfoldable pub cpu_feedback_time : ℕ → Option ℕ
cpu_feedback_time at = if leb at 0 || ltb max_int64 at then none else some at

-- `none` is ErrMetadataInvalid; otherwise the instant and the next midnight.
unfoldable pub metadata_time : ℕ → Option (ℕ × ℕ)
unfolding day_of day_end
metadata_time now =
    if leb now 0 || ltb max_int64 now
    then none
    else let midnight : ℕ = day_end (day_of now) in
      if ltb max_int64 midnight then none else some (now, midnight)

hex_digits : List ℕ → Bool
hex_digits [] = true
hex_digits (c ∷ cs) =
    if ltb c b'0' || ltb b'9' c && ltb c b'a' || ltb b'f' c then false else hex_digits cs

unfoldable pub metadata_digest : List ℕ → ℕ → Bool
unfolding hex_digits
metadata_digest token size = (length token == size) && hex_digits token

-- The instant `wait` after `at`; `none` is ErrCPUFeedbackInvalid. The limit is time.Hour.
unfoldable pub cpu_feedback_add : ℕ → ℕ → Option ℕ
unfolding cpu_feedback_time
cpu_feedback_add at wait =
    if ltb 3600000000000 wait || ltb max_int64 (at + wait)
    then none
    else cpu_feedback_time (at + wait)
