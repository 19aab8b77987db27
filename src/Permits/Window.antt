-- ===== src/Permits/Window.antt =====
-- metadataWindow (internal/worker/metadata_window.go), StartupAPIAttemptAllowance
-- (internal/inventory/permit.go) and cpuTimevalSum (internal/worker/cpu_clock.go).
-- A reading of the wall clock is its nanoseconds since 1970, one of the elapsed clock its nanoseconds
-- since some start. The lock around an operation makes it one step here.
use saga_rydd.Prelude.{
  ℕ, ◌+◌, ◌-◌, ◌*◌, ◌/◌, min, max, Bool, true, false, ◌||◌, Option, none, some, List, [], ◌∷◌, leb,
  ltb, ◌==◌, if◌then◌else◌, Result, ok, err,
}
use saga_rydd.Int64.{to_int64, lt_int, max_minus, add_int64}
use saga_rydd.Prelude.Int.{ℤ, pos, max_int64}

-- A context: whether it is done, and the time left to its deadline, if it has one.
pub record Context : Type 0 where
  pub done : Bool
  pub until : Option ℕ

-- The names of scanner API attempts. `other_kind` is any other text.
pub data ApiCallKind : Type 0 where
  stat directory_open directory_read filesystem_stat mount_identity path_resolution other_kind :
      ApiCallKind

pub data PermitError : Type 0 where
  metadata_invalid context_done window_expired window_rollback window_exhausted pacing_input :
      PermitError

pub record MetadataWindow : Type 0 where
  pub allowance : ℕ
  pub expires_at : ℕ
  pub deadline : ℕ
  pub wall_deadline : ℕ
  pub high_water : ℕ
  pub observed : ℕ

-- MaxAPIAttemptAllowance and MetadataAllowanceLimit
abbrev pub allowance_limit : ℕ
allowance_limit = 65536

-- metadataWindowWithClocks, for one reading of each clock. A deadline before the start of the elapsed
-- clock counts as that start: no reading is before either.
unfoldable pub metadata_window_with_clocks : ℕ → ℕ → ℕ → ℕ → ℕ → ℕ → ℕ → MetadataWindow
metadata_window_with_clocks allowance started_at expires_at high_water work wall elapsed =
    let wall_deadline : ℕ = min (started_at + work) expires_at in
    record {
      allowance = allowance;
      expires_at = expires_at;
      deadline =
          (if ltb wall_deadline wall
            then elapsed - (wall - wall_deadline)
            else elapsed + min (wall_deadline - wall) work);
      wall_deadline = wall_deadline;
      high_water = high_water;
      observed = 0;
    }

abbrev pub until_deadline : ℕ → Option ℕ → ℕ
until_deadline remaining none = remaining
until_deadline remaining (some left) = min remaining left

abbrev pub seen : MetadataWindow → ℕ → MetadataWindow
seen w wall = record w { high_water = max w.high_water wall }

abbrev pub remaining_at : MetadataWindow → Context → ℕ → ℕ → ℕ
remaining_at w ctx wall elapsed =
    until_deadline (min (min (w.wall_deadline - wall) (w.expires_at - wall)) (w.deadline - elapsed))
      ctx.until

-- fenceLocked and fenceAt: the time that remains, with the window as it is left.
unfoldable pub fence_at :
    MetadataWindow → Option Context → ℕ → ℕ → MetadataWindow × Result PermitError ℕ
fence_at w none wall elapsed = (w, err metadata_invalid)
fence_at w (some ctx) wall elapsed =
    if ltb w.allowance 1 || ltb allowance_limit w.allowance
    then (w, err metadata_invalid)
    else if ctx.done
    then (seen w wall, err context_done)
    else if ltb wall w.high_water
    then (seen w wall, err window_rollback)
    else if remaining_at w ctx wall elapsed == 0
    then (seen w wall, err window_expired)
    else (seen w wall, ok (remaining_at w ctx wall elapsed))

abbrev pub known_kind : ApiCallKind → Bool
known_kind other_kind = false
known_kind _ = true

-- Counts the attempt that the fence lets through.
abbrev pub admit :
    MetadataWindow × Result PermitError ℕ → MetadataWindow × Result PermitError (Unit {0})
admit (w, err why) = (w, err why)
admit (w, ok remaining) =
    if leb w.allowance w.observed
    then (w, err window_exhausted)
    else (record w { observed = w.observed + 1 }, ok tt)

unfoldable pub permit_at :
    MetadataWindow
    → Option Context
    → ApiCallKind
    → ℕ
    → ℕ
    → MetadataWindow × Result PermitError (Unit {0})
unfolding fence_at
permit_at w none kind wall elapsed = (w, err metadata_invalid)
permit_at w (some ctx) kind wall elapsed =
    if ctx.done
    then (w, err context_done)
    else if known_kind kind
    then admit (fence_at w (some ctx) wall elapsed)
    else (w, err metadata_invalid)

unfoldable pub inherit_high_water : MetadataWindow → MetadataWindow → MetadataWindow
inherit_high_water w previous = record w {
  high_water = max w.high_water previous.high_water;
  deadline = min w.deadline previous.deadline;
  wall_deadline = min w.wall_deadline previous.wall_deadline;
}

-- The loop of StartupAPIAttemptAllowance over the three counts.
unfoldable pub add_counts : ℕ → List ℕ → Option ℕ
add_counts total [] = some total
add_counts total (count ∷ counts) =
    let rest = add_counts (total + count) counts in
    if ltb (allowance_limit / 2 - total) count then none else rest

-- `none` is the error for an allowance over 65536 attempts.
unfoldable pub startup_api_attempt_allowance : ℕ → ℕ → ℕ → Option ℕ
unfolding add_counts
startup_api_attempt_allowance roots excludes private_paths =
    elim (add_counts 12 (roots ∷ excludes ∷ private_paths ∷ [])) [
      | none ↦ none
      | some total ↦ some (2 * total)
    ]

-- The nanoseconds of one timeval; `none` is an error.
unfoldable pub timeval_ns : ℤ → ℤ → Option ℤ
timeval_ns (pos seconds) (pos micros) =
    if leb 1000000 micros || ltb (max_int64 / 1000000000) seconds
    then none
    else let nanos : ℤ = to_int64 (seconds * 1000000000) in
      let fraction : ℤ = to_int64 (micros * 1000) in
      if lt_int (max_minus fraction) nanos then none else some (add_int64 nanos fraction)
timeval_ns _ _ = none

unfoldable pub timeval_total : Option ℤ → Option ℤ → Option ℤ
timeval_total (some user) (some system) =
    if lt_int (max_minus system) user then none else some (add_int64 user system)
timeval_total _ _ = none

unfoldable pub cpu_timeval_sum : ℤ → ℤ → ℤ → ℤ → Option ℤ
unfolding timeval_ns
cpu_timeval_sum user_seconds user_micros system_seconds system_micros =
    timeval_total (timeval_ns user_seconds user_micros) (timeval_ns system_seconds system_micros)
