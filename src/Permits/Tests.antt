-- ===== src/Permits/Tests.antt =====
-- A permit window and its pacer (internal/worker/metadata_window.go, internal/worker/api_pacing.go)
-- on a few attempts.
use saga_rydd.Prelude.{
  ℕ, ◌+◌, ◌-◌, ◌*◌, ◌≤◌, ◌<◌, ◌≡◌, refl, false, none, some, List, [], ◌∷◌, arith, ok,
}
use saga_rydd.Prelude.Int.{pos}
use saga_rydd.Permits.Window.{
  Context, stat, MetadataWindow, fence_at, permit_at, startup_api_attempt_allowance,
  cpu_timeval_sum,
}
use saga_rydd.Permits.Pacer.{SourceApiPacer, second, spacing_of, permit_turn, fence, delay}
use saga_rydd.Permits.Bounds.{
  Attempt, permit_all, startup_allowance_exact, cpu_timeval_sum_exact, permit_all_bounded,
  permit_at_in_time,
}
use saga_rydd.Permits.Spacing.{turn_all, turn_all_spaced}

startup_allowance_exact_example : startup_api_attempt_allowance 2 3 5 ≡ some 44
startup_allowance_exact_example = startup_allowance_exact 2 3 5

cpu_timeval_sum_exact_example :
    cpu_timeval_sum (pos 3) (pos 250000) (pos 1) (pos 500000) ≡ some (pos 4750000000)
cpu_timeval_sum_exact_example = cpu_timeval_sum_exact 3 250000 1 500000 (omega arith) (omega arith)

abbrev live : Context
live = record { done = false; until = none }

-- Two attempts are allowed, in one second of work.
abbrev window : MetadataWindow
window = record {
  allowance = 2;
  expires_at = 9000000000;
  deadline = 1000000500;
  wall_deadline = 2000000000;
  high_water = 1000000000;
  observed = 0;
}

abbrev ask : ℕ → Attempt
ask late = record {
  context = some live;
  kind = stat;
  wall = 1000000000 + late;
  elapsed = 500 + late;
}

abbrev attempts : List Attempt
attempts = ask 10 ∷ ask 20 ∷ ask 30 ∷ []

admits_two : (permit_all window attempts).1 ≡ 2
unfolding permit_all permit_at fence_at
admits_two = refl

permit_all_bounded_example : 0 + (permit_all window attempts).1 ≤ 2
permit_all_bounded_example = permit_all_bounded window attempts (omega arith)

admitted_once :
    permit_at window (some live) stat 1000000010 510
    ≡ (record window { high_water = 1000000010; observed = 1 }, ok tt)
unfolding permit_at fence_at
admitted_once = refl

permit_at_in_time_example :
    (1000000000 ≤ 1000000010)
    × (1000000010 < 2000000000)
    × (1000000010 < 9000000000)
    × (510 < 1000000500)
    × (0 < 2)
permit_at_in_time_example =
    permit_at_in_time window (record window { high_water = 1000000010; observed = 1 }) (some live)
      stat 1000000010 510 admitted_once

-- 10 attempts a second: 100 ms apart.
abbrev pacer : SourceApiPacer
pacer = record {
  rate = 10;
  work = 1000000000;
  spacing = 100000000;
  entry_space = 100000000;
  bounds = record {
    startup = 1;
    minimum_next = 1;
    maximum_next = 1;
    final_validation = 1;
    entry = 1;
  };
  last = some (1000000000, 500);
  high_wall = 1000000000;
  high_elapsed = 500;
  profile_blocked = false;
}

-- The second of these waits.
abbrev paced : List Attempt
paced = ask 100000000 ∷ ask 150000000 ∷ ask 200000000 ∷ []

paced_two : (turn_all pacer window paced).1 ≡ 2
unfolding turn_all permit_turn fence delay permit_at fence_at
paced_two = refl

paced_last : (turn_all pacer window paced).0.last ≡ some (1200000000, 200000500)
unfolding turn_all permit_turn fence delay permit_at fence_at
paced_last = refl

pacer_spacing : 100000000 ≡ spacing_of 10
unfolding spacing_of
pacer_spacing = refl

turn_all_spaced_example :
    ((turn_all pacer window paced).1 * second ≤ 10 * (1200000000 - 1000000000))
    × ((turn_all pacer window paced).1 * second ≤ 10 * (200000500 - 500))
turn_all_spaced_example =
    turn_all_spaced pacer window paced 1000000000 500 1200000000 200000500 refl (omega arith)
      pacer_spacing paced_last
