-- ===== src/Dispatch/Tests.antt =====
-- The cadence of internal/state/dispatch.go on concrete calls.
use saga_rydd.Prelude.{arith, ◌+◌, ◌≤◌, ◌≡◌, refl, none, some, [], ◌∷◌, ok, false}
use saga_rydd.Prelude.Int.{pos}
use saga_rydd.Int64.{to_int64}
use saga_rydd.Clock.{day_of, day_end}
use saga_rydd.Dispatch.{DispatchRow, DispatchBudget, cadence, reserve_scan_chunk, dispatch_budget}
use saga_rydd.Dispatch.Cadence.{reserve_scan_chunk_spacing, granted, count_day, granted_daily_limit}

-- the second call comes too early, and the fourth exceeds the limit of two
granted_daily_limit_example :
    count_day 0 (granted 2 none ((5, 10) ∷ (9, 10) ∷ (15, 10) ∷ (40, 10) ∷ [])) ≤ 2
granted_daily_limit_example = granted_daily_limit 2 0 ((5, 10) ∷ (9, 10) ∷ (15, 10) ∷ (40, 10) ∷ [])

abbrev first_row : DispatchRow
first_row = record { day = 0; chunks = 1; last_start_ns = 5; next_start_ns = pos 15 }

abbrev first_budget : DispatchBudget
first_budget = record { day = 0; used = 1; limit = 2; next_allowed = 15; reason = some cadence }

abbrev second_row : DispatchRow
second_row = record { day = 0; chunks = 2; last_start_ns = 15; next_start_ns = pos 25 }

abbrev second_budget : DispatchBudget
second_budget = record { day = 0; used = 2; limit = 2; next_allowed = 25; reason = some cadence }

first_call : reserve_scan_chunk false none 5 10 2 ≡ ok (first_row, first_budget)
unfolding reserve_scan_chunk to_int64 dispatch_budget day_of day_end
first_call = refl

second_call : reserve_scan_chunk false (some first_row) 15 10 2 ≡ ok (second_row, second_budget)
unfolding reserve_scan_chunk to_int64 dispatch_budget day_of day_end
second_call = refl

reserve_scan_chunk_spacing_example : 5 + 10 ≤ 15
reserve_scan_chunk_spacing_example =
    reserve_scan_chunk_spacing none 5 10 2 15 10 2 (omega arith) first_call second_call
