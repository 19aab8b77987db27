-- ===== src/Dispatch.antt =====
-- The durable cadence of scan dispatch (internal/state/dispatch.go). The table scan_dispatch holds at
-- most one row. An instant `now` is an int64 count of nanoseconds since 1970, and so is last_start_ns;
-- next_start_ns wraps around where now plus the interval is beyond the int64 range. ReserveScanChunk is called with a Store that is open for
-- writing or not, and a failed SQL statement, which rolls back, is not modelled.
pub mod Cadence
pub mod Tests
use saga_rydd.Prelude.{
  ℕ, suc, ◌+◌, ◌==◌, Bool, true, false, ◌||◌, Option, none, some, ltb, leb, if◌then◌else◌, Result,
  ok, err, ◌>>=◌, ◌>>◌, refuse_if,
}
use saga_rydd.Prelude.Int.{ℤ, pos, negsuc}
use saga_rydd.Int64.{to_int64}
use saga_rydd.Clock.{day_ns, day_of, day_end}

pub data WaitReason : Type 0 where
  cadence daily_chunk_limit clock_rollback : WaitReason

pub record DispatchBudget : Type 0 where
  pub day : ℕ
  pub used : ℕ
  pub limit : ℕ
  pub next_allowed : ℕ
  pub reason : Option WaitReason

-- The row of scan_dispatch.
pub record DispatchRow : Type 0 where
  pub day : ℕ
  pub chunks : ℕ
  pub last_start_ns : ℕ
  pub next_start_ns : ℤ

pub data DispatchError : Type 0 where
  invalid_limit invalid_interval read_only deferred : DispatchError

-- The four conditional updates of dispatchBudget after a row was read, in order.
with_day : DispatchRow → DispatchBudget → DispatchBudget
with_day row b = if leb b.day row.day then record b { day = row.day; used = row.chunks } else b

with_cadence : DispatchRow → ℕ → DispatchBudget → DispatchBudget
with_cadence row now b = elim row.next_start_ns [
  | negsuc _ ↦ b
  | pos next ↦ (if ltb now next then record b { next_allowed = next; reason = some cadence } else b)
]

with_daily_limit : DispatchRow → ℕ → DispatchBudget → DispatchBudget
unfolding day_end
with_daily_limit row limit b =
    let midnight : ℕ = day_end row.day in
    if leb limit b.used
    then record b {
      next_allowed = (if ltb b.next_allowed midnight then midnight else b.next_allowed);
      reason = some daily_chunk_limit;
    }
    else b

with_rollback : DispatchRow → ℕ → DispatchBudget → DispatchBudget
with_rollback row now b =
    if ltb now row.last_start_ns then record b { reason = some clock_rollback } else b

fresh_budget : ℕ → ℕ → DispatchBudget
unfolding day_of
fresh_budget now limit = record {
  day = day_of now;
  used = 0;
  limit = limit;
  next_allowed = now;
  reason = none;
}

row_budget : ℕ → ℕ → Option DispatchRow → DispatchBudget
unfolding fresh_budget with_day with_cadence with_daily_limit with_rollback
row_budget now limit none = fresh_budget now limit
row_budget now limit (some row) =
    with_rollback row now
      (with_daily_limit row limit (with_cadence row now (with_day row (fresh_budget now limit))))

unfoldable pub dispatch_budget : Option DispatchRow → ℕ → ℕ → Result DispatchError DispatchBudget
unfolding row_budget
dispatch_budget saved now limit = do
  refuse_if (ltb limit 1 || ltb 100000 limit) invalid_limit
  ok (row_budget now limit saved)

is_deferred : Option WaitReason → Bool
is_deferred none = false
is_deferred (some _) = true

unfoldable pub reserve_scan_chunk :
    Bool → Option DispatchRow → ℕ → ℕ → ℕ → Result DispatchError (DispatchRow × DispatchBudget)
unfolding dispatch_budget is_deferred
reserve_scan_chunk readonly saved now interval limit = do
  refuse_if readonly read_only
  refuse_if (leb interval 0 || ltb day_ns interval) invalid_interval
  b ← dispatch_budget saved now limit
  refuse_if (is_deferred b.reason) deferred
  let b' = record b { used = b.used + 1; next_allowed = now + interval; reason = some cadence }
  ok (
    record {
      day = b'.day;
      chunks = b'.used;
      last_start_ns = now;
      next_start_ns = to_int64 b'.next_allowed;
    },
    b',
  )
