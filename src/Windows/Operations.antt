-- ===== src/Windows/Operations.antt =====
-- BeginCPUWindow, SettleCPUWindow and RecoverCPUWindow (internal/state/cpu_feedback.go) on a database
-- of the row of worker_cpu_feedback, the cursor of the fair inventory, the row of scan_dispatch and the
-- job queue. An error leaves the database as it was; a cancelled context and a failed statement are not
-- modelled. The token of a window, 64 hexadecimal digits read from the system's random source, is an
-- argument. A cursor that does not decode is `none`.
use saga_rydd.Prelude.{
  ℕ, ◌-◌, Bool, true, false, not, ◌&&◌, ◌||◌, Option, none, some, List, [], ◌∷◌, bytes_eq, leb, ltb,
  ◌==◌, if◌then◌else◌, Result, ok, err, ◌>>=◌, ◌>>◌, refuse_if, or_else,
}
use saga_rydd.Prelude.Int.{ℤ, pos, negsuc}
use saga_rydd.Int64.{int_eq, lt_int}
use saga_rydd.Clock.{day_ns, day_of, cpu_feedback_add, metadata_digest}
use saga_rydd.Feedback.{hour, cpu_feedback_wait}
use saga_rydd.Dispatch.{DispatchRow}
use saga_rydd.Queue.Types.{Job, JobRow, scan_kind, is_running}
use saga_rydd.Windows.Types.{
  no_reason, interrupted_window, window_reason_eq, WindowKind, source, other_kind, window_kind_eq,
  WindowStatus, untracked, pending, observed, completed_unknown, recovered_unknown, WindowError,
  invalid, no_schema, corrupt, read_only, deferred, clock_rollback, still_pending, stale,
  cursor_corrupt, no_dispatch, CpuWindowStart, CpuWindowMeasurement, CpuWindowRecord,
  CpuFeedbackState, FairInventoryReceipt, FairInventoryTurn, same_cpu_job, cpu_feedback_snapshot,
  cpu_measurement_valid, same_observation, same_cpu_window, increment_cpu_unknown, valid_time,
  nil_dereference,
}
use saga_rydd.Windows.Valid.{valid_cpu_feedback}

-- An open Store: which one it is, and what its writer needs.
pub record WindowStore : Type 0 where
  pub handle : ℕ
  pub readonly : Bool
  pub locked : Bool
  pub schema : ℕ

pub record FairInventoryCursor : Type 0 where
  pub root : ℕ
  pub dispatch : ℕ

pub record WindowDb : Type 0 where
  pub feedback : Option CpuFeedbackState
  pub cursor : Option FairInventoryCursor
  pub dispatch : Option DispatchRow
  pub jobs : List JobRow

pub record CpuWindowMarker : Type 0 where
  pub store : ℕ
  pub window : CpuWindowRecord

-- FairInventoryClaimWindow
abbrev pub claim_window : ℕ
claim_window = 2000000000

unfoldable pub cpu_feedback_writer : WindowStore → Result WindowError (Unit {0})
cpu_feedback_writer st = do
  refuse_if (st.readonly || not st.locked) read_only
  refuse_if (ltb st.schema 12) no_schema

abbrev pub window_status : Option CpuWindowRecord → WindowStatus
window_status none = untracked
window_status (some r) = r.status

-- The status of the state is that of its window.
abbrev pub loaded : CpuFeedbackState → CpuFeedbackState
loaded s = record s { available = true; status = window_status s.window }

unfoldable pub read_cpu_feedback : WindowDb → Result WindowError CpuFeedbackState
read_cpu_feedback db = elim db.feedback [
  | none ↦ ok (cpu_feedback_snapshot true)
  | some s ↦ if valid_cpu_feedback s then ok (loaded s) else err corrupt
]

-- The saved view.
unfoldable pub cpu_feedback : WindowStore → WindowDb → Result WindowError CpuFeedbackState
cpu_feedback st db =
    if ltb st.schema 12 then ok (cpu_feedback_snapshot false) else read_cpu_feedback db

unfoldable pub write_cpu_feedback : WindowDb → CpuFeedbackState → Result WindowError WindowDb
write_cpu_feedback db s = do
  refuse_if (not (valid_cpu_feedback s)) invalid
  ok (record db { feedback = some s })

-- at is set, and `now` is before it
abbrev pub before_set : ℕ → Option ℕ → Bool
before_set now none = false
before_set now (some at) = ltb now at

-- The receipt is the one of this turn and this store, and not used up.
unfoldable pub receipt_current : WindowStore → FairInventoryReceipt → FairInventoryTurn → ℕ → Bool
receipt_current st r turn now =
    (r.store == st.handle)
    && (r.root == turn.root_id)
    && bytes_eq r.path turn.root_path
    && window_kind_eq r.kind turn.kind
    && same_cpu_job r.job turn.job
    && leb r.reserved_at now
    && ltb (now - r.reserved_at) claim_window

-- next > last && next-last <= 24h
abbrev pub next_current : ℕ → ℤ → Bool
next_current last (negsuc _) = false
next_current last (pos next) = ltb last next && leb (next - last) day_ns

-- The dispatch that the receipt was reserved by is still the last one.
unfoldable pub dispatch_current : FairInventoryReceipt → FairInventoryCursor → DispatchRow → Bool
unfolding day_of
dispatch_current r cursor row =
    next_current row.last_start_ns row.next_start_ns
    && leb 1 row.chunks
    && leb row.chunks 100000
    && (row.day == day_of r.reserved_at)
    && (row.last_start_ns == r.reserved_at)
    && (cursor.root == r.root)
    && (cursor.dispatch == row.last_start_ns)

unfoldable pub job_running : Job → ℕ → List JobRow → Bool
job_running j root [] = false
job_running j root (row ∷ rows) =
    (row.id == j.id)
      && (row.root_id == root)
      && bytes_eq row.kind scan_kind
      && is_running row.status
      && bytes_eq row.lease_token j.token
      && int_eq row.lease_until j.lease_until
    || job_running j root rows

abbrev pub new_window : List ℕ → CpuWindowStart → FairInventoryReceipt → ℕ → CpuWindowRecord
new_window token start r now = record {
  token = token;
  instance_id = start.instance_id;
  kind = r.kind;
  root_id = r.root;
  job_id = 0;
  job_token = [];
  job_lease_until = none;
  dispatch_reserved_at = r.reserved_at;
  window_started_at = start.window_started_at;
  recorded_at = now;
  status = pending;
  settled_at = none;
  cpu_time_ns = none;
  elapsed_ns = none;
  reason = no_reason;
  backoff_ns = 0;
  backoff_capped = false;
}

-- The instant of a lease's end, which attach_job has found to be after now.
abbrev pub instant_of : ℤ → Option ℕ
instant_of (pos at) = some at
instant_of (negsuc _) = none

abbrev pub with_job : CpuWindowRecord → Job → CpuWindowRecord
with_job w j = record w {
  job_id = j.id;
  job_token = j.token;
  job_lease_until = instant_of j.lease_until;
}

-- The window with the lease of its job: only source work has one.
unfoldable pub attach_job :
    WindowDb
    → FairInventoryReceipt
    → ℕ
    → CpuWindowRecord
    → WindowKind
    → Option Job
    → Result WindowError CpuWindowRecord
attach_job db r now w source none = err stale
attach_job db r now w source (some j) = do
  refuse_if
      (not ((j.root_id == r.root) && bytes_eq j.kind scan_kind && lt_int (pos now) j.lease_until))
      stale
  refuse_if (not (job_running j r.root db.jobs)) stale
  ok (with_job w j)
attach_job db r now w kind (some j) = err stale
attach_job db r now w kind none = ok w

abbrev pub or_now : Option ℕ → ℕ → Option ℕ
or_now none now = some now
or_now (some at) now = some at

abbrev pub begun_state : CpuFeedbackState → CpuWindowRecord → ℕ → CpuFeedbackState
begun_state s w now = record s {
  tracking_started_at = or_now s.tracking_started_at now;
  clock_high_water = some now;
  last_begun_dispatch_at = some w.dispatch_reserved_at;
  window = some w;
  status = pending;
  next_allowed_at = none;
}

abbrev pub is_pending : WindowStatus → Bool
is_pending pending = true
is_pending _ = false

-- state.LastBegunDispatchAt != nil && !r.reservedAt.After(*state.LastBegunDispatchAt)
abbrev pub not_after_set : ℕ → Option ℕ → Bool
not_after_set at none = false
not_after_set at (some last) = leb at last

-- The part inside the transaction.
unfoldable pub begin_window :
    WindowStore
    → WindowDb
    → FairInventoryReceipt
    → ℕ
    → CpuWindowStart
    → List ℕ
    → Result WindowError (WindowDb × CpuWindowMarker)
begin_window st db r now start token = do
  s ← read_cpu_feedback db
  refuse_if (before_set now s.clock_high_water) clock_rollback
  refuse_if (is_pending s.status) still_pending
  refuse_if (before_set now s.next_allowed_at) deferred
  refuse_if (not_after_set r.reserved_at s.last_begun_dispatch_at) stale
  cursor ← or_else db.cursor cursor_corrupt
  row ← or_else db.dispatch no_dispatch
  refuse_if (not (dispatch_current r cursor row)) stale
  w ← attach_job db r now (new_window token start r now) r.kind r.job
  db' ← write_cpu_feedback db (begun_state s w now)
  ok (db', record { store = st.handle; window = w })

abbrev pub is_other : WindowKind → Bool
is_other other_kind = true
is_other _ = false

unfoldable pub begin_cpu_window :
    WindowStore
    → WindowDb
    → Option FairInventoryTurn
    → ℕ
    → CpuWindowStart
    → List ℕ
    → Result WindowError (WindowDb × CpuWindowMarker)
unfolding begin_window
begin_cpu_window st db claimed now start token = do
  cpu_feedback_writer st
  refuse_if
      (not (
        valid_time now
        && valid_time start.window_started_at
        && leb start.window_started_at now
        && metadata_digest start.instance_id 32))
      invalid
  turn ← or_else claimed invalid
  r ← or_else turn.receipt invalid
  refuse_if (not (receipt_current st r turn now)) stale
  refuse_if (is_other r.kind) invalid
  begin_window st db r now start token

-- The exact measurement that is already saved.
unfoldable pub settle_retry : CpuWindowRecord → ℕ → CpuWindowMeasurement → Bool
settle_retry r at m =
    (elim r.status [ observed ↦ true | completed_unknown ↦ true | _ ↦ false ])
    && (elim r.settled_at [ none ↦ false | some settled ↦ settled == at ])
    && same_observation r.cpu_time_ns m.cpu_time_ns
    && same_observation r.elapsed_ns m.elapsed_ns
    && window_reason_eq r.reason m.reason

abbrev pub measured : CpuWindowRecord → ℕ → CpuWindowMeasurement → WindowStatus → CpuWindowRecord
measured r at m status = record r {
  settled_at = some at;
  cpu_time_ns = m.cpu_time_ns;
  elapsed_ns = m.elapsed_ns;
  reason = m.reason;
  status = status;
}

abbrev pub settled_state : CpuFeedbackState → ℕ → CpuWindowRecord → Option ℕ → CpuFeedbackState
settled_state s at r next = record s {
  clock_high_water = some at;
  status = r.status;
  window = some r;
  next_allowed_at = next;
}

-- The window of an observation, with the wait it causes.
unfoldable pub observe_window :
    CpuFeedbackState
    → CpuWindowRecord
    → ℕ
    → CpuWindowMeasurement
    → ℤ
    → ℤ
    → Result WindowError CpuFeedbackState
observe_window s r at m cpu elapsed =
    let (wait, capped) = cpu_feedback_wait cpu elapsed in
    let r' = record (measured r at m observed) { backoff_ns = wait; backoff_capped = capped } in
    if ltb 0 wait
    then (or_else (cpu_feedback_add at wait) invalid >>= λ next.
        ok (settled_state s at r' (some next)))
    else ok (settled_state s at r' s.next_allowed_at)

unfoldable pub complete_unknown :
    CpuFeedbackState → CpuWindowRecord → ℕ → CpuWindowMeasurement → CpuFeedbackState
complete_unknown s r at m =
    let (count, saturated) =
      increment_cpu_unknown s.completed_unknown_windows s.unknown_count_saturated in
    record (settled_state s at (measured r at m completed_unknown) s.next_allowed_at) {
      completed_unknown_windows = count;
      unknown_count_saturated = saturated;
    }

-- The state after a measurement of the pending window `r`.
unfoldable pub settle_state :
    CpuFeedbackState
    → CpuWindowRecord
    → ℕ
    → CpuWindowMeasurement
    → Result WindowError CpuFeedbackState
unfolding observe_window complete_unknown
settle_state s r at m = elim m.cpu_time_ns [
  | none ↦ ok (complete_unknown s r at m)
  | some cpu ↦
      (or_else m.elapsed_ns nil_dereference >>= λ elapsed. observe_window s r at m cpu elapsed)
]

-- The part of SettleCPUWindow for the window that is saved.
unfoldable pub settle_window :
    WindowDb
    → CpuFeedbackState
    → CpuWindowRecord
    → ℕ
    → CpuWindowMeasurement
    → Result WindowError (WindowDb × CpuFeedbackState)
unfolding settle_retry settle_state
settle_window db s r at m =
    if not (is_pending r.status)
    then (if settle_retry r at m then ok (db, s) else err stale)
    else (refuse_if (before_set at s.clock_high_water) clock_rollback >>= λ _.
        settle_state s r at m >>= λ s'. write_cpu_feedback db s' >>= λ db'. ok (db', s'))

unfoldable pub settle_cpu_window :
    WindowStore
    → WindowDb
    → CpuWindowMarker
    → ℕ
    → CpuWindowMeasurement
    → Result WindowError (WindowDb × CpuFeedbackState)
settle_cpu_window st db marker at m = do
  cpu_feedback_writer st
  refuse_if
      (not (
        valid_time at
        && (marker.store == st.handle)
        && is_pending marker.window.status
        && cpu_measurement_valid m))
      invalid
  s ← read_cpu_feedback db
  r ← or_else s.window stale
  refuse_if (not (same_cpu_window marker.window r)) stale
  settle_window db s r at m

-- CPUUnknownRecoveryDelay
abbrev pub recovery_delay : ℕ
recovery_delay = hour

unfoldable pub recovered_state : CpuFeedbackState → CpuWindowRecord → ℕ → ℕ → CpuFeedbackState
recovered_state s r now next =
    let r' = record r {
      status = recovered_unknown;
      settled_at = some now;
      reason = interrupted_window;
      backoff_ns = recovery_delay;
    } in
    let (count, saturated) =
      increment_cpu_unknown s.recovered_unknown_windows s.unknown_count_saturated in
    record (settled_state s now r' (some next)) {
      recovered_unknown_windows = count;
      unknown_count_saturated = saturated;
    }

unfoldable pub recover_window :
    WindowDb → CpuFeedbackState → ℕ → Result WindowError (WindowDb × CpuFeedbackState)
unfolding recovered_state
recover_window db s now = do
  next ← or_else (cpu_feedback_add now recovery_delay) invalid
  r ← or_else s.window corrupt
  let s' = recovered_state s r now next
  db' ← write_cpu_feedback db s'
  ok (db', s')

-- A pending state that was read has a window.
unfoldable pub recover_cpu_window :
    WindowStore → WindowDb → ℕ → Result WindowError (WindowDb × CpuFeedbackState)
unfolding recover_window
recover_cpu_window st db now = do
  cpu_feedback_writer st
  refuse_if (not (valid_time now)) invalid
  s ← read_cpu_feedback db
  refuse_if (before_set now s.clock_high_water) clock_rollback
  if is_pending s.status then recover_window db s now else ok (db, s)
