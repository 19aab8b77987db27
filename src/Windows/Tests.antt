-- ===== src/Windows/Tests.antt =====
-- One CPU window of internal/state/cpu_feedback.go, from a maintenance turn to the next one.
use saga_rydd.Prelude.{
  ℕ, ◌+◌, ◌-◌, ◌*◌, ◌≤◌, ◌≡◌, ◌≢◌, refl, true, false, none, some, [], zeros, bytes_eq, Result, ok,
  ok_or, arith,
}
use saga_rydd.Prelude.Int.{pos}
use saga_rydd.Clock.{day_of, cpu_feedback_time, cpu_feedback_add, metadata_digest}
use saga_rydd.Feedback.{cpu_feedback_wait}
use saga_rydd.Dispatch.{DispatchRow}
use saga_rydd.Windows.Types.{
  no_reason, maintenance, pending, observed, CpuWindowStart, CpuWindowMeasurement, CpuWindowRecord,
  CpuFeedbackState, FairInventoryReceipt, FairInventoryTurn, WindowError, same_cpu_job,
  cpu_feedback_snapshot, valid_time, cpu_measurement_valid, same_cpu_window, same_time,
  same_observation,
}
use saga_rydd.Windows.Valid.{
  valid_cpu_feedback, window_valid, window_identity_valid, instants_valid, order_valid, kind_valid,
  status_valid, pending_valid, settled_valid, outcome_valid, observed_wait_valid, next_valid,
}
use saga_rydd.Windows.Operations.{
  WindowStore, WindowDb, CpuWindowMarker, FairInventoryCursor, cpu_feedback_writer,
  read_cpu_feedback, write_cpu_feedback, receipt_current, dispatch_current, attach_job,
  begin_window, begin_cpu_window, settle_cpu_window, settle_window, settle_state, observe_window,
  settle_retry, recover_cpu_window, is_pending, new_window, before_set,
}
use saga_rydd.Windows.Safety.{settle_cpu_window_succeeds}
use saga_rydd.Windows.Recover.{recover_cpu_window_succeeds}
use saga_rydd.Windows.Cooldown.{begin_cpu_window_once, begin_cpu_window_percent}

abbrev store : WindowStore
store = record { handle = 1; readonly = false; locked = true; schema = 16 }

abbrev dispatch_at : ℕ → DispatchRow
dispatch_at at = record { day = 0; chunks = 1; last_start_ns = at; next_start_ns = pos (at + 1000) }

abbrev cursor_at : ℕ → FairInventoryCursor
cursor_at at = record { root = 1; dispatch = at }

abbrev idle_db : WindowDb
idle_db = record {
  feedback = none;
  cursor = some (cursor_at 1000);
  dispatch = some (dispatch_at 1000);
  jobs = [];
}

abbrev receipt_at : ℕ → FairInventoryReceipt
receipt_at at = record {
  store = 1;
  root = 1;
  path = [];
  kind = maintenance;
  job = none;
  reserved_at = at;
}

abbrev turn_at : ℕ → FairInventoryTurn
turn_at at = record {
  root_id = 1;
  root_path = [];
  kind = maintenance;
  job = none;
  receipt = some (receipt_at at);
}

abbrev start_at : ℕ → CpuWindowStart
start_at at = record { instance_id = zeros 32; window_started_at = at }

abbrev no_marker : CpuWindowMarker
no_marker = record {
  store = 1;
  window = new_window (zeros 64) (start_at 1200) (receipt_at 1000) 1500;
}

abbrev begun : Result WindowError (WindowDb × CpuWindowMarker)
begun = begin_cpu_window store idle_db (some (turn_at 1000)) 1500 (start_at 1200) (zeros 64)

abbrev begun_db : WindowDb
begun_db = (ok_or (idle_db, no_marker) begun).0

begun_ok :
    begin_cpu_window store idle_db (some (turn_at 1000)) 1500 (start_at 1200) (zeros 64)
    ≡ ok (begun_db, no_marker)
unfolding begin_cpu_window begin_window cpu_feedback_writer read_cpu_feedback cpu_feedback_snapshot
    write_cpu_feedback receipt_current dispatch_current attach_job same_cpu_job metadata_digest
    bytes_eq cpu_feedback_time day_of valid_cpu_feedback window_valid window_identity_valid
    instants_valid order_valid kind_valid status_valid pending_valid settled_valid outcome_valid
    observed_wait_valid next_valid cpu_measurement_valid cpu_feedback_add cpu_feedback_wait
begun_ok = refl

-- a later dispatch while the window is pending
abbrev redispatched_db : WindowDb
redispatched_db = record begun_db {
  cursor = some (cursor_at 3500);
  dispatch = some (dispatch_at 3500);
}

begin_cpu_window_once_example :
    begin_cpu_window store redispatched_db (some (turn_at 3500)) 4000 (start_at 3700) (zeros 64)
    ≢ ok (redispatched_db, no_marker)
begin_cpu_window_once_example =
    begin_cpu_window_once store idle_db begun_db redispatched_db redispatched_db
      (some (turn_at 1000)) 1500 (start_at 1200) (zeros 64) no_marker store (some (turn_at 3500))
      4000 (start_at 3700) (zeros 64) no_marker begun_ok refl

abbrev no_state : CpuFeedbackState
no_state = record {
  available = true;
  status = pending;
  tracking_started_at = none;
  clock_high_water = none;
  last_begun_dispatch_at = none;
  window = none;
  next_allowed_at = none;
  completed_unknown_windows = 0;
  recovered_unknown_windows = 0;
  unknown_count_saturated = false;
}

abbrev begun_state : CpuFeedbackState
begun_state = ok_or no_state (read_cpu_feedback begun_db)

begun_read : read_cpu_feedback begun_db ≡ ok begun_state
unfolding begin_cpu_window begin_window cpu_feedback_writer read_cpu_feedback cpu_feedback_snapshot
    write_cpu_feedback receipt_current dispatch_current attach_job same_cpu_job metadata_digest
    bytes_eq cpu_feedback_time day_of valid_cpu_feedback window_valid window_identity_valid
    instants_valid order_valid kind_valid status_valid pending_valid settled_valid outcome_valid
    observed_wait_valid next_valid cpu_measurement_valid cpu_feedback_add cpu_feedback_wait
begun_read = refl

writer_ok : cpu_feedback_writer store ≡ ok tt
unfolding cpu_feedback_writer
writer_ok = refl

settle_time : valid_time 2000 ≡ true
unfolding cpu_feedback_time
settle_time = refl

-- 20 ns of CPU in 1000 ns
abbrev measurement : CpuWindowMeasurement
measurement = record {
  cpu_time_ns = some (pos 20);
  elapsed_ns = some (pos 1000);
  reason = no_reason;
}

measurement_ok : cpu_measurement_valid measurement ≡ true
unfolding cpu_measurement_valid
measurement_ok = refl

begun_window : begun_state.window ≡ some no_marker.window
unfolding begin_cpu_window begin_window cpu_feedback_writer read_cpu_feedback cpu_feedback_snapshot
    write_cpu_feedback receipt_current dispatch_current attach_job same_cpu_job metadata_digest
    bytes_eq cpu_feedback_time day_of valid_cpu_feedback window_valid window_identity_valid
    instants_valid order_valid kind_valid status_valid pending_valid settled_valid outcome_valid
    observed_wait_valid next_valid cpu_measurement_valid cpu_feedback_add cpu_feedback_wait
begun_window = refl

begun_same : same_cpu_window no_marker.window no_marker.window ≡ true
unfolding same_cpu_window bytes_eq same_time
begun_same = refl

begun_before : before_set 2000 begun_state.clock_high_water ≡ false
unfolding begin_cpu_window begin_window cpu_feedback_writer read_cpu_feedback cpu_feedback_snapshot
    write_cpu_feedback receipt_current dispatch_current attach_job same_cpu_job metadata_digest
    bytes_eq cpu_feedback_time day_of valid_cpu_feedback window_valid window_identity_valid
    instants_valid order_valid kind_valid status_valid pending_valid settled_valid outcome_valid
    observed_wait_valid next_valid cpu_measurement_valid cpu_feedback_add cpu_feedback_wait
begun_before = refl

settle_cpu_window_succeeds_example :
    (db : WindowDb) × (s : CpuFeedbackState) × (settle_cpu_window store begun_db no_marker 2000
        measurement
      ≡ ok (db, s))
    × (read_cpu_feedback db ≡ ok s)
    × (settle_cpu_window store db no_marker 2000 measurement ≡ ok (db, s))
settle_cpu_window_succeeds_example =
    settle_cpu_window_succeeds store begun_db no_marker 2000 measurement begun_state
      no_marker.window writer_ok settle_time (omega arith) refl refl measurement_ok begun_read
      begun_window begun_same refl begun_before

recover_cpu_window_succeeds_example :
    (db : WindowDb) × (s : CpuFeedbackState) × (recover_cpu_window store begun_db 2000 ≡ ok (db, s))
    × (read_cpu_feedback db ≡ ok s)
    × (is_pending s.status ≡ false)
    × (recover_cpu_window store db 2000 ≡ ok (db, s))
recover_cpu_window_succeeds_example =
    recover_cpu_window_succeeds store begun_db 2000 begun_state writer_ok settle_time (omega arith)
      begun_read begun_before

abbrev settled_db : WindowDb
settled_db =
    record (ok_or (idle_db, no_state)
      (settle_cpu_window store begun_db no_marker 2000 measurement)).0 {
        cursor = some (cursor_at 3500);
        dispatch = some (dispatch_at 3500);
      }

abbrev settled_state : CpuFeedbackState
settled_state = ok_or no_state (read_cpu_feedback settled_db)

settled_read : read_cpu_feedback settled_db ≡ ok settled_state
unfolding begin_cpu_window begin_window cpu_feedback_writer read_cpu_feedback cpu_feedback_snapshot
    write_cpu_feedback receipt_current dispatch_current attach_job same_cpu_job metadata_digest
    bytes_eq cpu_feedback_time day_of valid_cpu_feedback window_valid window_identity_valid
    instants_valid order_valid kind_valid status_valid pending_valid settled_valid outcome_valid
    observed_wait_valid next_valid cpu_measurement_valid cpu_feedback_add cpu_feedback_wait
    settle_cpu_window settle_window settle_state observe_window settle_retry same_cpu_window
    same_time same_observation
settled_read = refl

abbrev observed_window : CpuWindowRecord
observed_window = record no_marker.window {
  status = observed;
  settled_at = some 2000;
  cpu_time_ns = some (pos 20);
  elapsed_ns = some (pos 1000);
  backoff_ns = 1000;
}

settled_window : settled_state.window ≡ some observed_window
unfolding begin_cpu_window begin_window cpu_feedback_writer read_cpu_feedback cpu_feedback_snapshot
    write_cpu_feedback receipt_current dispatch_current attach_job same_cpu_job metadata_digest
    bytes_eq cpu_feedback_time day_of valid_cpu_feedback window_valid window_identity_valid
    instants_valid order_valid kind_valid status_valid pending_valid settled_valid outcome_valid
    observed_wait_valid next_valid cpu_measurement_valid cpu_feedback_add cpu_feedback_wait
    settle_cpu_window settle_window settle_state observe_window settle_retry same_cpu_window
    same_time same_observation
settled_window = refl

abbrev next_marker : CpuWindowMarker
next_marker = record {
  store = 1;
  window = new_window (zeros 64) (start_at 3700) (receipt_at 3500) 4000;
}

abbrev next_db : WindowDb
next_db =
    (ok_or (idle_db, no_marker)
      (begin_cpu_window store settled_db (some (turn_at 3500)) 4000 (start_at 3700) (zeros 64))).0

next_ok :
    begin_cpu_window store settled_db (some (turn_at 3500)) 4000 (start_at 3700) (zeros 64)
    ≡ ok (next_db, next_marker)
unfolding begin_cpu_window begin_window cpu_feedback_writer read_cpu_feedback cpu_feedback_snapshot
    write_cpu_feedback receipt_current dispatch_current attach_job same_cpu_job metadata_digest
    bytes_eq cpu_feedback_time day_of valid_cpu_feedback window_valid window_identity_valid
    instants_valid order_valid kind_valid status_valid pending_valid settled_valid outcome_valid
    observed_wait_valid next_valid cpu_measurement_valid cpu_feedback_add cpu_feedback_wait
    settle_cpu_window settle_window settle_state observe_window settle_retry same_cpu_window
    same_time same_observation
next_ok = refl

begin_cpu_window_percent_example : 100 * 20 ≤ 1000 + (4000 - 2000)
begin_cpu_window_percent_example =
    begin_cpu_window_percent store settled_db next_db (some (turn_at 3500)) 4000 (start_at 3700)
      (zeros 64) next_marker settled_state observed_window 20 1000 2000 settled_read settled_window
      refl refl refl (omega arith) refl refl next_ok
