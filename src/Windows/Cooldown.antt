-- ===== src/Windows/Cooldown.antt =====
-- What a granted BeginCPUWindow says of the window before it (internal/state/cpu_feedback.go).
use saga_rydd.Prelude.{
  ℕ, ◌+◌, ◌-◌, ◌*◌, ◌≤◌, ◌<◌, ◌≡◌, ◌≢◌, true, false, Option, none, some, List, ltb, ok,
  Result-cases, ok_inj, arith, inl, inr, Bool-cases, Option-cases, sym, subst, ◌∙◌,
}
use saga_rydd.Prelude.Int.{ℤ, pos}
use saga_rydd.Clock.{cpu_feedback_time, cpu_feedback_add}
use saga_rydd.Feedback.{cpu_feedback_wait}
use saga_rydd.Feedback.Formula.{cpu_feedback_wait_percent}
use saga_rydd.Queue.Types.{Job}
use saga_rydd.Windows.Types.{
  WindowKind, source, maintenance, other_kind, pending, observed, CpuWindowStart, CpuWindowRecord,
  CpuFeedbackState, FairInventoryReceipt, FairInventoryTurn,
}
use saga_rydd.Windows.Valid.{
  valid_cpu_feedback, status_valid, settled_valid, outcome_valid, observed_wait_valid, next_valid,
}
use saga_rydd.Windows.Operations.{
  WindowStore, WindowDb, CpuWindowMarker, read_cpu_feedback, write_cpu_feedback, is_pending,
  before_set, begun_state, new_window, attach_job, begin_window, begin_cpu_window,
}
use saga_rydd.Windows.Parts.{valid-WindowParts}
use saga_rydd.Windows.Safety.{read-valid}

attach_job-pending :
    (db : WindowDb) (r : FairInventoryReceipt) (now : ℕ) (w w' : CpuWindowRecord)
    (kind : WindowKind) (job : Option Job)
    → attach_job db r now w kind job ≡ ok w'
    → w'.status ≡ w.status
unfolding attach_job
attach_job-pending db r now w w' source none e = ground arith
attach_job-pending db r now w w' source (some j) e = ground arith
attach_job-pending db r now w w' maintenance none e = ground arith
attach_job-pending db r now w w' maintenance (some j) e = ground arith
attach_job-pending db r now w w' other_kind none e = ground arith
attach_job-pending db r now w w' other_kind (some j) e = ground arith

write-saved :
    (db db' : WindowDb) (s : CpuFeedbackState)
    → write_cpu_feedback db s ≡ ok db'
    → (db'.feedback ≡ some s) × (valid_cpu_feedback s ≡ true)
unfolding write_cpu_feedback
write-saved db db' s e = (ground arith, ground arith)

-- The facts that a granted window rests on.
record Begun (db db' : WindowDb) (now : ℕ) : Type 0 where
  saved : CpuFeedbackState
  opened : CpuWindowRecord
  read : read_cpu_feedback db ≡ ok saved
  idle : is_pending saved.status ≡ false
  allowed : before_set now saved.next_allowed_at ≡ false
  opened_pending : opened.status ≡ pending
  written : db'.feedback ≡ some (begun_state saved opened now)
  written_valid : valid_cpu_feedback (begun_state saved opened now) ≡ true

begin_window-Begun :
    (st : WindowStore) (db db' : WindowDb) (r : FairInventoryReceipt) (now : ℕ)
    (start : CpuWindowStart) (token : List ℕ) (marker : CpuWindowMarker)
    → begin_window st db r now start token ≡ ok (db', marker)
    → Begun db db' now
unfolding begin_window
begin_window-Begun st db db' r now start token marker e =
    elim (Result-cases (read_cpu_feedback db)) [
      | inr (x, ex) ↦ ground arith
      | inl (s, es) ↦ elim (Option-cases db.cursor) [
        | inl ec ↦ ground arith
        | inr (c, ec) ↦ elim (Option-cases db.dispatch) [
          | inl ed ↦ ground arith
          | inr (row, ed) ↦
              elim (Result-cases
                (attach_job db r now (new_window token start r now) r.kind r.job)) [
                  | inr (x, ex) ↦ ground arith
                  | inl (w, ew) ↦
                      elim (Result-cases (write_cpu_feedback db (begun_state s w now))) [
                        | inr (x, ex) ↦ ground arith
                        | inl (d, edb) ↦
                            let (wf, wv) = write-saved db d (begun_state s w now) edb in
                            record {
                              saved = s;
                              opened = w;
                              read = es;
                              idle = ground arith;
                              allowed = ground arith;
                              opened_pending =
                                  attach_job-pending db r now (new_window token start r now) w
                                    r.kind r.job ew;
                              written = ground arith;
                              written_valid = wv;
                            }
                      ]
                ]
        ]
      ]
    ]

begin_cpu_window-Begun :
    (st : WindowStore) (db db' : WindowDb) (turn : Option FairInventoryTurn) (now : ℕ)
    (start : CpuWindowStart) (token : List ℕ) (marker : CpuWindowMarker)
    → begin_cpu_window st db turn now start token ≡ ok (db', marker)
    → Begun db db' now
unfolding begin_cpu_window
begin_cpu_window-Begun st db db' none now start token marker e = ground arith
begin_cpu_window-Begun st db db' (some turn) now start token marker e =
    elim (Option-cases turn.receipt) [
      | inl er ↦ ground arith
      | inr (r, er) ↦ begin_window-Begun st db db' r now start token marker (ground arith)
    ]

pending-busy :
    (d : WindowDb) (s s' : CpuFeedbackState) (w : CpuWindowRecord) (at : ℕ)
    → d.feedback ≡ some (begun_state s w at)
    → valid_cpu_feedback (begun_state s w at) ≡ true
    → w.status ≡ pending
    → read_cpu_feedback d ≡ ok s'
    → is_pending s'.status ≡ false
    → ⊥
unfolding read_cpu_feedback
pending-busy d s s' w at ef v st r i = ground arith

-- While a window is pending no other is begun: after a granted call, a second one does not succeed on
-- any database with the feedback row that the first one saved, whatever has happened since to the
-- cursor, the dispatch row and the jobs, and whatever the store, the turn and the clock of the second
-- call.
pub begin_cpu_window_once :
    (st : WindowStore) (db db' later db'' : WindowDb) (turn : Option FairInventoryTurn) (now : ℕ)
    (start : CpuWindowStart) (token : List ℕ) (marker : CpuWindowMarker) (st' : WindowStore)
    (turn' : Option FairInventoryTurn) (now' : ℕ) (start' : CpuWindowStart) (token' : List ℕ)
    (marker' : CpuWindowMarker)
    → begin_cpu_window st db turn now start token ≡ ok (db', marker)
    → later.feedback ≡ db'.feedback
    → begin_cpu_window st' later turn' now' start' token' ≢ ok (db'', marker')
begin_cpu_window_once st db db' later db'' turn now start token marker st' turn' now' start' token'
      marker' e kept e' =
    let b = begin_cpu_window-Begun st db db' turn now start token marker e in
    let b' = begin_cpu_window-Begun st' later db'' turn' now' start' token' marker' e' in
    pending-busy later b.saved b'.saved b.opened now (kept ∙ b.written) b.written_valid
      b.opened_pending b'.read b'.idle

observed-facts :
    (s : CpuFeedbackState) (r : CpuWindowRecord) (high settled : ℕ) (cpu elapsed : ℤ)
    → status_valid s r high r.status ≡ true
    → r.status ≡ observed
    → r.settled_at ≡ some settled
    → r.cpu_time_ns ≡ some cpu
    → r.elapsed_ns ≡ some elapsed
    → r.backoff_capped ≡ false
    → (cpu_feedback_wait cpu elapsed ≡ (r.backoff_ns, false)) × (next_valid s r settled ≡ true)
unfolding status_valid settled_valid outcome_valid observed_wait_valid
observed-facts s r high settled cpu elapsed v st es ec ee b = (pair, ground arith)
  where
    pair : cpu_feedback_wait cpu elapsed ≡ (r.backoff_ns, false)
    pair = ground arith

wait-over :
    (s : CpuFeedbackState) (r : CpuWindowRecord) (settled now : ℕ)
    → next_valid s r settled ≡ true
    → before_set now s.next_allowed_at ≡ false
    → 0 < r.backoff_ns
    → settled + r.backoff_ns ≤ now
unfolding next_valid cpu_feedback_add cpu_feedback_time
wait-over s r settled now v b p = ground arith

-- The bounded 1% feedback over two windows: when BeginCPUWindow grants a window at `now` after an
-- observed window whose wait was not capped, the CPU time of that window was at most 1% of its elapsed
-- time (which was positive) and the time between its settlement and `now` together.
pub begin_cpu_window_percent :
    (st : WindowStore) (db db' : WindowDb) (turn : Option FairInventoryTurn) (now : ℕ)
    (start : CpuWindowStart) (token : List ℕ) (marker : CpuWindowMarker) (s : CpuFeedbackState)
    (r : CpuWindowRecord) (cpu elapsed settled : ℕ)
    → read_cpu_feedback db ≡ ok s
    → s.window ≡ some r
    → r.status ≡ observed
    → r.cpu_time_ns ≡ some (pos cpu)
    → r.elapsed_ns ≡ some (pos elapsed)
    → 0 < elapsed
    → r.settled_at ≡ some settled
    → r.backoff_capped ≡ false
    → begin_cpu_window st db turn now start token ≡ ok (db', marker)
    → 100 * cpu ≤ elapsed + (now - settled)
begin_cpu_window_percent st db db' turn now start token marker s r cpu elapsed settled es er st_r ec
      ee p et uncapped e =
    let b = begin_cpu_window-Begun st db db' turn now start token marker e in
    let same : b.saved ≡ s = ok_inj (sym b.read ∙ es) in
    let (high, parts) = valid-WindowParts s r (read-valid db s r es er) er in
    let (wait, next) =
      observed-facts s r high settled (pos cpu) (pos elapsed) parts.of_status st_r et ec ee
        uncapped in
    let (bound, _) = cpu_feedback_wait_percent cpu elapsed r.backoff_ns p wait in
    let allowed : before_set now s.next_allowed_at ≡ false =
      subst (λ t. before_set now t.next_allowed_at ≡ false) same b.allowed in
    elim (Bool-cases (ltb 0 r.backoff_ns)) [
      | inl q ↦ ground (arith, wait-over s r settled now next allowed)
      | inr z ↦ ground arith
    ]
