-- ===== src/Windows/Recover.antt =====
-- RecoverCPUWindow (internal/state/cpu_feedback.go) against its reader.
use saga_rydd.Prelude.{
  ℕ, ◌+◌, ◌≤◌, ◌≡◌, refl, true, false, Option, some, ok, arith, inl, inr, Bool-cases, Option-cases,
  ap, ◌∙◌,
}
use saga_rydd.Prelude.Int.{max_int64}
use saga_rydd.Clock.{cpu_feedback_add}
use saga_rydd.Feedback.{hour}
use saga_rydd.Windows.Types.{
  WindowStatus, pending, recovered_unknown, interrupted_window, CpuWindowRecord, CpuFeedbackState,
  valid_time,
}
use saga_rydd.Windows.Operations.{
  WindowStore, WindowDb, cpu_feedback_writer, read_cpu_feedback, write_cpu_feedback, recover_window,
  recover_cpu_window, recovered_state, is_pending, window_status, before_set,
}
use saga_rydd.Windows.Parts.{valid-WindowParts}
use saga_rydd.Windows.Settle.{recovered_state-valid}
use saga_rydd.Windows.Safety.{
  read-valid, read-status, read-available, read-settled, write-ok, add-some,
}

pending-window :
    (s : CpuFeedbackState)
    → s.status ≡ window_status s.window
    → is_pending s.status ≡ true
    → (r : CpuWindowRecord) × (s.window ≡ some r) × (r.status ≡ pending)
pending-window s e p = elim (Option-cases s.window) [
  | inl none_open ↦ ground arith
  | inr (r, er) ↦ (r, er, is_pending-eq r.status (ground arith))
]
  where
    is_pending-eq : (st : WindowStatus) → is_pending st ≡ true → st ≡ pending
    is_pending-eq st h = ground arith

recover-pending :
    (st : WindowStore) (db db' : WindowDb) (now next : ℕ) (s : CpuFeedbackState)
    (r : CpuWindowRecord)
    → cpu_feedback_writer st ≡ ok tt
    → valid_time now ≡ true
    → read_cpu_feedback db ≡ ok s
    → before_set now s.clock_high_water ≡ false
    → is_pending s.status ≡ true
    → cpu_feedback_add now hour ≡ some next
    → s.window ≡ some r
    → write_cpu_feedback db (recovered_state s r now next) ≡ ok db'
    → recover_cpu_window st db now ≡ ok (db', recovered_state s r now next)
unfolding recover_cpu_window recover_window
recover-pending st db db' now next s r e1 e2 e3 e4 e5 e6 e7 e8 = ground arith

recover-idle :
    (st : WindowStore) (db : WindowDb) (now : ℕ) (s : CpuFeedbackState)
    → cpu_feedback_writer st ≡ ok tt
    → valid_time now ≡ true
    → read_cpu_feedback db ≡ ok s
    → before_set now s.clock_high_water ≡ false
    → is_pending s.status ≡ false
    → recover_cpu_window st db now ≡ ok (db, s)
unfolding recover_cpu_window
recover-idle st db now s e1 e2 e3 e4 e5 = ground arith

recovered-shape :
    (s : CpuFeedbackState) (r : CpuWindowRecord) (now next : ℕ)
    → ((recovered_state s r now next).window
        ≡ some (record r {
          status = recovered_unknown;
          settled_at = some now;
          reason = interrupted_window;
          backoff_ns = hour;
        }))
      × ((recovered_state s r now next).status ≡ recovered_unknown)
      × ((recovered_state s r now next).available ≡ s.available)
      × ((recovered_state s r now next).clock_high_water ≡ some now)
unfolding recovered_state
recovered-shape s r now next = (refl, refl, refl, refl)

-- RecoverCPUWindow never gets stuck: on any state that the reader accepts, at an instant not before its
-- high-water one and an hour before the end of the representable time, it succeeds and leaves a state
-- that the reader accepts, in which no window is pending, and repeating it changes nothing.
pub recover_cpu_window_succeeds :
    (st : WindowStore) (db : WindowDb) (now : ℕ) (s : CpuFeedbackState)
    → cpu_feedback_writer st ≡ ok tt
    → valid_time now ≡ true
    → now + hour ≤ max_int64
    → read_cpu_feedback db ≡ ok s
    → before_set now s.clock_high_water ≡ false
    → (db' : WindowDb) × (s' : CpuFeedbackState) × (recover_cpu_window st db now ≡ ok (db', s'))
      × (read_cpu_feedback db' ≡ ok s')
      × (is_pending s'.status ≡ false)
      × (recover_cpu_window st db' now ≡ ok (db', s'))
recover_cpu_window_succeeds st db now s w t room rd clock =
    elim (Bool-cases (is_pending s.status)) [
      | inr idle ↦ let e = recover-idle st db now s w t rd clock idle in (db, s, e, rd, idle, e)
      | inl p ↦
          let (r, er, pr) = pending-window s (read-status db s rd) p in
          let (high, parts) = valid-WindowParts s r (read-valid db s r rd er) er in
          let le = not_before now s.clock_high_water high parts.high_at clock in
          let (next, en) = add-some now hour t (omega arith) room in
          let s' = recovered_state s r now next in
          let v' = recovered_state-valid s s r high now parts pr le t next en in
          let (win, stat, av, hw) = recovered-shape s r now next in
          let db' : WindowDb = record db { feedback = some (recovered_state s r now next) } in
          let rd' =
            read-settled db' (recovered_state s r now next)
              (record r {
                status = recovered_unknown;
                settled_at = some now;
                reason = interrupted_window;
                backoff_ns = hour;
              })
              refl v' win stat (av ∙ read-available db s rd) in
          let idle : is_pending (recovered_state s r now next).status ≡ false =
            ap is_pending stat in
          (
            db',
            recovered_state s r now next,
            recover-pending st db db' now next s r w t rd clock p en er
                (write-ok db (recovered_state s r now next) v'),
            rd',
            idle,
            recover-idle st db' now (recovered_state s r now next) w t rd'
                (ap (before_set now) hw ∙ same_instant now) idle,
          )
    ]
  where
    not_before : (at : ℕ) (o : Option ℕ) (h : ℕ) → o ≡ some h → before_set at o ≡ false → h ≤ at
    not_before at o h e c = ground arith

    same_instant : (at : ℕ) → before_set at (some at) ≡ false
    same_instant at = ground arith
