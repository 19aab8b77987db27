-- ===== src/Windows/Safety.antt =====
-- The errors of SettleCPUWindow and RecoverCPUWindow, and the retry of a settlement
-- (internal/state/cpu_feedback.go).
use saga_rydd.Prelude.{
  ℕ, ◌+◌, ◌≤◌, ◌≡◌, refl, Bool, true, false, Option, none, some, ltb, ok, err, arith, ◌⊎◌, inl, inr,
  Bool-cases, Option-cases, sym, subst, ap, ◌∙◌,
}
use saga_rydd.Prelude.Int.{ℤ, pos, negsuc, max_int64}
use saga_rydd.Clock.{cpu_feedback_time, cpu_feedback_add}
use saga_rydd.Feedback.{hour, cpu_feedback_wait}
use saga_rydd.Feedback.Formula.{cpu_feedback_wait-le}
use saga_rydd.Windows.Types.{
  WindowStatus, pending, observed, completed_unknown, WindowError, corrupt, CpuWindowRecord,
  CpuWindowMeasurement, CpuFeedbackState, valid_time, cpu_measurement_valid, same_cpu_window,
  same_observation, cpu_feedback_snapshot,
}
use saga_rydd.Windows.Valid.{
  valid_cpu_feedback, window_valid, instants_valid, order_valid, status_valid, pending_valid,
  settled_valid, outcome_valid, next_valid,
}
use saga_rydd.Windows.Operations.{
  WindowStore, WindowDb, CpuWindowMarker, cpu_feedback_writer, read_cpu_feedback,
  write_cpu_feedback, settle_state, observe_window, settle_window, settle_cpu_window, settle_retry,
  is_pending, loaded, window_status, before_set, complete_unknown, measured, settled_state,
}
use saga_rydd.Windows.Parts.{valid-WindowParts}
use saga_rydd.Windows.Settle.{settle_state-valid, observed-measurement}

-- The test does not read what the reader sets.
loaded-valid :
    (s : CpuFeedbackState) → valid_cpu_feedback s ≡ true → valid_cpu_feedback (loaded s) ≡ true
unfolding valid_cpu_feedback window_valid instants_valid order_valid status_valid pending_valid
    settled_valid outcome_valid next_valid
loaded-valid s v = v

snapshot-idle : (cpu_feedback_snapshot true).window ≡ none
unfolding cpu_feedback_snapshot
snapshot-idle = refl

-- What is read is valid once it has a window.
pub read-valid :
    (db : WindowDb) (s : CpuFeedbackState) (r : CpuWindowRecord)
    → read_cpu_feedback db ≡ ok s
    → s.window ≡ some r
    → valid_cpu_feedback s ≡ true
unfolding read_cpu_feedback
read-valid db s r e er = elim (Option-cases db.feedback) [
  | inl none_saved ↦ let idle = snapshot-idle in ground arith
  | inr (saved, es) ↦ elim (Bool-cases (valid_cpu_feedback saved)) [
    | inr bad ↦ ground arith
    | inl v ↦ subst (λ t. valid_cpu_feedback t ≡ true) (ground arith) (loaded-valid saved v)
  ]
]

-- A state that is read has the status of its window.
pub read-status :
    (db : WindowDb) (s : CpuFeedbackState)
    → read_cpu_feedback db ≡ ok s
    → s.status ≡ window_status s.window
unfolding read_cpu_feedback cpu_feedback_snapshot
read-status db s e = ground arith

read-err : (db : WindowDb) (x : WindowError) → read_cpu_feedback db ≡ err x → x ≡ corrupt
unfolding read_cpu_feedback
read-err db x e = ground arith

pub write-ok :
    (db : WindowDb) (s : CpuFeedbackState)
    → valid_cpu_feedback s ≡ true
    → write_cpu_feedback db s ≡ ok (record db { feedback = some s })
unfolding write_cpu_feedback
write-ok db s v = ground arith

-- No wait of at most an hour is lost at the end of the representable time.
pub add-some :
    (at wait : ℕ)
    → valid_time at ≡ true
    → wait ≤ hour
    → at + hour ≤ max_int64
    → (next : ℕ) × (cpu_feedback_add at wait ≡ some next)
unfolding cpu_feedback_add cpu_feedback_time
add-some at wait t w b = (at + wait, ground arith)

settle_state-ok :
    (s : CpuFeedbackState) (r : CpuWindowRecord) (at : ℕ) (m : CpuWindowMeasurement)
    → valid_time at ≡ true
    → at + hour ≤ max_int64
    → cpu_measurement_valid m ≡ true
    → (s' : CpuFeedbackState) × (settle_state s r at m ≡ ok s')
unfolding settle_state observe_window
settle_state-ok s r at m t b mv = elim (Option-cases m.cpu_time_ns) [
  | inl mc ↦ (complete_unknown s r at m, ground arith)
  | inr (cpu, mc) ↦
      let (e, me) = observed-measurement m cpu mv mc in
      let (next, en) = add-some at (cpu_feedback_wait cpu e).0 t (cpu_feedback_wait-le cpu e) b in
      let r' : CpuWindowRecord = record (measured r at m observed) {
        backoff_ns = (cpu_feedback_wait cpu e).0;
        backoff_capped = (cpu_feedback_wait cpu e).1;
      } in
      elim (Bool-cases (ltb 0 (cpu_feedback_wait cpu e).0)) [
        | inl p ↦ (settled_state s at r' (some next), ground arith)
        | inr z ↦ (settled_state s at r' s.next_allowed_at, ground arith)
      ]
]

-- What a settlement puts into the state.
record Settlement (s s' : CpuFeedbackState) (r : CpuWindowRecord) (at : ℕ)
    (m : CpuWindowMeasurement) : Type 0 where
  settled : CpuWindowRecord
  status : WindowStatus
  backoff : ℕ
  capped : Bool
  of_status : (status ≡ observed) ⊎ (status ≡ completed_unknown)
  settled_is :
      settled ≡ record (measured r at m status) { backoff_ns = backoff; backoff_capped = capped }
  window_is : s'.window ≡ some settled
  status_is : s'.status ≡ status
  available_is : s'.available ≡ s.available

settle_state-Settlement :
    (s s' : CpuFeedbackState) (r : CpuWindowRecord) (at : ℕ) (m : CpuWindowMeasurement)
    → settle_state s r at m ≡ ok s'
    → Settlement s s' r at m
unfolding settle_state observe_window complete_unknown
settle_state-Settlement s s' r at m e = elim (Option-cases m.cpu_time_ns) [
  | inl mc ↦ record {
    settled = measured r at m completed_unknown;
    status = completed_unknown;
    backoff = r.backoff_ns;
    capped = r.backoff_capped;
    of_status = inr refl;
    settled_is = refl;
    window_is = ground arith;
    status_is = ground arith;
    available_is = ground arith;
  }
  | inr (cpu, mc) ↦ elim (Option-cases m.elapsed_ns) [
    | inl missing ↦ ground arith
    | inr (el, me) ↦ record {
      settled = record (measured r at m observed) {
        backoff_ns = (cpu_feedback_wait cpu el).0;
        backoff_capped = (cpu_feedback_wait cpu el).1;
      };
      status = observed;
      backoff = (cpu_feedback_wait cpu el).0;
      capped = (cpu_feedback_wait cpu el).1;
      of_status = inl refl;
      settled_is = refl;
      window_is = ground arith;
      status_is = ground arith;
      available_is = ground arith;
    }
  ]
]

pub read-available :
    (db : WindowDb) (s : CpuFeedbackState) → read_cpu_feedback db ≡ ok s → s.available ≡ true
unfolding read_cpu_feedback cpu_feedback_snapshot
read-available db s e = ground arith

same_observation_refl : (o : Option ℤ) → same_observation o o ≡ true
unfolding same_observation
same_observation_refl none = refl
same_observation_refl (some (pos n)) = ground arith
same_observation_refl (some (negsuc n)) = ground arith

settled-retry :
    (r r' : CpuWindowRecord) (at : ℕ) (m : CpuWindowMeasurement) (status : WindowStatus)
    (backoff : ℕ) (capped : Bool)
    → (status ≡ observed) ⊎ (status ≡ completed_unknown)
    → r' ≡ record (measured r at m status) { backoff_ns = backoff; backoff_capped = capped }
    → (settle_retry r' at m ≡ true) × (is_pending r'.status ≡ false)
unfolding settle_retry
settled-retry r r' at m status backoff capped is e =
    ground (arith, same_observation_refl m.cpu_time_ns, same_observation_refl m.elapsed_ns)

same-settled :
    (w r r' : CpuWindowRecord) (at : ℕ) (m : CpuWindowMeasurement) (status : WindowStatus)
    (backoff : ℕ) (capped : Bool)
    → r' ≡ record (measured r at m status) { backoff_ns = backoff; backoff_capped = capped }
    → same_cpu_window w r ≡ true
    → same_cpu_window w r' ≡ true
unfolding same_cpu_window
same-settled w r r' at m status backoff capped e h =
    subst (λ t. same_cpu_window w t ≡ true) (sym e) h

pub read-settled :
    (db : WindowDb) (s : CpuFeedbackState) (r : CpuWindowRecord)
    → db.feedback ≡ some s
    → valid_cpu_feedback s ≡ true
    → s.window ≡ some r
    → s.status ≡ r.status
    → s.available ≡ true
    → read_cpu_feedback db ≡ ok s
unfolding read_cpu_feedback
read-settled db s r ef v er st av = ground arith

-- The last steps of a first settlement, and of its retry.
settle-first :
    (st : WindowStore) (db : WindowDb) (marker : CpuWindowMarker) (at : ℕ)
    (m : CpuWindowMeasurement) (s s' : CpuFeedbackState) (r : CpuWindowRecord) (db' : WindowDb)
    → cpu_feedback_writer st ≡ ok tt
    → valid_time at ≡ true
    → marker.store ≡ st.handle
    → is_pending marker.window.status ≡ true
    → cpu_measurement_valid m ≡ true
    → read_cpu_feedback db ≡ ok s
    → s.window ≡ some r
    → same_cpu_window marker.window r ≡ true
    → is_pending r.status ≡ true
    → before_set at s.clock_high_water ≡ false
    → settle_state s r at m ≡ ok s'
    → write_cpu_feedback db s' ≡ ok db'
    → settle_cpu_window st db marker at m ≡ ok (db', s')
unfolding settle_cpu_window settle_window
settle-first st db marker at m s s' r db' e1 e2 e3 e4 e5 e6 e7 e8 e9 e10 e11 e12 = ground arith

settle-again :
    (st : WindowStore) (db : WindowDb) (marker : CpuWindowMarker) (at : ℕ)
    (m : CpuWindowMeasurement) (s : CpuFeedbackState) (r : CpuWindowRecord)
    → cpu_feedback_writer st ≡ ok tt
    → valid_time at ≡ true
    → marker.store ≡ st.handle
    → is_pending marker.window.status ≡ true
    → cpu_measurement_valid m ≡ true
    → read_cpu_feedback db ≡ ok s
    → s.window ≡ some r
    → same_cpu_window marker.window r ≡ true
    → is_pending r.status ≡ false
    → settle_retry r at m ≡ true
    → settle_cpu_window st db marker at m ≡ ok (db, s)
unfolding settle_cpu_window settle_window
settle-again st db marker at m s r e1 e2 e3 e4 e5 e6 e7 e8 e9 e10 = ground arith

-- SettleCPUWindow never gets stuck: for the marker of the saved pending window, a valid measurement, and
-- an instant not before the high-water one and an hour before the end of the representable time, it
-- succeeds, leaves a state that the reader accepts, and its exact retry succeeds and changes nothing.
pub settle_cpu_window_succeeds :
    (st : WindowStore) (db : WindowDb) (marker : CpuWindowMarker) (at : ℕ)
    (m : CpuWindowMeasurement) (s : CpuFeedbackState) (r : CpuWindowRecord)
    → cpu_feedback_writer st ≡ ok tt
    → valid_time at ≡ true
    → at + hour ≤ max_int64
    → marker.store ≡ st.handle
    → is_pending marker.window.status ≡ true
    → cpu_measurement_valid m ≡ true
    → read_cpu_feedback db ≡ ok s
    → s.window ≡ some r
    → same_cpu_window marker.window r ≡ true
    → r.status ≡ pending
    → before_set at s.clock_high_water ≡ false
    → (db' : WindowDb) × (s' : CpuFeedbackState) × (settle_cpu_window st db marker at m
        ≡ ok (db', s'))
      × (read_cpu_feedback db' ≡ ok s')
      × (settle_cpu_window st db' marker at m ≡ ok (db', s'))
settle_cpu_window_succeeds st db marker at m s r w t room own is mv rd er same p clock =
    let v = read-valid db s r rd er in
    let (high, parts) = valid-WindowParts s r v er in
    let le : high ≤ at = not_before at s.clock_high_water high parts.high_at clock in
    let (s', es) = settle_state-ok s r at m t room mv in
    let v' = settle_state-valid s s' r high at parts p le t m mv es in
    let f = settle_state-Settlement s s' r at m es in
    let (again, done) =
      settled-retry r f.settled at m f.status f.backoff f.capped f.of_status f.settled_is in
    let db' : WindowDb = record db { feedback = some s' } in
    let status_of : s'.status ≡ f.settled.status =
      f.status_is ∙ sym (ap (λ x. x.status) f.settled_is) in
    let rd' =
      read-settled db' s' f.settled refl v' f.window_is status_of
        (f.available_is ∙ read-available db s rd) in
    (
      db',
      s',
      settle-first st db marker at m s s' r db' w t own is mv rd er same (ap is_pending p) clock es
          (write-ok db s' v'),
      rd',
      settle-again st db' marker at m s' f.settled w t own is mv rd' f.window_is
          (same-settled marker.window r f.settled at m f.status f.backoff f.capped f.settled_is
            same)
          done again,
    )
  where
    not_before : (at : ℕ) (o : Option ℕ) (h : ℕ) → o ≡ some h → before_set at o ≡ false → h ≤ at
    not_before at o h e c = ground arith
