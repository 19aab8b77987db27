-- ===== src/Windows/Settle.antt =====
-- The states that SettleCPUWindow and RecoverCPUWindow write (internal/state/cpu_feedback.go).
use saga_rydd.Prelude.{
  ℕ, ◌≤◌, ◌<◌, ◌≡◌, refl, Bool, true, false, ◌||◌, none, some, ltb, ◌==◌, ok, arith, ◌⊎◌, inl, inr,
  Bool-cases, Option-cases, sym, subst, ◌∙◌,
}
use saga_rydd.Prelude.Int.{ℤ, pos, negsuc, max_int64}
use saga_rydd.Clock.{cpu_feedback_time, cpu_feedback_add}
use saga_rydd.Feedback.{hour, cpu_feedback_wait}
use saga_rydd.Feedback.Formula.{cpu_feedback_wait-le}
use saga_rydd.Windows.Types.{
  interrupted_window, pending, observed, completed_unknown, recovered_unknown, CpuWindowRecord,
  CpuWindowMeasurement, CpuFeedbackState, valid_time, increment_cpu_unknown, cpu_measurement_valid,
}
use saga_rydd.Windows.Valid.{
  status_valid, valid_cpu_feedback, settled_valid, outcome_valid, observed_wait_valid, next_valid,
}
use saga_rydd.Windows.Operations.{
  settle_state, observe_window, complete_unknown, recovered_state, measured, settled_state,
}
use saga_rydd.Windows.Parts.{WindowParts, increment_cpu_unknown_lem}
use saga_rydd.Windows.Kept.{
  ValidIfSet, SameAdmission, settled-valid, pending-facts, order-saturated,
}

add-valid : (at wait next : ℕ) → cpu_feedback_add at wait ≡ some next → valid_time next ≡ true
unfolding cpu_feedback_add cpu_feedback_time
add-valid at wait next e = ground arith

-- A known measurement has a time of at least 0 and a positive elapsed time.
pub observed-measurement :
    (m : CpuWindowMeasurement) (cpu : ℤ)
    → cpu_measurement_valid m ≡ true
    → m.cpu_time_ns ≡ some cpu
    → (e : ℤ) × (m.elapsed_ns ≡ some e)
unfolding cpu_measurement_valid
observed-measurement m (negsuc n) v ec = ground arith
observed-measurement m (pos n) v ec = elim (Option-cases m.elapsed_ns) [
  | inl none_set ↦ ground arith
  | inr (e, ee) ↦ (e, ee)
]

observed-status :
    (s : CpuFeedbackState) (r : CpuWindowRecord) (at : ℕ) (m : CpuWindowMeasurement) (cpu e : ℤ)
    → r.recorded_at ≤ at
    → r.status ≡ observed
    → r.settled_at ≡ some at
    → r.cpu_time_ns ≡ m.cpu_time_ns
    → r.elapsed_ns ≡ m.elapsed_ns
    → r.reason ≡ m.reason
    → cpu_measurement_valid m ≡ true
    → m.cpu_time_ns ≡ some cpu
    → m.elapsed_ns ≡ some e
    → r.backoff_ns ≡ (cpu_feedback_wait cpu e).0
    → r.backoff_capped ≡ (cpu_feedback_wait cpu e).1
    → next_valid s r at ≡ true
    → status_valid s r at r.status ≡ true
unfolding status_valid settled_valid outcome_valid observed_wait_valid
observed-status s r at m cpu e le st se ec ee er mv mc me b c n =
    let v : cpu_measurement_valid
          (record { cpu_time_ns = r.cpu_time_ns; elapsed_ns = r.elapsed_ns; reason = r.reason })
        ≡ true =
      rw (ec, ee, er) mv in
    ground arith

next_valid-some :
    (s : CpuFeedbackState) (r : CpuWindowRecord) (at next : ℕ)
    → 0 < r.backoff_ns
    → cpu_feedback_add at r.backoff_ns ≡ some next
    → s.next_allowed_at ≡ some next
    → next_valid s r at ≡ true
unfolding next_valid
next_valid-some s r at next p e n = ground arith

next_valid-none :
    (s : CpuFeedbackState) (r : CpuWindowRecord) (at : ℕ)
    → r.backoff_ns ≡ 0
    → s.next_allowed_at ≡ none
    → next_valid s r at ≡ true
unfolding next_valid
next_valid-none s r at p n = ground arith

unknown-status :
    (s : CpuFeedbackState) (r : CpuWindowRecord) (at : ℕ) (m : CpuWindowMeasurement)
    → r.recorded_at ≤ at
    → r.status ≡ completed_unknown
    → r.settled_at ≡ some at
    → r.cpu_time_ns ≡ m.cpu_time_ns
    → r.elapsed_ns ≡ m.elapsed_ns
    → r.reason ≡ m.reason
    → cpu_measurement_valid m ≡ true
    → m.cpu_time_ns ≡ none
    → r.backoff_ns ≡ 0
    → r.backoff_capped ≡ false
    → 1 ≤ s.completed_unknown_windows
    → s.next_allowed_at ≡ none
    → status_valid s r at r.status ≡ true
unfolding status_valid settled_valid outcome_valid next_valid
unknown-status s r at m le st se ec ee er mv mc b c one n =
    let v : cpu_measurement_valid
          (record { cpu_time_ns = r.cpu_time_ns; elapsed_ns = r.elapsed_ns; reason = r.reason })
        ≡ true =
      rw (ec, ee, er) mv in
    ground arith

recovered-status :
    (s : CpuFeedbackState) (r : CpuWindowRecord) (at next : ℕ)
    → r.recorded_at ≤ at
    → r.status ≡ recovered_unknown
    → r.settled_at ≡ some at
    → r.cpu_time_ns ≡ none
    → r.elapsed_ns ≡ none
    → r.reason ≡ interrupted_window
    → r.backoff_ns ≡ hour
    → r.backoff_capped ≡ false
    → 1 ≤ s.recovered_unknown_windows
    → next_valid s r at ≡ true
    → status_valid s r at r.status ≡ true
unfolding status_valid settled_valid outcome_valid
recovered-status s r at next le st se ec ee er b c one n = ground arith

-- What an observed window leaves: with no wait, and with one that ends at `next`.
observe_window-cases :
    (s s' : CpuFeedbackState) (r : CpuWindowRecord) (at : ℕ) (m : CpuWindowMeasurement) (cpu e : ℤ)
    → observe_window s r at m cpu e ≡ ok s'
    → (((cpu_feedback_wait cpu e).0 ≡ 0)
        × (s'
            ≡ settled_state s at
                (record (measured r at m observed) {
                  backoff_ns = (cpu_feedback_wait cpu e).0;
                  backoff_capped = (cpu_feedback_wait cpu e).1;
                })
                s.next_allowed_at))
      ⊎ ((next : ℕ) × (0 < (cpu_feedback_wait cpu e).0)
          × (cpu_feedback_add at (cpu_feedback_wait cpu e).0 ≡ some next)
          × (s'
              ≡ settled_state s at
                  (record (measured r at m observed) {
                    backoff_ns = (cpu_feedback_wait cpu e).0;
                    backoff_capped = (cpu_feedback_wait cpu e).1;
                  })
                  (some next)))
unfolding observe_window
observe_window-cases s s' r at m cpu e h =
    elim (Option-cases (cpu_feedback_add at (cpu_feedback_wait cpu e).0)) [
      | inl en ↦ inl (ground arith, ground arith)
      | inr (next, en) ↦ elim (Bool-cases (ltb 0 (cpu_feedback_wait cpu e).0)) [
        | inl p ↦ inr (next, ground arith, en, ground arith)
        | inr z ↦ inl (ground arith, ground arith)
      ]
    ]

module _ (s s' : CpuFeedbackState) (r : CpuWindowRecord) (high at : ℕ)
    (parts : WindowParts s r high) (is : r.status ≡ pending) (later : high ≤ at)
    (time : valid_time at ≡ true) where
  recorded-before : r.recorded_at ≤ at
  recorded-before =
      let (_, le) = order-saturated s r parts.tracked high parts.begun parts.order in omega arith

  observed-valid :
      (m : CpuWindowMeasurement) (cpu e : ℤ)
      → cpu_measurement_valid m ≡ true
      → m.cpu_time_ns ≡ some cpu
      → m.elapsed_ns ≡ some e
      → observe_window s r at m cpu e ≡ ok s'
      → valid_cpu_feedback s' ≡ true
  observed-valid m cpu e mv mc me h =
      let (sat, _) = order-saturated s r parts.tracked high parts.begun parts.order in
      let (sn, _, _, _, _) = pending-facts s r high is parts.of_status in
      let r' : CpuWindowRecord = record (measured r at m observed) {
        backoff_ns = (cpu_feedback_wait cpu e).0;
        backoff_capped = (cpu_feedback_wait cpu e).1;
      } in
      let same : SameAdmission r r' =
        (refl, refl, refl, refl, refl, refl, refl, refl, refl, refl) in
      let bound = cpu_feedback_wait-le cpu e in
      elim (observe_window-cases s s' r at m cpu e h) [
        | inl (z, es) ↦
            subst (λ t. valid_cpu_feedback t ≡ true) (sym es)
              (settled-valid s (settled_state s at r' s.next_allowed_at) r r' high at parts same
                refl later time refl refl refl refl bound (subst ValidIfSet (sym sn) tt) sat
                (observed-status (settled_state s at r' s.next_allowed_at) r' at m cpu e
                  recorded-before refl refl refl refl refl mv mc me refl refl
                  (next_valid-none (settled_state s at r' s.next_allowed_at) r' at z sn)))
        | inr (next, p, en, es) ↦
            subst (λ t. valid_cpu_feedback t ≡ true) (sym es)
              (settled-valid s (settled_state s at r' (some next)) r r' high at parts same refl
                later time refl refl refl refl bound (add-valid at r'.backoff_ns next en) sat
                (observed-status (settled_state s at r' (some next)) r' at m cpu e recorded-before
                  refl refl refl refl refl mv mc me refl refl
                  (next_valid-some (settled_state s at r' (some next)) r' at next p en refl)))
      ]

  completed-valid :
      (m : CpuWindowMeasurement)
      → cpu_measurement_valid m ≡ true
      → m.cpu_time_ns ≡ none
      → valid_cpu_feedback (complete_unknown s r at m) ≡ true
  unfolding complete_unknown
  completed-valid m mv mc =
      let (sat, _) = order-saturated s r parts.tracked high parts.begun parts.order in
      let (sn, b, c, _, _) = pending-facts s r high is parts.of_status in
      let (sat', one) =
        increment_cpu_unknown_lem s.completed_unknown_windows s.recovered_unknown_windows
          s.unknown_count_saturated sat in
      settled-valid s (complete_unknown s r at m) r (measured r at m completed_unknown) high at
        parts (refl, refl, refl, refl, refl, refl, refl, refl, refl, refl) refl later time refl refl
        refl refl (omega arith) (subst ValidIfSet (sym sn) tt) sat'
        (unknown-status (complete_unknown s r at m) (measured r at m completed_unknown) at m
          recorded-before refl refl refl refl refl mv mc b c one sn)

  -- The state of a settlement is valid.
  pub settle_state-valid :
      (m : CpuWindowMeasurement)
      → cpu_measurement_valid m ≡ true
      → settle_state s r at m ≡ ok s'
      → valid_cpu_feedback s' ≡ true
  unfolding settle_state
  settle_state-valid m mv h = elim (Option-cases m.cpu_time_ns) [
    | inl mc ↦ subst (λ t. valid_cpu_feedback t ≡ true) (ground arith) (completed-valid m mv mc)
    | inr (cpu, mc) ↦
        let (e, me) = observed-measurement m cpu mv mc in
        observed-valid m cpu e mv mc me (ground arith)
  ]

  -- The state of a recovery is valid.
  pub recovered_state-valid :
      (next : ℕ)
      → cpu_feedback_add at hour ≡ some next
      → valid_cpu_feedback (recovered_state s r at next) ≡ true
  unfolding recovered_state
  recovered_state-valid next en =
      let (sat, _) = order-saturated s r parts.tracked high parts.begun parts.order in
      let (sn, b, c, ct, ce) = pending-facts s r high is parts.of_status in
      let (sat', one) =
        increment_cpu_unknown_lem s.recovered_unknown_windows s.completed_unknown_windows
          s.unknown_count_saturated
          (sat
            ∙ or_comm (s.completed_unknown_windows == max_int64)
                (s.recovered_unknown_windows == max_int64)) in
      let r' : CpuWindowRecord = record r {
        status = recovered_unknown;
        settled_at = some at;
        reason = interrupted_window;
        backoff_ns = hour;
      } in
      settled-valid s (recovered_state s r at next) r r' high at parts
        (refl, refl, refl, refl, refl, refl, refl, refl, refl, refl) refl later time refl refl refl
        refl (omega arith) (add-valid at hour next en)
        (sat'
          ∙ or_comm
              ((increment_cpu_unknown s.recovered_unknown_windows s.unknown_count_saturated).0
                == max_int64)
              (s.completed_unknown_windows == max_int64))
        (recovered-status (recovered_state s r at next) r' at next recorded-before refl refl ct ce
          refl refl c one
          (next_valid-some (recovered_state s r at next) r' at next (omega arith) en refl))
    where
      or_comm : (a b : Bool) → (a || b) ≡ (b || a)
      or_comm true true = refl
      or_comm true false = refl
      or_comm false true = refl
      or_comm false false = refl
