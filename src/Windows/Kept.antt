-- ===== src/Windows/Kept.antt =====
-- SettleCPUWindow and RecoverCPUWindow (internal/state/cpu_feedback.go) against validCPUFeedback.
use saga_rydd.Prelude.{
  ℕ, ◌≤◌, ◌≡◌, true, false, ◌||◌, Option, none, some, ◌==◌, arith, inl, inr, Option-cases, subst,
  ◌∙◌,
}
use saga_rydd.Prelude.Int.{max_int64}
use saga_rydd.Feedback.{backoff_limit}
use saga_rydd.Windows.Types.{pending, CpuWindowRecord, CpuFeedbackState, valid_time}
use saga_rydd.Windows.Valid.{
  window_identity_valid, instants_valid, order_valid, kind_valid, status_valid, valid_cpu_feedback,
  pending_valid,
}
use saga_rydd.Windows.Parts.{WindowParts, WindowParts-valid}

-- The window `r'` keeps what the admission of `r` fixed.
abbrev pub SameAdmission : CpuWindowRecord → CpuWindowRecord → Type 0
SameAdmission r r' =
    (r'.token ≡ r.token)
    × (r'.instance_id ≡ r.instance_id)
    × (r'.kind ≡ r.kind)
    × (r'.root_id ≡ r.root_id)
    × (r'.job_id ≡ r.job_id)
    × (r'.job_token ≡ r.job_token)
    × (r'.job_lease_until ≡ r.job_lease_until)
    × (r'.dispatch_reserved_at ≡ r.dispatch_reserved_at)
    × (r'.window_started_at ≡ r.window_started_at)
    × (r'.recorded_at ≡ r.recorded_at)

identity-kept :
    (r r' : CpuWindowRecord)
    → window_identity_valid r ≡ true
    → SameAdmission r r'
    → r'.backoff_ns ≤ backoff_limit
    → window_identity_valid r' ≡ true
unfolding window_identity_valid
identity-kept r r' v same b = ground arith

kind-kept :
    (r r' : CpuWindowRecord)
    → kind_valid r r.kind ≡ true
    → SameAdmission r r'
    → kind_valid r' r'.kind ≡ true
unfolding kind_valid
kind-kept r r' v same = ground arith

abbrev pub ValidIfSet : Option ℕ → Type 0
ValidIfSet none = Unit
ValidIfSet (some at) = valid_time at ≡ true

instants-kept :
    (s s' : CpuFeedbackState) (r r' : CpuWindowRecord) (tracked high begun at : ℕ)
    → instants_valid s r tracked high begun ≡ true
    → SameAdmission r r'
    → r'.settled_at ≡ some at
    → valid_time at ≡ true
    → ValidIfSet s'.next_allowed_at
    → instants_valid s' r' tracked at begun ≡ true
unfolding instants_valid
instants-kept s s' r r' tracked high begun at v same e t n =
    elim (Option-cases s'.next_allowed_at) [
      | inl en ↦ ground arith
      | inr (next, en) ↦ let tn = subst ValidIfSet en n in ground arith
    ]

order-kept :
    (s s' : CpuFeedbackState) (r r' : CpuWindowRecord) (tracked high begun at : ℕ)
    → order_valid s r tracked high begun ≡ true
    → SameAdmission r r'
    → high ≤ at
    → s'.unknown_count_saturated
      ≡ ((s'.completed_unknown_windows == max_int64) || (s'.recovered_unknown_windows == max_int64))
    → order_valid s' r' tracked at begun ≡ true
unfolding order_valid
order-kept s s' r r' tracked high begun at v same le sat = ground arith

pub order-saturated :
    (s : CpuFeedbackState) (r : CpuWindowRecord) (tracked high begun : ℕ)
    → order_valid s r tracked high begun ≡ true
    → (s.unknown_count_saturated ≡ (
        (s.completed_unknown_windows == max_int64) || (s.recovered_unknown_windows == max_int64)))
      × (r.recorded_at ≤ high)
unfolding order_valid
order-saturated s r tracked high begun v = (ground arith, ground arith)

-- A pending window is saved without outcome.
pub pending-facts :
    (s : CpuFeedbackState) (r : CpuWindowRecord) (high : ℕ)
    → r.status ≡ pending
    → status_valid s r high r.status ≡ true
    → (s.next_allowed_at ≡ none)
      × (r.backoff_ns ≡ 0)
      × (r.backoff_capped ≡ false)
      × (r.cpu_time_ns ≡ none)
      × (r.elapsed_ns ≡ none)
unfolding status_valid pending_valid
pending-facts s r high e v = (ground arith, ground arith, ground arith, ground arith, ground arith)

-- A settled window of a valid state is one whose outcome is valid.
module _ (s s' : CpuFeedbackState) (r r' : CpuWindowRecord) (high at : ℕ)
    (parts : WindowParts s r high) (same : SameAdmission r r') (window : s'.window ≡ some r')
    (later : high ≤ at) (time : valid_time at ≡ true) (now : s'.clock_high_water ≡ some at)
    (tracking : s'.tracking_started_at ≡ s.tracking_started_at)
    (begun : s'.last_begun_dispatch_at ≡ s.last_begun_dispatch_at) where
  pub settled-valid :
      r'.settled_at ≡ some at
      → r'.backoff_ns ≤ backoff_limit
      → ValidIfSet s'.next_allowed_at
      → s'.unknown_count_saturated ≡ (
          (s'.completed_unknown_windows == max_int64)
          || (s'.recovered_unknown_windows == max_int64))
      → status_valid s' r' at r'.status ≡ true
      → valid_cpu_feedback s' ≡ true
  settled-valid e b n sat st = WindowParts-valid s' r' at window record {
    tracked = parts.tracked;
    begun = parts.begun;
    tracked_at = tracking ∙ parts.tracked_at;
    high_at = now;
    begun_at = begun ∙ parts.begun_at;
    identity = identity-kept r r' parts.identity same b;
    instants =
        instants-kept s s' r r' parts.tracked high parts.begun at parts.instants same e time n;
    order = order-kept s s' r r' parts.tracked high parts.begun at parts.order same later sat;
    of_kind = kind-kept r r' parts.of_kind same;
    of_status = st;
  }
