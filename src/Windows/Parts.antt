-- ===== src/Windows/Parts.antt =====
-- validCPUFeedback (internal/state/cpu_feedback.go) taken apart and put together again.
use saga_rydd.Prelude.{ℕ, ◌≤◌, ◌≡◌, Bool, true, ◌||◌, some, ◌==◌, arith, inl, inr, Option-cases}
use saga_rydd.Prelude.Int.{max_int64}
use saga_rydd.Windows.Types.{CpuWindowRecord, CpuFeedbackState, increment_cpu_unknown}
use saga_rydd.Windows.Valid.{
  window_identity_valid, instants_valid, order_valid, kind_valid, status_valid, window_valid,
  valid_cpu_feedback,
}

-- What a valid state with window `r` holds.
pub record WindowParts (s : CpuFeedbackState) (r : CpuWindowRecord) (high : ℕ) : Type 0 where
  pub tracked : ℕ
  pub begun : ℕ
  pub tracked_at : s.tracking_started_at ≡ some tracked
  pub high_at : s.clock_high_water ≡ some high
  pub begun_at : s.last_begun_dispatch_at ≡ some begun
  pub identity : window_identity_valid r ≡ true
  pub instants : instants_valid s r tracked high begun ≡ true
  pub order : order_valid s r tracked high begun ≡ true
  pub of_kind : kind_valid r r.kind ≡ true
  pub of_status : status_valid s r high r.status ≡ true

window_valid-parts :
    (s : CpuFeedbackState) (r : CpuWindowRecord) (tracked high begun : ℕ)
    → window_valid s r tracked high begun ≡ true
    → (window_identity_valid r ≡ true)
      × (instants_valid s r tracked high begun ≡ true)
      × (order_valid s r tracked high begun ≡ true)
      × (kind_valid r r.kind ≡ true)
      × (status_valid s r high r.status ≡ true)
unfolding window_valid
window_valid-parts s r tracked high begun v =
    (ground arith, ground arith, ground arith, ground arith, ground arith)

pub valid-WindowParts :
    (s : CpuFeedbackState) (r : CpuWindowRecord)
    → valid_cpu_feedback s ≡ true
    → s.window ≡ some r
    → (high : ℕ) × WindowParts s r high
unfolding valid_cpu_feedback
valid-WindowParts s r v er = elim (Option-cases s.tracking_started_at) [
  | inl bad ↦ ground arith
  | inr (tracked, et) ↦ elim (Option-cases s.clock_high_water) [
    | inl bad ↦ ground arith
    | inr (high, eh) ↦ elim (Option-cases s.last_begun_dispatch_at) [
      | inl bad ↦ ground arith
      | inr (begun, eb) ↦
          let (i1, i2, i3, i4, i5) = window_valid-parts s r tracked high begun (ground arith) in
          (
            high,
            record {
              tracked = tracked;
              begun = begun;
              tracked_at = et;
              high_at = eh;
              begun_at = eb;
              identity = i1;
              instants = i2;
              order = i3;
              of_kind = i4;
              of_status = i5;
            },
          )
    ]
  ]
]

pub WindowParts-valid :
    (s : CpuFeedbackState) (r : CpuWindowRecord) (high : ℕ)
    → s.window ≡ some r
    → WindowParts s r high
    → valid_cpu_feedback s ≡ true
unfolding valid_cpu_feedback window_valid
WindowParts-valid s r high er p =
    let e1 = p.tracked_at in
    let e2 = p.high_at in
    let e3 = p.begun_at in
    let i1 = p.identity in
    let i2 = p.instants in
    let i3 = p.order in let i4 = p.of_kind in let i5 = p.of_status in ground arith

pub valid-window :
    (s : CpuFeedbackState)
    → valid_cpu_feedback s ≡ true
    → (r : CpuWindowRecord) × (s.window ≡ some r)
unfolding valid_cpu_feedback
valid-window s v = elim (Option-cases s.window) [ inl bad ↦ ground arith | inr (r, er) ↦ (r, er) ]

-- The largest count is marked, and stays so.
pub increment_cpu_unknown_lem :
    (count other : ℕ) (saturated : Bool)
    → saturated ≡ ((count == max_int64) || (other == max_int64))
    → ((increment_cpu_unknown count saturated).1
        ≡ (((increment_cpu_unknown count saturated).0 == max_int64) || (other == max_int64)))
      × (1 ≤ (increment_cpu_unknown count saturated).0)
unfolding increment_cpu_unknown
increment_cpu_unknown_lem count other saturated h = (ground arith, ground arith)
