-- ===== src/Permits/Bounds.antt =====
-- Bounds of the permit window (internal/worker/metadata_window.go), the startup allowance
-- (internal/inventory/permit.go) and the CPU clock (internal/worker/cpu_clock.go).
use saga_rydd.Prelude.{
  ℕ, ◌+◌, ◌*◌, ◌/◌, ltb, ◌≤◌, ◌<◌, ◌≡◌, refl, sym, ◌∙◌, subst, inl, inr, true, false, Option, none,
  some, List, [], ◌∷◌, arith, leb, if◌then◌else◌, Result, ok, err, Bool-cases,
}
use saga_rydd.Int64.{to_int64-small, lt_int, max_minus, add_int64}
use saga_rydd.Prelude.Int.{pos, max_int64}
use saga_rydd.Permits.Window.{
  Context, ApiCallKind, PermitError, MetadataWindow, allowance_limit, fence_at, permit_at, admit,
  known_kind, add_counts, startup_api_attempt_allowance, timeval_ns, timeval_total, cpu_timeval_sum,
}

-- StartupAPIAttemptAllowance is twice the twelve fixed paths and all the given ones when that is at
-- most 65536, and an error otherwise.
pub startup_allowance_exact :
    (roots excludes private_paths : ℕ)
    → startup_api_attempt_allowance roots excludes private_paths ≡ (
        if leb (2 * (12 + roots + excludes + private_paths)) allowance_limit
        then some (2 * (12 + roots + excludes + private_paths))
        else none)
unfolding startup_api_attempt_allowance add_counts
startup_allowance_exact roots excludes private_paths = ground arith

add_int64-small : (a b : ℕ) → a + b ≤ max_int64 → add_int64 (pos a) (pos b) ≡ pos (a + b)
unfolding add_int64
add_int64-small a b le = to_int64-small (a + b) le

-- The sum of two counts behind the comparison of one with math.MaxInt64 less the other.
guarded-sum :
    (a b : ℕ)
    → b ≤ max_int64
    → (if lt_int (max_minus (pos b)) (pos a) then none else some (add_int64 (pos a) (pos b)))
      ≡ (if leb (a + b) max_int64 then some (pos (a + b)) else none)
unfolding max_minus
guarded-sum a b le = elim (Bool-cases (leb (a + b) max_int64)) [
  | inl fits ↦ ground (arith, add_int64-small a b)
  | inr over ↦ ground arith
]

timeval_ns-exact :
    (seconds micros : ℕ)
    → micros < 1000000
    → timeval_ns (pos seconds) (pos micros) ≡ (
        if leb (seconds * 1000000000 + micros * 1000) max_int64
        then some (pos (seconds * 1000000000 + micros * 1000))
        else none)
unfolding timeval_ns
timeval_ns-exact seconds micros h = elim (Bool-cases (ltb (max_int64 / 1000000000) seconds)) [
  | inl over ↦ ground arith
  | inr within ↦
      rw
        (
          to_int64-small (seconds * 1000000000) (ground arith),
          to_int64-small (micros * 1000) (omega arith),
          guarded-sum (seconds * 1000000000) (micros * 1000) (omega arith),
        )
        (ground arith)
]

timeval_total-exact :
    (user system : ℕ)
    → timeval_total
        (if leb user max_int64 then some (pos user) else none)
        (if leb system max_int64 then some (pos system) else none)
      ≡ (if leb (user + system) max_int64 then some (pos (user + system)) else none)
unfolding timeval_total
timeval_total-exact user system = elim (Bool-cases (leb system max_int64)) [
  | inr over ↦ ground arith
  | inl fits ↦ elim (Bool-cases (leb user max_int64)) [
    | inr over ↦ ground arith
    | inl fits' ↦ rw (fits, fits') (guarded-sum user system (ground arith))
  ]
]

-- For seconds that are not negative and microseconds below a million, cpuTimevalSum is the exact
-- sum in nanoseconds when that is an int64, and an error otherwise: none of its int64 products and
-- sums, which wrap around here as in the source, does so.
pub cpu_timeval_sum_exact :
    (user_seconds user_micros system_seconds system_micros : ℕ)
    → user_micros < 1000000
    → system_micros < 1000000
    → cpu_timeval_sum (pos user_seconds) (pos user_micros) (pos system_seconds) (pos system_micros)
      ≡ (let total : ℕ =
            (user_seconds * 1000000000 + user_micros * 1000)
            + (system_seconds * 1000000000 + system_micros * 1000) in
          if leb total max_int64 then some (pos total) else none)
unfolding cpu_timeval_sum
cpu_timeval_sum_exact us um ss sm hu hs =
    rw (timeval_ns-exact us um hu, timeval_ns-exact ss sm hs)
      (timeval_total-exact (us * 1000000000 + um * 1000) (ss * 1000000000 + sm * 1000))

-- An attempt that asks a window, with the readings of both clocks.
pub record Attempt : Type 0 where
  pub context : Option Context
  pub kind : ApiCallKind
  pub wall : ℕ
  pub elapsed : ℕ

abbrev pub counted : Result PermitError (Unit {0}) → ℕ
counted (ok _) = 1
counted (err _) = 0

-- A window after a sequence of attempts, and how many of them it admitted.
unfoldable pub permit_all : MetadataWindow → List Attempt → MetadataWindow × ℕ
permit_all w [] = (w, 0)
permit_all w (t ∷ ts) =
    let asked : MetadataWindow × Result PermitError (Unit {0}) =
      permit_at w t.context t.kind t.wall t.elapsed in
    let rest : MetadataWindow × ℕ = permit_all asked.0 ts in (rest.0, counted asked.1 + rest.1)

-- The end of the window is fixed, and what it admits is counted within its allowance.
pub record Within (w : MetadataWindow) (w' : MetadataWindow) (n : ℕ) : Type 0 where
  pub same_allowance : w'.allowance ≡ w.allowance
  pub counts : w'.observed ≡ w.observed + n
  pub in_allowance : w'.observed ≤ w.allowance
  pub not_back : w.high_water ≤ w'.high_water

fence_at-kept :
    (w : MetadataWindow) (c : Option Context) (wall elapsed : ℕ)
    → ((fence_at w c wall elapsed).0.allowance ≡ w.allowance)
      × ((fence_at w c wall elapsed).0.observed ≡ w.observed)
      × (w.high_water ≤ (fence_at w c wall elapsed).0.high_water)
unfolding fence_at
fence_at-kept w none wall elapsed = (refl, refl, omega arith)
fence_at-kept w (some c) wall elapsed = (ground arith, ground arith, ground arith)

admit-Within :
    (w : MetadataWindow) (m : MetadataWindow × Result PermitError ℕ)
    → w.observed ≤ w.allowance
    → m.0.allowance ≡ w.allowance
    → m.0.observed ≡ w.observed
    → w.high_water ≤ m.0.high_water
    → Within w (admit m).0 (counted (admit m).1)
admit-Within w (v, err why) le ea eo eh = record {
  same_allowance = ea;
  counts = omega (arith, eo);
  in_allowance = omega (arith, eo);
  not_back = eh;
}
admit-Within w (v, ok remaining) le ea eo eh = elim (Bool-cases (leb v.allowance v.observed)) [
  | inl full ↦ rw full (record {
    same_allowance = ea;
    counts = omega (arith, eo);
    in_allowance = omega (arith, eo);
    not_back = eh;
  })
  | inr room ↦ rw room (record {
    same_allowance = ea;
    counts = omega (arith, eo);
    in_allowance = ground (arith, room);
    not_back = eh;
  })
]

permit_at-known :
    (w : MetadataWindow) (c : Context) (kind : ApiCallKind) (wall elapsed : ℕ)
    → c.done ≡ false
    → known_kind kind ≡ true
    → permit_at w (some c) kind wall elapsed ≡ admit (fence_at w (some c) wall elapsed)
unfolding permit_at
permit_at-known w c kind wall elapsed live known = ground (arith, live, known)

same-Within : (w : MetadataWindow) → w.observed ≤ w.allowance → Within w w 0
same-Within w le = record {
  same_allowance = refl;
  counts = omega arith;
  in_allowance = le;
  not_back = omega arith;
}

permit_at-Within :
    (w : MetadataWindow) (c : Option Context) (kind : ApiCallKind) (wall elapsed : ℕ)
    → w.observed ≤ w.allowance
    → Within w (permit_at w c kind wall elapsed).0 (counted (permit_at w c kind wall elapsed).1)
unfolding permit_at
permit_at-Within w none kind wall elapsed le = same-Within w le
permit_at-Within w (some c) kind wall elapsed le = elim (Bool-cases c.done) [
  | inl over ↦ rw over (same-Within w le)
  | inr live ↦ elim (Bool-cases (known_kind kind)) [
    | inr other ↦ rw (live, other) (same-Within w le)
    | inl known ↦
        let (ea, eo, eh) = fence_at-kept w (some c) wall elapsed in
        subst (λ m. Within w m.0 (counted m.1))
          (sym (permit_at-known w c kind wall elapsed live known))
          (admit-Within w (fence_at w (some c) wall elapsed) le ea eo eh)
  ]
]

pub permit_all-Within :
    (w : MetadataWindow) (ts : List Attempt)
    → w.observed ≤ w.allowance
    → Within w (permit_all w ts).0 (permit_all w ts).1
unfolding permit_all
permit_all-Within w [] le = record {
  same_allowance = refl;
  counts = omega arith;
  in_allowance = le;
  not_back = omega arith;
}
permit_all-Within w (t ∷ ts) le =
    let first = permit_at-Within w t.context t.kind t.wall t.elapsed le in
    let rest =
      permit_all-Within (permit_at w t.context t.kind t.wall t.elapsed).0 ts
        (omega (arith, first.same_allowance, first.in_allowance)) in
    record {
      same_allowance = rest.same_allowance ∙ first.same_allowance;
      counts = omega (arith, first.counts, rest.counts);
      in_allowance = omega (arith, first.same_allowance, rest.in_allowance);
      not_back = omega (arith, first.not_back, rest.not_back);
    }

-- Over any sequence of attempts, a window whose count is within its allowance admits no more than
-- what is left of it.
pub permit_all_bounded :
    (w : MetadataWindow) (ts : List Attempt)
    → w.observed ≤ w.allowance
    → w.observed + (permit_all w ts).1 ≤ w.allowance
permit_all_bounded w ts le =
    let within = permit_all-Within w ts le in omega (arith, within.counts, within.in_allowance)

admit-ok :
    (w v : MetadataWindow) (m : MetadataWindow × Result PermitError ℕ)
    → admit m ≡ (v, ok tt)
    → (r : ℕ) × (m.1 ≡ ok r) × (m.0.observed < m.0.allowance)
admit-ok w v (u, err why) e = ground arith
admit-ok w v (u, ok r) e = (r, refl, ground arith)

fence_at-in_time :
    (w : MetadataWindow) (c : Context) (wall elapsed r : ℕ)
    → (fence_at w (some c) wall elapsed).1 ≡ ok r
    → (w.high_water ≤ wall)
      × (wall < w.wall_deadline)
      × (wall < w.expires_at)
      × (elapsed < w.deadline)
unfolding fence_at
fence_at-in_time w c wall elapsed r e = (ground arith, ground arith, ground arith, ground arith)

-- A window admits an attempt only at a wall reading that is not before its high-water one, before
-- both wall deadlines, at an elapsed reading before its deadline, and with some of the allowance
-- left.
pub permit_at_in_time :
    (w v : MetadataWindow) (c : Option Context) (kind : ApiCallKind) (wall elapsed : ℕ)
    → permit_at w c kind wall elapsed ≡ (v, ok tt)
    → (w.high_water ≤ wall)
      × (wall < w.wall_deadline)
      × (wall < w.expires_at)
      × (elapsed < w.deadline)
      × (w.observed < w.allowance)
unfolding permit_at
permit_at_in_time w v none kind wall elapsed e = ground arith
permit_at_in_time w v (some c) kind wall elapsed e =
    let asked : admit (fence_at w (some c) wall elapsed) ≡ (v, ok tt) = ground arith in
    let (r, er, room) = admit-ok w v (fence_at w (some c) wall elapsed) asked in
    let (ea, eo, eh) = fence_at-kept w (some c) wall elapsed in
    let (h, a, b, d) = fence_at-in_time w c wall elapsed r er in
    (h, a, b, d, omega (arith, ea, eo, room))
