-- ===== src/Permits/Spacing.antt =====
-- The spacing of admissions through a pacer (internal/worker/api_pacing.go).
use saga_rydd.Prelude.{
  ℕ, ◌+◌, ◌-◌, ◌*◌, ◌/◌, ◌%◌, ◌≤◌, ◌<◌, ◌≡◌, refl, sym, ap, ◌∙◌, subst, inl, inr, Option, some,
  List, [], ◌∷◌, arith, ◌==◌, Result, ok, err, Result-cases, Bool-cases,
}
use native.Mathlib.Nat.{
  div-add-mod', mod-lt, add-mul, mul-le-mul_left, mul-le-mul_right, mul_assoc, mul_comm,
}
use saga_rydd.Permits.Window.{
  Context, ApiCallKind, PermitError, MetadataWindow, permit_at, fence_at,
}
use saga_rydd.Permits.Pacer.{
  SourceApiPacer, Turn, admitted, second, spacing_of, delay_since, delay, fence, admitted_at,
  turn_after, permit_turn,
}
use saga_rydd.Permits.Bounds.{Attempt}

-- The pacer rounds its spacing up, so that its rate is never exceeded.
spacing_of-rate : (rate : ℕ) → 0 < rate → second ≤ spacing_of rate * rate
unfolding spacing_of
spacing_of-rate rate h =
    let q : ℕ = (second + rate - 1) / rate * rate in
    let whole : q + (second + rate - 1) % rate ≡ second + rate - 1 =
      div-add-mod' (second + rate - 1) rate in
    let small : (second + rate - 1) % rate < rate = mod-lt (second + rate - 1) h in
    omega (arith, whole, small)

abbrev pub one_if_admitted : Turn → ℕ
one_if_admitted admitted = 1
one_if_admitted _ = 0

-- A pacer that has moved on over `n` admissions, `spacing` apart or more on both clocks.
record Spaced (spacing : ℕ) (before : ℕ × ℕ) (after : Option (ℕ × ℕ)) (n : ℕ) : Type 0 where
  pub at_wall : ℕ
  pub at_elapsed : ℕ
  pub now_last : after ≡ some (at_wall, at_elapsed)
  pub wall_apart : before.0 + n * spacing ≤ at_wall
  pub elapsed_apart : before.1 + n * spacing ≤ at_elapsed

unmoved : (spacing : ℕ) (before : ℕ × ℕ) → Spaced spacing before (some before) 0
unmoved spacing before = record {
  at_wall = before.0;
  at_elapsed = before.1;
  now_last = refl;
  wall_apart = omega arith;
  elapsed_apart = omega arith;
}

delay_since-zero :
    (spacing : ℕ) (before : ℕ × ℕ) (wall elapsed : ℕ)
    → delay_since spacing (some before) wall elapsed ≡ 0
    → (before.0 + spacing ≤ wall) × (before.1 + spacing ≤ elapsed)
delay_since-zero spacing before wall elapsed e = (omega (arith, e), omega (arith, e))

admitted_at-Spaced :
    (p : SourceApiPacer) (m : MetadataWindow × Result PermitError (Unit {0})) (before : ℕ × ℕ)
    (wall elapsed : ℕ)
    → p.last ≡ some before
    → (before.0 + p.spacing ≤ wall) × (before.1 + p.spacing ≤ elapsed)
    → Spaced p.spacing before
        (admitted_at p m wall elapsed).0.last
        (one_if_admitted (admitted_at p m wall elapsed).2)
      × ((admitted_at p m wall elapsed).0.spacing ≡ p.spacing)
admitted_at-Spaced p (w, err why) before wall elapsed el apart =
    (rw el (unmoved p.spacing before), refl)
admitted_at-Spaced p (w, ok done) before wall elapsed el apart = (
  record {
    at_wall = wall;
    at_elapsed = elapsed;
    now_last = refl;
    wall_apart = omega (arith, apart);
    elapsed_apart = omega (arith, apart);
  },
  refl,
)

-- The wait of a fence is the one since the last admission.
fence-wait :
    (p : SourceApiPacer) (w : MetadataWindow) (c : Option Context) (wall elapsed remaining wait : ℕ)
    → (fence p w c wall elapsed).2 ≡ ok (remaining, wait)
    → wait ≡ delay_since p.spacing p.last wall elapsed
unfolding fence delay
fence-wait p w c wall elapsed remaining wait e = elim (Result-cases (fence_at w c wall elapsed).1) [
  | inr (y, ey) ↦ ground (arith, ey)
  | inl (r, er) ↦ ground (arith, er)
]

turn_after-Spaced :
    (p : SourceApiPacer) (m : SourceApiPacer × MetadataWindow × Result PermitError (ℕ × ℕ))
    (c : Option Context) (kind : ApiCallKind) (wall elapsed : ℕ) (before : ℕ × ℕ)
    → m.0.last ≡ some before
    → m.0.spacing ≡ p.spacing
    → ((remaining wait : ℕ)
        → m.2 ≡ ok (remaining, wait)
        → wait ≡ delay_since p.spacing (some before) wall elapsed)
    → Spaced p.spacing before
        (turn_after m c kind wall elapsed).0.last
        (one_if_admitted (turn_after m c kind wall elapsed).2)
      × ((turn_after m c kind wall elapsed).0.spacing ≡ p.spacing)
turn_after-Spaced p (q, w, err why) c kind wall elapsed before el es wt =
    (rw el (unmoved p.spacing before), es)
turn_after-Spaced p (q, w, ok (remaining, wait)) c kind wall elapsed before el es wt =
    elim (Bool-cases (wait == 0)) [
      | inr later ↦ rw later (rw el (unmoved p.spacing before), es)
      | inl now ↦
          let zero_wait : delay_since q.spacing (some before) wall elapsed ≡ 0 =
            rw es (sym (wt remaining wait refl) ∙ ground (arith, now)) in
          let (moved, kept) =
            admitted_at-Spaced q (permit_at w c kind wall elapsed) before wall elapsed el
              (delay_since-zero q.spacing before wall elapsed zero_wait) in
          rw now (
            subst
                (λ s.
                  Spaced s before
                    (admitted_at q (permit_at w c kind wall elapsed) wall elapsed).0.last
                    (one_if_admitted
                      (admitted_at q (permit_at w c kind wall elapsed) wall elapsed).2))
                es moved,
            kept ∙ es,
          )
    ]

fence-kept :
    (p : SourceApiPacer) (w : MetadataWindow) (c : Option Context) (wall elapsed : ℕ)
    → ((fence p w c wall elapsed).0.last ≡ p.last)
      × ((fence p w c wall elapsed).0.spacing ≡ p.spacing)
unfolding fence delay
fence-kept p w c wall elapsed = (refl, refl)

permit_turn-Spaced :
    (p : SourceApiPacer) (w : MetadataWindow) (c : Option Context) (kind : ApiCallKind)
    (wall elapsed : ℕ) (before : ℕ × ℕ)
    → p.last ≡ some before
    → Spaced p.spacing before
        (permit_turn p w c kind wall elapsed).0.last
        (one_if_admitted (permit_turn p w c kind wall elapsed).2)
      × ((permit_turn p w c kind wall elapsed).0.spacing ≡ p.spacing)
unfolding permit_turn
permit_turn-Spaced p w c kind wall elapsed before el =
    turn_after-Spaced p (fence p w c wall elapsed) c kind wall elapsed before
      ((fence-kept p w c wall elapsed).0 ∙ el) (fence-kept p w c wall elapsed).1
      (λ remaining wait e.
        fence-wait p w c wall elapsed remaining wait e
        ∙ ap (λ o. delay_since p.spacing o wall elapsed) el)

-- A pacer and a window after a sequence of turns, and the number of attempts that they admitted.
unfoldable pub turn_all : SourceApiPacer → MetadataWindow → List Attempt → SourceApiPacer × ℕ
turn_all p w [] = (p, 0)
turn_all p w (t ∷ ts) =
    let step : SourceApiPacer × MetadataWindow × Turn =
      permit_turn p w t.context t.kind t.wall t.elapsed in
    let rest : SourceApiPacer × ℕ = turn_all step.0 step.1 ts in
    (rest.0, one_if_admitted step.2 + rest.1)

Spaced-join :
    (spacing : ℕ) (before mid : ℕ × ℕ) (after : Option (ℕ × ℕ)) (n m : ℕ) {o : Option (ℕ × ℕ)}
    → o ≡ some mid
    → (first : Spaced spacing before o n) → first.at_wall ≡ mid.0
    → first.at_elapsed ≡ mid.1
    → Spaced spacing mid after m
    → Spaced spacing before after (n + m)
Spaced-join spacing before mid after n m eo first ew ee rest =
    let sum : (n + m) * spacing ≡ n * spacing + m * spacing = add-mul n m spacing in
    record {
      at_wall = rest.at_wall;
      at_elapsed = rest.at_elapsed;
      now_last = rest.now_last;
      wall_apart = omega (arith, sum, ew, first.wall_apart, rest.wall_apart);
      elapsed_apart = omega (arith, sum, ee, first.elapsed_apart, rest.elapsed_apart);
    }

-- `n` gaps of `spacing` take as long as the rate asks.
rate_bound :
    (n spacing rate gap : ℕ) → second ≤ spacing * rate → n * spacing ≤ gap → n * second ≤ rate * gap
rate_bound n spacing rate gap rated apart =
    let up : n * second ≤ n * (spacing * rate) = mul-le-mul_left n rated in
    let over : n * spacing * rate ≤ gap * rate = mul-le-mul_right rate apart in
    let same : n * spacing * rate ≡ n * (spacing * rate) = mul_assoc n spacing rate in
    let turned : gap * rate ≡ rate * gap = mul_comm gap rate in
    omega (arith, up, over, same, turned)

turn_all-Spaced :
    (p : SourceApiPacer) (w : MetadataWindow) (ts : List Attempt) (before : ℕ × ℕ)
    → p.last ≡ some before
    → Spaced p.spacing before (turn_all p w ts).0.last (turn_all p w ts).1
unfolding turn_all
turn_all-Spaced p w [] before el = rw el (unmoved p.spacing before)
turn_all-Spaced p w (t ∷ ts) before el =
    let step = permit_turn p w t.context t.kind t.wall t.elapsed in
    let (first, kept) = permit_turn-Spaced p w t.context t.kind t.wall t.elapsed before el in
    let rest = turn_all-Spaced step.0 step.1 ts (first.at_wall, first.at_elapsed) first.now_last in
    Spaced-join p.spacing before (first.at_wall, first.at_elapsed)
      (turn_all step.0 step.1 ts).0.last (one_if_admitted step.2) (turn_all step.0 step.1 ts).1
      first.now_last first refl refl
      (subst
        (λ s.
          Spaced s (first.at_wall, first.at_elapsed) (turn_all step.0 step.1 ts).0.last
            (turn_all step.0 step.1 ts).1)
        kept rest)

-- Over any turns of the permit loop, with any clock readings, a pacer of a positive rate that
-- starts from one admission admits n attempts only if at least n / rate seconds pass on each clock
-- between that admission and the last.
pub turn_all_spaced :
    (p : SourceApiPacer) (w : MetadataWindow) (ts : List Attempt) (wall elapsed wall' elapsed' : ℕ)
    → p.last ≡ some (wall, elapsed)
    → 0 < p.rate
    → p.spacing ≡ spacing_of p.rate
    → (turn_all p w ts).0.last ≡ some (wall', elapsed')
    → ((turn_all p w ts).1 * second ≤ p.rate * (wall' - wall))
      × ((turn_all p w ts).1 * second ≤ p.rate * (elapsed' - elapsed))
turn_all_spaced p w ts wall elapsed wall' elapsed' el positive es ends =
    let spaced = turn_all-Spaced p w ts (wall, elapsed) el in
    let n = (turn_all p w ts).1 in
    let rated = subst (λ s. second ≤ s * p.rate) (sym es) (spacing_of-rate p.rate positive) in
    let same : some (spaced.at_wall, spaced.at_elapsed) ≡ some (wall', elapsed') =
      sym spaced.now_last ∙ ends in
    let same_wall : spaced.at_wall ≡ wall' = cc in
    let same_elapsed : spaced.at_elapsed ≡ elapsed' = cc in
    (
      rate_bound n p.spacing p.rate (wall' - wall) rated
          (omega (arith, spaced.wall_apart, same_wall)),
      rate_bound n p.spacing p.rate (elapsed' - elapsed) rated
          (omega (arith, spaced.elapsed_apart, same_elapsed)),
    )
