-- ===== src/Permits/Pacer.antt =====
-- sourceAPIPacer (internal/worker/api_pacing.go). One turn of the loop of `permit` is a step, for the
-- readings of both clocks that it takes; a wait is the time until the next turn. The lock that a
-- permit holds makes its turns follow each other. The diagnostics are not modelled.
use saga_rydd.Prelude.{
  ℕ, ◌+◌, ◌-◌, ◌/◌, max, Bool, false, not, ◌&&◌, ◌||◌, Option, none, some, leb, ltb, ◌==◌,
  if◌then◌else◌, Result, ok, err, ◌>>=◌, ◌>>◌, refuse_if,
}
use saga_rydd.Permits.Window.{
  Context, ApiCallKind, PermitError, window_rollback, pacing_input, MetadataWindow, allowance_limit,
  fence_at, permit_at,
}

pub record ApiPacingBounds : Type 0 where
  pub startup : ℕ
  pub minimum_next : ℕ
  pub maximum_next : ℕ
  pub final_validation : ℕ
  pub entry : ℕ

-- `last` is the admission before, the zero time as `none`; the high readings start at zero.
pub record SourceApiPacer : Type 0 where
  pub rate : ℕ
  pub work : ℕ
  pub spacing : ℕ
  pub entry_space : ℕ
  pub bounds : ApiPacingBounds
  pub last : Option (ℕ × ℕ)
  pub high_wall : ℕ
  pub high_elapsed : ℕ
  pub profile_blocked : Bool

-- time.Second
abbrev pub second : ℕ
second = 1000000000

-- The quotient that is rounded up; a rate of 0 has none.
unfoldable pub spacing_of : ℕ → ℕ
spacing_of rate = (second + rate - 1) / rate

abbrev pub count_valid : ℕ → Bool
count_valid n = leb 1 n && leb n allowance_limit

unfoldable pub bounds_valid : ApiPacingBounds → Bool
bounds_valid b =
    count_valid b.startup
    && count_valid b.minimum_next
    && count_valid b.final_validation
    && count_valid b.entry

-- `ok none` is a scanner without a pacer.
unfoldable pub new_source_api_pacer :
    ℕ → ℕ → ℕ → ApiPacingBounds → Result PermitError (Option SourceApiPacer)
unfolding bounds_valid spacing_of
new_source_api_pacer rate work entry_rate bounds = do
  refuse_if (ltb 100000 rate || (work == 0) || ltb entry_rate 1 || ltb 100000 entry_rate)
      pacing_input
  let paced = do
    refuse_if (not (bounds_valid bounds)) pacing_input
    let pacer : SourceApiPacer = record {
      rate = rate;
      work = work;
      spacing = spacing_of rate;
      entry_space = spacing_of entry_rate;
      bounds = bounds;
      last = none;
      high_wall = 0;
      high_elapsed = 0;
      profile_blocked = false;
    }
    ok (some pacer)
  if rate == 0 then ok none else paced

-- Whether half the work window holds the attempts that come next.
unfoldable pub capacity : SourceApiPacer → Bool → Bool
capacity p construction =
    not p.profile_blocked
    && leb ((if construction then p.bounds.startup else 0) + p.bounds.minimum_next)
        ((p.work / 2 - p.entry_space) / p.spacing)
    && leb p.entry_space (p.work / 2)

abbrev pub delay_since : ℕ → Option (ℕ × ℕ) → ℕ → ℕ → ℕ
delay_since spacing none wall elapsed = 0
delay_since spacing (some (w, e)) wall elapsed = max (w + spacing - wall) (e + spacing - elapsed)

abbrev pub noted : SourceApiPacer → ℕ → ℕ → SourceApiPacer
noted p wall elapsed = record p {
  high_wall = max p.high_wall wall;
  high_elapsed = max p.high_elapsed elapsed;
}

unfoldable pub delay : SourceApiPacer → ℕ → ℕ → SourceApiPacer × Result PermitError ℕ
delay p wall elapsed = (
  noted p wall elapsed,
  if ltb wall p.high_wall || ltb elapsed p.high_elapsed
      then err window_rollback
      else ok (delay_since p.spacing p.last wall elapsed),
)

-- The window's error comes before the pacer's.
unfoldable pub fence :
    SourceApiPacer
    → MetadataWindow
    → Option Context
    → ℕ
    → ℕ
    → SourceApiPacer × MetadataWindow × Result PermitError (ℕ × ℕ)
unfolding delay
fence p w ctx wall elapsed =
    let paced : SourceApiPacer × Result PermitError ℕ = delay p wall elapsed in
    let left : MetadataWindow × Result PermitError ℕ = fence_at w ctx wall elapsed in
    (paced.0, left.0, (left.1 >>= λ remaining. paced.1 >>= λ wait. ok (remaining, wait)))

-- What a turn of the loop does: it fails, waits, or admits the attempt.
pub data Turn : Type 0 where
  failed : PermitError → Turn
  waits admitted : Turn

abbrev pub admitted_at :
    SourceApiPacer
    → MetadataWindow × Result PermitError (Unit {0})
    → ℕ
    → ℕ
    → SourceApiPacer × MetadataWindow × Turn
admitted_at p (w, err why) wall elapsed = (p, w, failed why)
admitted_at p (w, ok _) wall elapsed = (record p { last = some (wall, elapsed) }, w, admitted)

abbrev pub turn_after :
    SourceApiPacer × MetadataWindow × Result PermitError (ℕ × ℕ)
    → Option Context
    → ApiCallKind
    → ℕ
    → ℕ
    → SourceApiPacer × MetadataWindow × Turn
turn_after (p, w, err why) ctx kind wall elapsed = (p, w, failed why)
turn_after (p, w, ok (remaining, wait)) ctx kind wall elapsed =
    if wait == 0
    then admitted_at p (permit_at w ctx kind wall elapsed) wall elapsed
    else (p, w, waits)

unfoldable pub permit_turn :
    SourceApiPacer
    → MetadataWindow
    → Option Context
    → ApiCallKind
    → ℕ
    → ℕ
    → SourceApiPacer × MetadataWindow × Turn
unfolding fence
permit_turn p w ctx kind wall elapsed =
    turn_after (fence p w ctx wall elapsed) ctx kind wall elapsed

unfoldable pub entry_capacity :
    SourceApiPacer
    → MetadataWindow
    → Option Context
    → ℕ
    → ℕ
    → ℕ
    → SourceApiPacer × MetadataWindow × Result PermitError Bool
unfolding fence
entry_capacity p w ctx calls wall elapsed =
    let fenced : SourceApiPacer × MetadataWindow × Result PermitError (ℕ × ℕ) =
      fence p w ctx wall elapsed in
    (
      fenced.0,
      fenced.1,
      (fenced.2 >>= λ left.
          refuse_if (not (count_valid calls)) pacing_input
          >> ok (leb left.1 left.0 && leb calls ((left.0 - left.1) / p.spacing))),
    )
