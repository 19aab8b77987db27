-- ===== src/Dispatch/Cadence.antt =====
-- Sequences of calls of ReserveScanChunk (internal/state/dispatch.go).
use saga_rydd.Prelude.{
  ℕ, suc, ◌+◌, ◌≤◌, ◌≡◌, refl, false, Option, none, some, List, [], ◌∷◌, arith, ◌⊎◌, inl, inr,
  Result, ok, err, ltb, ◌==◌, if◌then◌else◌,
}
use saga_rydd.Prelude.Int.{max_int64}
use saga_rydd.Int64.{to_int64-small}
use saga_rydd.Clock.{day_of}
use saga_rydd.Dispatch.{DispatchRow, DispatchBudget, reserve_scan_chunk}

-- A granted reservation is followed by a pause: of two reservations, each made on what the one before
-- saved, the second is granted no earlier than the first one's start plus its interval, provided that
-- this sum is an int64 count of nanoseconds.
pub reserve_scan_chunk_spacing :
    (saved : Option DispatchRow) (now interval limit later interval' limit' : ℕ)
    {row row' : DispatchRow} {b b' : DispatchBudget}
    → now + interval ≤ max_int64
    → reserve_scan_chunk false saved now interval limit ≡ ok (row, b)
    → reserve_scan_chunk false (some row) later interval' limit' ≡ ok (row', b')
    → now + interval ≤ later
unfolding reserve_scan_chunk
reserve_scan_chunk_spacing saved now interval limit later interval' limit' fits p q =
    ground (arith, to_int64-small (now + interval) fits)

-- The calls of one store in turn, with one limit: the starts of those that are granted. A call that
-- is refused saves nothing.
unfoldable pub granted : ℕ → Option DispatchRow → List (ℕ × ℕ) → List ℕ
granted limit saved [] = []
granted limit saved ((now, interval) ∷ calls) =
    elim (reserve_scan_chunk false saved now interval limit) [
      | ok (row, b) ↦ now ∷ granted limit (some row) calls
      | err e ↦ granted limit saved calls
    ]

abbrev pub count_day : ℕ → List ℕ → ℕ
count_day day [] = 0
count_day day (now ∷ starts) =
    let rest = count_day day starts in if day_of now == day then suc rest else rest

-- What a saved row has used up of a day's limit; nothing is granted on an earlier day.
spent : ℕ → ℕ → Option DispatchRow → ℕ
spent limit day none = 0
spent limit day (some row) =
    if row.day == day then row.chunks else if ltb day row.day then limit else 0

abbrev Dated : Option DispatchRow → Type 0
Dated none = Unit
Dated (some row) = row.day ≡ day_of row.last_start_ns

day_of_mono : (a b : ℕ) → a ≤ b → day_of a ≤ day_of b
unfolding day_of
day_of_mono a b h = omega arith

reserve-Dated :
    (saved : Option DispatchRow) (now interval limit : ℕ) {row : DispatchRow} {b : DispatchBudget}
    → Dated saved
    → reserve_scan_chunk false saved now interval limit ≡ ok (row, b)
    → (row.day ≡ day_of row.last_start_ns) × (row.last_start_ns ≡ now)
unfolding reserve_scan_chunk
reserve-Dated none now interval limit d e = ground arith
reserve-Dated (some r) now interval limit d e = ground (arith, day_of_mono r.last_start_ns now)

reserve-spent :
    (saved : Option DispatchRow) (now interval limit day : ℕ) {row : DispatchRow}
    {b : DispatchBudget}
    → Dated saved
    → spent limit day saved ≤ limit
    → reserve_scan_chunk false saved now interval limit ≡ ok (row, b)
    → ((if day_of now == day then 1 else 0) + spent limit day saved ≤ spent limit day (some row))
      × (spent limit day (some row) ≤ limit)
unfolding reserve_scan_chunk spent
reserve-spent none now interval limit day d s e = ground arith
reserve-spent (some r) now interval limit day d s e =
    ground (arith, day_of_mono r.last_start_ns now)

-- split on the outcome of one call
Result-cases :
    {E A B : Type 0} (m : Result E (A × B))
    → ((a : A) × (b : B) × (m ≡ ok (a, b))) ⊎ ((e : E) × (m ≡ err e))
Result-cases (ok (a, b)) = inl (a, b, refl)
Result-cases (err e) = inr (e, refl)

granted-spent :
    (limit day : ℕ) (saved : Option DispatchRow) (calls : List (ℕ × ℕ))
    → Dated saved
    → spent limit day saved ≤ limit
    → count_day day (granted limit saved calls) + spent limit day saved ≤ limit
unfolding granted
granted-spent limit day saved [] d s = omega arith
granted-spent limit day saved ((now, interval) ∷ calls) d s =
    elim (Result-cases (reserve_scan_chunk false saved now interval limit)) [
      | inl (row, b, e) ↦
          let (dated, at) = reserve-Dated saved now interval limit d e in
          let (more, fits) = reserve-spent saved now interval limit day d s e in
          ground (arith, granted-spent limit day (some row) calls dated fits)
      | inr (x, e) ↦ ground (arith, granted-spent limit day saved calls d s)
    ]

-- However the calls follow one another and whatever the clock does, at most `limit` reservations are
-- granted on any one UTC day.
pub granted_daily_limit :
    (limit day : ℕ) (calls : List (ℕ × ℕ)) → count_day day (granted limit none calls) ≤ limit
granted_daily_limit limit day calls =
    omega (arith, granted-spent limit day none calls tt (unfold spent in omega arith))
