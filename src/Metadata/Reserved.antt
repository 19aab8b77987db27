-- ===== src/Metadata/Reserved.antt =====
-- ReserveMetadata (internal/state/metadata_budget.go) against the reader.
use saga_rydd.Prelude.{
  ℕ, ◌+◌, ◌≤◌, ◌<◌, ◌≡◌, refl, Bool, true, false, Option, none, some, List, ok, arith, ◌⊎◌, inl,
  inr, Option-cases, subst, ap, sym, ◌∙◌,
}
use saga_rydd.Clock.{day_of, metadata_digest}
use saga_rydd.Metadata.Types.{
  MetadataScope, startup, next, other_scope, MetadataRecord, MetadataReservation, BudgetRow,
  MetadataDb, MetadataState, no_charges,
}
use saga_rydd.Metadata.Read.{metadata_read, absent_state}
use saga_rydd.Metadata.Operations.{
  JobClaim, reserve_input_valid, blocks, charged_day, reserve_metadata,
}
use saga_rydd.Metadata.Sound.{
  record_fits, Balanced, state_of, Readable, read-Readable, Readable-read,
}
use saga_rydd.Metadata.Reserve.{
  EarlyEnough, Granted, reserved_record, reserved_db, reserve_metadata-Granted,
}
use saga_rydd.Metadata.Charged.{grown, reopened, opened, fits-later, new-fits}
use saga_rydd.Metadata.Balance.{
  free-outstanding, Balanced-swap, grown-Balanced, reopened-Balanced, opened-Balanced,
  valid-DatesFit, Balanced-valid, grown-DatesFit, reopened-DatesFit, opened-DatesFit, valid-day,
}

input-known : (job : Option JobClaim) (a l : ℕ) → reserve_input_valid other_scope job a l ≡ true → ⊥
unfolding reserve_input_valid
input-known none a l h = ground arith
input-known (some j) a l h = ground arith

none-fits : (b : BudgetRow) (key : MetadataScope) → record_fits b key none ≡ true
unfolding record_fits
none-fits b key = refl

module _ (db : MetadataDb) (nonce : List ℕ) (now : ℕ) (job : Option JobClaim) (a limit x : ℕ)
    (saved : MetadataState) (early : EarlyEnough now)
    (digest : metadata_digest nonce 64 ≡ true) where
  rec_at : ℕ → MetadataRecord
  rec_at day = reserved_record nonce job day a now x

  same-Readable :
      (scope : MetadataScope) (b : BudgetRow)
      → Granted db now scope job a limit saved x
      → Readable db b
      → b.high_water ≤ now
      → b.day ≡ day_of now
      → Readable
          (reserved_db db (state_of b db.next_record db.startup_record) scope nonce job a now x)
          (grown b now a)
  same-Readable next b g k h d =
      let c = k.balanced in
      let dates = valid-DatesFit b k.row_valid in
      let bal =
        grown-Balanced b db.next_record db.startup_record now a
          (reserved_record nonce job b.day a now x) c
          (free-outstanding (day_of now) next db.next_record g.next_free) refl refl refl in
      record {
        row = refl;
        row_valid =
            Balanced-valid (grown b now a) (some (reserved_record nonce job b.day a now x))
              db.startup_record (grown-DatesFit b now a dates h d) bal;
        next_fits =
            subst
              (λ day.
                record_fits (grown b now a) next (some (reserved_record nonce job day a now x))
                ≡ true)
              (sym d)
              (new-fits (grown b now a) db saved nonce now next job a limit x early digest g
                (omega (arith, dates.started_first)) refl d);
        startup_fits =
            fits-later b (grown b now a) next startup db.startup_record k.startup_fits (omega arith)
              h (omega arith)
              (subst (λ day. blocks next day startup db.startup_record ≡ false) (sym d)
                g.startup_free);
        balanced = bal;
      }
  same-Readable startup b g k h d =
      let dates = valid-DatesFit b k.row_valid in
      let new = reserved_record nonce job b.day a now x in
      let bal =
        Balanced-swap (grown b now a) (some (reserved_record nonce job b.day a now x))
          db.next_record
          (grown-Balanced b db.startup_record db.next_record now a
            (reserved_record nonce job b.day a now x)
            (Balanced-swap b db.next_record db.startup_record k.balanced)
            (free-outstanding (day_of now) startup db.startup_record g.startup_free) refl refl
            refl) in
      record {
        row = refl;
        row_valid =
            Balanced-valid (grown b now a) db.next_record
              (some (reserved_record nonce job b.day a now x)) (grown-DatesFit b now a dates h d)
              bal;
        startup_fits =
            subst
              (λ day.
                record_fits (grown b now a) startup (some (reserved_record nonce job day a now x))
                ≡ true)
              (sym d)
              (new-fits (grown b now a) db saved nonce now startup job a limit x early digest g
                (omega (arith, dates.started_first)) refl d);
        next_fits =
            fits-later b (grown b now a) startup next db.next_record k.next_fits (omega arith) h
              (omega arith)
              (subst (λ day. blocks startup day next db.next_record ≡ false) (sym d) g.next_free);
        balanced = bal;
      }
  same-Readable other_scope b g k h d = elim (input-known job a limit g.input) [ ]

  abbrev reopening : MetadataState → MetadataState
  reopening s = record s { day = day_of now; daily = no_charges }

  later-Readable :
      (scope : MetadataScope) (b : BudgetRow)
      → Granted db now scope job a limit saved x
      → Readable db b
      → b.high_water ≤ now
      → b.day < day_of now
      → Readable
          (reserved_db db
            (record (state_of b db.next_record db.startup_record) {
              day = day_of now;
              daily = no_charges;
            })
            scope
            nonce
            job
            a
            now
            x)
          (reopened b now a)
  later-Readable next b g k h d =
      let dates = valid-DatesFit b k.row_valid in
      let new = reserved_record nonce job (day_of now) a now x in
      let bal =
        reopened-Balanced b next next startup db.next_record db.startup_record now a
          (reserved_record nonce job (day_of now) a now x) k.balanced k.startup_fits d
          g.startup_free (free-outstanding (day_of now) next db.next_record g.next_free) refl refl
          refl in
      record {
        row = refl;
        row_valid =
            Balanced-valid (reopened b now a)
              (some (reserved_record nonce job (day_of now) a now x)) db.startup_record
              (reopened-DatesFit b now a dates h) bal;
        next_fits =
            new-fits (reopened b now a) db saved nonce now next job a limit x early digest g
              (omega (arith, dates.started_first)) refl refl;
        startup_fits =
            fits-later b (reopened b now a) next startup db.startup_record k.startup_fits
              (omega arith) h (omega arith) g.startup_free;
        balanced = bal;
      }
  later-Readable startup b g k h d =
      let dates = valid-DatesFit b k.row_valid in
      let bal =
        Balanced-swap (reopened b now a) (some (reserved_record nonce job (day_of now) a now x))
          db.next_record
          (reopened-Balanced b startup startup next db.startup_record db.next_record now a
            (reserved_record nonce job (day_of now) a now x)
            (Balanced-swap b db.next_record db.startup_record k.balanced) k.next_fits d g.next_free
            (free-outstanding (day_of now) startup db.startup_record g.startup_free) refl refl
            refl) in
      record {
        row = refl;
        row_valid =
            Balanced-valid (reopened b now a) db.next_record
              (some (reserved_record nonce job (day_of now) a now x))
              (reopened-DatesFit b now a dates h) bal;
        startup_fits =
            new-fits (reopened b now a) db saved nonce now startup job a limit x early digest g
              (omega (arith, dates.started_first)) refl refl;
        next_fits =
            fits-later b (reopened b now a) startup next db.next_record k.next_fits (omega arith) h
              (omega arith) g.next_free;
        balanced = bal;
      }
  later-Readable other_scope b g k h d = elim (input-known job a limit g.input) [ ]

  -- The first reservation of a ledger without rows.
  first-Readable :
      (scope : MetadataScope)
      → Granted db now scope job a limit saved x
      → db.next_record ≡ none
      → db.startup_record ≡ none
      → Readable
          (reserved_db db
            (record absent_state { present = true; started = now; day = day_of now })
            scope
            nonce
            job
            a
            now
            x)
          (opened now a)
  first-Readable next g n s =
      let bal =
        opened-Balanced now a (reserved_record nonce job (day_of now) a now x) refl refl refl in
      record {
        row = refl;
        row_valid =
            Balanced-valid (opened now a) (some (reserved_record nonce job (day_of now) a now x))
              none (opened-DatesFit now a g.positive) bal;
        next_fits =
            new-fits (opened now a) db saved nonce now next job a limit x early digest g
              (omega arith) refl refl;
        startup_fits =
            subst (λ o. record_fits (opened now a) startup o ≡ true) (sym s)
              (none-fits (opened now a) startup);
        balanced =
            subst
              (λ o.
                Balanced (opened now a) (some (reserved_record nonce job (day_of now) a now x)) o)
              (sym s) bal;
      }
  first-Readable startup g n s =
      let bal =
        Balanced-swap (opened now a) (some (reserved_record nonce job (day_of now) a now x)) none
          (opened-Balanced now a (reserved_record nonce job (day_of now) a now x) refl refl refl) in
      record {
        row = refl;
        row_valid =
            Balanced-valid (opened now a) none
              (some (reserved_record nonce job (day_of now) a now x))
              (opened-DatesFit now a g.positive) bal;
        startup_fits =
            new-fits (opened now a) db saved nonce now startup job a limit x early digest g
              (omega arith) refl refl;
        next_fits =
            subst (λ o. record_fits (opened now a) next o ≡ true) (sym n)
              (none-fits (opened now a) next);
        balanced =
            subst
              (λ o.
                Balanced (opened now a) o (some (reserved_record nonce job (day_of now) a now x)))
              (sym n) bal;
      }
  first-Readable other_scope g n s = elim (input-known job a limit g.input) [ ]

none-ledger :
    (db : MetadataDb) (saved : MetadataState)
    → db.budget ≡ none
    → metadata_read db ≡ ok saved
    → (saved ≡ absent_state) × (db.next_record ≡ none) × (db.startup_record ≡ none)
unfolding metadata_read
none-ledger db saved e r = ground arith

-- The charges of the day that a reservation is made on, by what the ledger holds.
charged-absent :
    (now : ℕ)
    → charged_day absent_state now
      ≡ record absent_state { present = true; started = now; day = day_of now }
unfolding charged_day
charged-absent now = refl

charged-same :
    (s : MetadataState) (now : ℕ) → s.present ≡ true → s.day ≡ day_of now → charged_day s now ≡ s
unfolding charged_day
charged-same s now p d = ground arith

charged-later :
    (s : MetadataState) (now : ℕ)
    → s.present ≡ true
    → s.day < day_of now
    → charged_day s now ≡ record s { day = day_of now; daily = no_charges }
unfolding charged_day
charged-later s now p d = ground arith

-- The ledger that the reservation of `s` writes is accepted, with the counters that it charged.
abbrev Accepted : MetadataDb → MetadataState → ℕ → Type 0
Accepted db' s a =
    (st : MetadataState) × (metadata_read db' ≡ ok st)
    × (st.daily.reserved_attempts ≡ s.daily.reserved_attempts + a)
    × (st.total.reserved_attempts ≡ s.total.reserved_attempts + a)

lt-or-eq : (a b : ℕ) → a ≤ b → (a < b) ⊎ (a ≡ b)
lt-or-eq a b h = ground arith

charged-total : (s : MetadataState) (now : ℕ) → (charged_day s now).total ≡ s.total
unfolding charged_day
charged-total s now = ground arith

Readable-Accepted :
    (db' : MetadataDb) (b : BudgetRow) (s : MetadataState) (a : ℕ)
    → Readable db' b
    → b.daily_reserved ≡ s.daily.reserved_attempts + a
    → b.total_reserved ≡ s.total.reserved_attempts + a
    → Accepted db' s a
Readable-Accepted db' b s a k d t =
    (state_of b db'.next_record db'.startup_record, Readable-read db' b k, d, t)

-- What the three cases above come to, for the state that was charged.
reserved-Accepted :
    (db : MetadataDb) (nonce : List ℕ) (now : ℕ) (scope : MetadataScope) (job : Option JobClaim)
    (a limit x : ℕ) (saved : MetadataState)
    → EarlyEnough now
    → metadata_digest nonce 64 ≡ true
    → Granted db now scope job a limit saved x
    → Accepted
        (reserved_db db (charged_day saved now) scope nonce job a now x)
        (charged_day saved now)
        a
reserved-Accepted db nonce now scope job a limit x saved early dig g =
    elim (Option-cases db.budget) [
      | inl eb ↦
          let (es, en, eu) = none-ledger db saved eb g.read in
          subst (λ s. Accepted (reserved_db db s scope nonce job a now x) s a)
            (sym (ap (λ st. charged_day st now) es ∙ charged-absent now))
            (Readable-Accepted
              (reserved_db db
                (record absent_state { present = true; started = now; day = day_of now }) scope
                nonce job a now x)
              (opened now a)
              (record absent_state { present = true; started = now; day = day_of now }) a
              (first-Readable db nonce now job a limit x saved early dig scope g en eu) refl refl)
      | inr (b, eb) ↦
          let (k, es) = read-Readable db b saved eb g.read in
          let h : b.high_water ≤ now =
            subst (λ s. s.high_water ≤ now) es (g.no_rollback (ap (λ s. s.present) es)) in
          let (_, d) = valid-day b now k.row_valid h in
          elim (lt-or-eq b.day (day_of now) d) [
            | inl later ↦
                subst (λ s. Accepted (reserved_db db s scope nonce job a now x) s a)
                  (sym (
                    ap (λ s. charged_day s now) es
                    ∙ charged-later (state_of b db.next_record db.startup_record) now refl later))
                  (Readable-Accepted
                    (reserved_db db
                      (record (state_of b db.next_record db.startup_record) {
                        day = day_of now;
                        daily = no_charges;
                      })
                      scope nonce job a now x)
                    (reopened b now a)
                    (record (state_of b db.next_record db.startup_record) {
                      day = day_of now;
                      daily = no_charges;
                    })
                    a
                    (later-Readable db nonce now job a limit x saved early dig scope b g k h later)
                    refl refl)
            | inr same ↦
                subst (λ s. Accepted (reserved_db db s scope nonce job a now x) s a)
                  (sym (
                    ap (λ s. charged_day s now) es
                    ∙ charged-same (state_of b db.next_record db.startup_record) now refl same))
                  (Readable-Accepted
                    (reserved_db db (state_of b db.next_record db.startup_record) scope nonce job a
                      now x)
                    (grown b now a) (state_of b db.next_record db.startup_record) a
                    (same-Readable db nonce now job a limit x saved early dig scope b g k h same)
                    refl refl)
          ]
    ]

-- A successful ReserveMetadata, at least one full day before the last representable midnight and with
-- a nonce of 64 hexadecimal digits, leaves a ledger that the reader accepts; its total is the former
-- total plus the whole allowance, and its day's charges stay within the daily limit of the call.
pub reserve_metadata_readable :
    (readonly : Bool) (db db' : MetadataDb) (nonce : List ℕ) (now : ℕ) (scope : MetadataScope)
    (job : Option JobClaim) (allowance limit : ℕ) (res : MetadataReservation)
    → EarlyEnough now
    → metadata_digest nonce 64 ≡ true
    → reserve_metadata readonly db nonce now scope job allowance limit ≡ ok (db', res)
    → (saved : MetadataState) × (after : MetadataState) × (metadata_read db ≡ ok saved)
      × (metadata_read db' ≡ ok after)
      × (after.total.reserved_attempts ≡ saved.total.reserved_attempts + allowance)
      × (after.daily.reserved_attempts ≤ limit)
reserve_metadata_readable readonly db db' nonce now scope job a limit res early dig e =
    let (saved, x, g, edb, _) =
      reserve_metadata-Granted readonly db nonce now scope job a limit db' res e in
    let quota = g.quota in
    let (after, r, d, t) = reserved-Accepted db nonce now scope job a limit x saved early dig g in
    (
      saved,
      after,
      g.read,
      subst (λ l. metadata_read l ≡ ok after) (sym edb) r,
      t ∙ ap (λ c. c.reserved_attempts + a) (charged-total saved now),
      omega arith,
    )
