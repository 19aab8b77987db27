-- ===== src/Metadata/Recover.antt =====
-- RecoverMetadataReservations (internal/state/metadata_budget.go) against the reader.
use saga_rydd.Prelude.{
  ℕ, ◌+◌, ◌≤◌, ◌≡◌, refl, Bool, true, Option, none, some, ok, arith, ◌⊎◌, inl, inr, Option-cases,
  subst, ap, sym, ◌∙◌,
}
use saga_rydd.Clock.{metadata_time}
use saga_rydd.Metadata.Types.{
  MetadataScope, startup, next, MetadataRecord, BudgetRow, MetadataDb, MetadataState,
}
use saga_rydd.Metadata.Read.{metadata_read, absent_state}
use saga_rydd.Metadata.Operations.{saved_row}
use saga_rydd.Metadata.Operations.{
  recover_metadata, recovered, lost, is_lost, later, charge_unknown,
}
use saga_rydd.Metadata.Sound.{
  held, outstanding, observed_of, unknown_of, on_day, record_fits, Balanced, state_of, Readable,
  read-Readable, Readable-read,
}
use saga_rydd.Metadata.Balance.{DatesFit, valid-DatesFit, Balanced-valid, day_of_mono}

abbrev given_up : BudgetRow → ℕ → ℕ → BudgetRow
given_up b now n = record b {
  high_water = later now b.high_water;
  daily_unknown = b.daily_unknown + n;
  total_unknown = b.total_unknown + n;
}

recovered-fits :
    (b : BudgetRow) (now n : ℕ) (key : MetadataScope) (o : Option MetadataRecord)
    → record_fits b key o ≡ true
    → record_fits (given_up b now n) key (recovered o) ≡ true
unfolding record_fits
recovered-fits b now n key none f = refl
recovered-fits b now n key (some r) f = ground arith

-- How the parts of a record change.
recovered-parts :
    (b : BudgetRow) (key : MetadataScope) (o : Option MetadataRecord)
    → record_fits b key o ≡ true
    → (outstanding (recovered o) ≡ 0)
      × (unknown_of (recovered o) ≡ unknown_of o + lost o)
      × (on_day b.day (recovered o) (unknown_of (recovered o))
          ≡ on_day b.day o (unknown_of o) + lost o)
      × (outstanding o ≡ lost o)
      × (is_lost (recovered o) ≡ 0)
unfolding record_fits
recovered-parts b key none f = (refl, refl, refl, refl, refl)
recovered-parts b key (some r) f =
    (ground arith, ground arith, ground arith, ground arith, ground arith)

recovered-same :
    (b : BudgetRow) (o : Option MetadataRecord)
    → (held (recovered o) ≡ held o)
      × (observed_of (recovered o) ≡ observed_of o)
      × (on_day b.day (recovered o) (held (recovered o)) ≡ on_day b.day o (held o))
      × (on_day b.day (recovered o) (observed_of (recovered o)) ≡ on_day b.day o (observed_of o))
recovered-same b none = (refl, refl, refl, refl)
recovered-same b (some r) = (ground arith, ground arith, ground arith, ground arith)

given_up-Balanced :
    (b : BudgetRow) (now : ℕ) (n s : Option MetadataRecord)
    → record_fits b next n ≡ true
    → record_fits b startup s ≡ true
    → Balanced b n s
    → Balanced (given_up b now (lost n + lost s)) (recovered n) (recovered s)
given_up-Balanced b now n s fn fs c =
    let (n1, n2, n3, n4, n0) = recovered-parts b next n fn in
    let (n5, n6, n7, n8) = recovered-same b n in
    let (s1, s2, s3, s4, s0) = recovered-parts b startup s fs in
    let (s5, s6, s7, s8) = recovered-same b s in
    record {
      daily_parts = omega (arith, c.daily_parts);
      total_parts = omega (arith, c.total_parts);
      daily_reserved_kept = omega (arith, c.daily_reserved_kept);
      daily_observed_kept = omega (arith, c.daily_observed_kept);
      daily_unknown_kept = omega (arith, c.daily_unknown_kept);
      total_reserved_kept = omega (arith, c.total_reserved_kept);
      total_observed_kept = omega (arith, c.total_observed_kept);
      total_unknown_kept = omega (arith, c.total_unknown_kept);
      unused = omega (arith, c.unused);
    }

later-le : (now high : ℕ) → high ≤ later now high
later-le now high = ground arith

given_up-DatesFit : (b : BudgetRow) (now n : ℕ) → DatesFit b → DatesFit (given_up b now n)
given_up-DatesFit b now n d =
    let h = later-le now b.high_water in
    record {
      started_positive = d.started_positive;
      started_first = omega (arith, d.started_first);
      day_first = d.day_first;
      day_last = omega (arith, d.day_last, day_of_mono b.high_water (later now b.high_water) h);
      reserved_within = d.reserved_within;
      observed_within = d.observed_within;
      unknown_within = omega (arith, d.unknown_within);
    }

abbrev recovered_db : MetadataDb → BudgetRow → ℕ → MetadataDb
recovered_db db b now = record db {
  budget = some (given_up b now (lost db.next_record + lost db.startup_record));
  next_record = recovered db.next_record;
  startup_record = recovered db.startup_record;
}

recovered-Readable :
    (db : MetadataDb) (b : BudgetRow) (now : ℕ)
    → Readable db b
    → Readable
        (recovered_db db b now)
        (given_up b now (lost db.next_record + lost db.startup_record))
recovered-Readable db b now k =
    let n = db.next_record in
    let s = db.startup_record in
    let bal = given_up-Balanced b now n s k.next_fits k.startup_fits k.balanced in
    record {
      row = refl;
      row_valid =
          Balanced-valid (given_up b now (lost n + lost s)) (recovered n) (recovered s)
            (given_up-DatesFit b now (lost n + lost s) (valid-DatesFit b k.row_valid)) bal;
      next_fits = recovered-fits b now (lost n + lost s) next n k.next_fits;
      startup_fits = recovered-fits b now (lost n + lost s) startup s k.startup_fits;
      balanced = bal;
    }

lost-0 : (o : Option MetadataRecord) → is_lost o ≡ 0 → outstanding o ≡ 0
lost-0 none h = refl
lost-0 (some r) h = ground arith

recover-cases :
    (readonly : Bool) (db db' : MetadataDb) (now count : ℕ) (saved : MetadataState)
    → metadata_read db ≡ ok saved
    → recover_metadata readonly db now ≡ ok (db', count)
    → ((db' ≡ db) × (is_lost db.next_record + is_lost db.startup_record ≡ 0))
      ⊎ (db' ≡ record db {
        budget =
            some
              (saved_row (charge_unknown saved now (lost db.next_record + lost db.startup_record)));
        next_record = recovered db.next_record;
        startup_record = recovered db.startup_record;
      })
unfolding recover_metadata
recover-cases readonly db db' now count saved r e = elim (Option-cases (metadata_time now)) [
  | inl bad ↦ ground arith
  | inr ((at, midnight), et) ↦ ground arith
]

recover-no-ledger :
    (readonly : Bool) (db db' : MetadataDb) (now count : ℕ) (saved : MetadataState)
    → db.budget ≡ none
    → metadata_read db ≡ ok saved
    → recover_metadata readonly db now ≡ ok (db', count)
    → (db' ≡ db) × (saved ≡ absent_state)
unfolding recover_metadata metadata_read
recover-no-ledger readonly db db' now count saved eb r e = elim (Option-cases (metadata_time now)) [
  | inl bad ↦ ground arith
  | inr ((at, midnight), et) ↦ ground arith
]

-- A successful RecoverMetadataReservations leaves a ledger that the reader accepts, without any
-- outstanding reservation: what was outstanding has become unknown, and the reserved and the observed
-- totals are what they were.
pub recover_metadata_settles :
    (readonly : Bool) (db db' : MetadataDb) (now count : ℕ) (saved : MetadataState)
    → metadata_read db ≡ ok saved
    → recover_metadata readonly db now ≡ ok (db', count)
    → (after : MetadataState) × (metadata_read db' ≡ ok after)
      × (after.total.outstanding_attempts ≡ 0)
      × (after.total.reserved_attempts ≡ saved.total.reserved_attempts)
      × (after.total.observed_attempts ≡ saved.total.observed_attempts)
      × (after.total.unknown_attempts
          ≡ saved.total.unknown_attempts + saved.total.outstanding_attempts)
recover_metadata_settles readonly db db' now count saved r e = elim (Option-cases db.budget) [
  | inl eb ↦
      let (ed, es) = recover-no-ledger readonly db db' now count saved eb r e in
      (
        saved,
        subst (λ d. metadata_read d ≡ ok saved) (sym ed) r,
        ground arith,
        refl,
        refl,
        ground arith,
      )
  | inr (b, eb) ↦
      let n = db.next_record in
      let s = db.startup_record in
      let (k, es) = read-Readable db b saved eb r in
      elim (recover-cases readonly db db' now count saved r e) [
        | inl (ed, z) ↦
            let zn = lost-0 n (omega arith) in
            let zs = lost-0 s (omega arith) in
            let t = ap (λ st. st.total.outstanding_attempts) es in
            (
              saved,
              subst (λ d. metadata_read d ≡ ok saved) (sym ed) r,
              omega arith,
              refl,
              refl,
              omega arith,
            )
        | inr ed ↦
            let (n1, n2, n3, n4, n0) = recovered-parts b next n k.next_fits in
            let (s1, s2, s3, s4, s0) = recovered-parts b startup s k.startup_fits in
            let ed' : db' ≡ recovered_db db b now =
              ed
              ∙ ap
                  (λ st. record db {
                    budget = some (saved_row (charge_unknown st now (lost n + lost s)));
                    next_record = recovered n;
                    startup_record = recovered s;
                  })
                  es in
            let t = ap (λ st. st.total.outstanding_attempts) es in
            let u = ap (λ st. st.total.unknown_attempts) es in
            let k' = recovered-Readable db b now k in
            (
              state_of (given_up b now (lost n + lost s)) (recovered n) (recovered s),
              subst
                  (λ d.
                    metadata_read d
                    ≡ ok (state_of (given_up b now (lost n + lost s)) (recovered n) (recovered s)))
                  (sym ed')
                  (Readable-read (recovered_db db b now) (given_up b now (lost n + lost s)) k'),
              omega arith,
              sym (ap (λ st. st.total.reserved_attempts) es),
              sym (ap (λ st. st.total.observed_attempts) es),
              omega arith,
            )
      ]
]
