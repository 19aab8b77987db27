-- ===== src/Metadata/Settle.antt =====
-- The rows that SettleMetadata writes (internal/state/metadata_budget.go).
use saga_rydd.Prelude.{ℕ, ◌+◌, ◌≤◌, ◌≡◌, refl, true, Option, none, some, arith, subst}
use saga_rydd.Metadata.Types.{
  MetadataScope, startup, next, other_scope, reserved, settled, MetadataRecord, BudgetRow,
  MetadataDb,
}
use saga_rydd.Metadata.Operations.{save_record}
use saga_rydd.Metadata.Operations.{record_of, later, charge_observed}
use saga_rydd.Metadata.Sound.{
  outstanding, observed_of, unknown_of, on_day, record_fits, Balanced, state_of, Readable,
}
use saga_rydd.Metadata.Balance.{
  DatesFit, valid-DatesFit, Balanced-valid, Balanced-swap, day_of_mono,
}

-- The budget row after a settlement.
abbrev pub noted : BudgetRow → ℕ → ℕ → BudgetRow
noted b now seen = record b {
  high_water = later now b.high_water;
  daily_observed = b.daily_observed + seen;
  total_observed = b.total_observed + seen;
}

abbrev pub settled_record : MetadataRecord → ℕ → MetadataRecord
settled_record r seen = record r { status = settled; observed = some seen }

settled-fits :
    (b : BudgetRow) (now seen : ℕ) (key : MetadataScope) (r : MetadataRecord)
    → record_fits b key (some r) ≡ true
    → seen ≤ r.terms.allowance
    → record_fits (noted b now seen) key (some (settled_record r seen)) ≡ true
unfolding record_fits
settled-fits b now seen key r f h = ground arith

other-fits :
    (b : BudgetRow) (now seen : ℕ) (key : MetadataScope) (o : Option MetadataRecord)
    → record_fits b key o ≡ true
    → record_fits (noted b now seen) key o ≡ true
unfolding record_fits
other-fits b now seen key none f = refl
other-fits b now seen key (some r) f = ground arith

reserved-day :
    (b : BudgetRow) (key : MetadataScope) (r : MetadataRecord)
    → record_fits b key (some r) ≡ true
    → r.status ≡ reserved
    → r.terms.day ≡ b.day
unfolding record_fits
reserved-day b key r f h = ground arith

settled-Balanced :
    (b : BudgetRow) (now seen : ℕ) (r : MetadataRecord) (s : Option MetadataRecord)
    → r.status ≡ reserved
    → r.terms.day ≡ b.day
    → seen ≤ r.terms.allowance
    → Balanced b (some r) s
    → Balanced (noted b now seen) (some (settled_record r seen)) s
settled-Balanced b now seen r s st d le c =
    let o : outstanding (some r) ≡ r.terms.allowance = ground arith in
    let v : observed_of (some r) ≡ 0 = ground arith in
    let u : unknown_of (some r) ≡ 0 = ground arith in
    let v' : on_day b.day (some r) (observed_of (some r)) ≡ 0 = ground arith in
    let u' : on_day b.day (some r) (unknown_of (some r)) ≡ 0 = ground arith in
    let w : on_day b.day (some (settled_record r seen)) seen ≡ seen = ground arith in
    let z : on_day b.day (some (settled_record r seen)) 0 ≡ 0 = ground arith in
    record {
      daily_parts = omega (arith, c.daily_parts);
      total_parts = omega (arith, c.total_parts);
      daily_reserved_kept = c.daily_reserved_kept;
      daily_observed_kept = omega (arith, c.daily_observed_kept);
      daily_unknown_kept = omega (arith, c.daily_unknown_kept);
      total_reserved_kept = c.total_reserved_kept;
      total_observed_kept = omega (arith, c.total_observed_kept);
      total_unknown_kept = omega (arith, c.total_unknown_kept);
      unused = omega (arith, c.unused);
    }

noted-DatesFit : (b : BudgetRow) (now seen : ℕ) → DatesFit b → DatesFit (noted b now seen)
noted-DatesFit b now seen d =
    let h : b.high_water ≤ later now b.high_water = ground arith in
    record {
      started_positive = d.started_positive;
      started_first = omega (arith, d.started_first);
      day_first = d.day_first;
      day_last = omega (arith, d.day_last, day_of_mono b.high_water (later now b.high_water) h);
      reserved_within = d.reserved_within;
      observed_within = omega (arith, d.observed_within);
      unknown_within = d.unknown_within;
    }

pub settled-Readable :
    (db : MetadataDb) (b : BudgetRow) (scope : MetadataScope) (r : MetadataRecord) (seen now : ℕ)
    → Readable db b
    → record_of db scope ≡ some r
    → r.status ≡ reserved
    → seen ≤ r.terms.allowance
    → Readable
        (save_record db
          (charge_observed (state_of b db.next_record db.startup_record) now seen)
          scope
          (settled_record r seen))
        (noted b now seen)
settled-Readable db b next r seen now k er st le =
    let f = subst (λ o. record_fits b next o ≡ true) er k.next_fits in
    let bal =
      settled-Balanced b now seen r db.startup_record st (reserved-day b next r f st) le
        (subst (λ o. Balanced b o db.startup_record) er k.balanced) in
    record {
      row = refl;
      row_valid =
          Balanced-valid (noted b now seen) (some (settled_record r seen)) db.startup_record
            (noted-DatesFit b now seen (valid-DatesFit b k.row_valid)) bal;
      next_fits = settled-fits b now seen next r f le;
      startup_fits = other-fits b now seen startup db.startup_record k.startup_fits;
      balanced = bal;
    }
settled-Readable db b startup r seen now k er st le =
    let f = subst (λ o. record_fits b startup o ≡ true) er k.startup_fits in
    let bal = Balanced-swap (noted b now seen) (some (settled_record r seen)) db.next_record (
      settled-Balanced b now seen r db.next_record st (reserved-day b startup r f st) le (
        Balanced-swap b db.next_record (some r)
          (subst (λ o. Balanced b db.next_record o) er k.balanced))) in
    record {
      row = refl;
      row_valid =
          Balanced-valid (noted b now seen) db.next_record (some (settled_record r seen))
            (noted-DatesFit b now seen (valid-DatesFit b k.row_valid)) bal;
      next_fits = other-fits b now seen next db.next_record k.next_fits;
      startup_fits = settled-fits b now seen startup r f le;
      balanced = bal;
    }
settled-Readable db b other_scope r seen now k er st le = elim (none≢some er) [ ]
  where
    none≢some : none ≡ some r → ⊥
    none≢some h = ground arith
