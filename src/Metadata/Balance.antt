-- ===== src/Metadata/Balance.antt =====
-- The counters of the metadata ledger under a reservation (internal/state/metadata_budget.go).
use saga_rydd.Prelude.{ℕ, ◌≤◌, ◌<◌, ◌≡◌, refl, true, false, Option, none, some, arith}
use saga_rydd.Clock.{day_of}
use saga_rydd.Metadata.Types.{
  MetadataScope, startup, next, other_scope, reserved, MetadataRecord, BudgetRow,
  metadata_charges_valid,
}
use saga_rydd.Metadata.Read.{empty_tally, budget_valid}
use saga_rydd.Metadata.Operations.{blocks}
use saga_rydd.Metadata.Sound.{
  held, outstanding, observed_of, unknown_of, on_day, record_fits, Balanced, charges_valid-of,
}
use saga_rydd.Metadata.Charged.{grown, reopened, opened}

pub free-outstanding :
    (day : ℕ) (key : MetadataScope) (o : Option MetadataRecord)
    → blocks key day key o ≡ false
    → outstanding o ≡ 0
free-outstanding day startup none h = refl
free-outstanding day next none h = refl
free-outstanding day other_scope none h = refl
free-outstanding day startup (some r) h = ground arith
free-outstanding day next (some r) h = ground arith
free-outstanding day other_scope (some r) h = ground arith

-- On a later day than the ledger's an unblocked record is not outstanding, and counts for no day.
past-outstanding :
    (b : BudgetRow) (scope key : MetadataScope) (day : ℕ) (o : Option MetadataRecord)
    → record_fits b key o ≡ true
    → b.day < day
    → blocks scope day key o ≡ false
    → outstanding o ≡ 0
unfolding record_fits
past-outstanding b scope key day none f h k = refl
past-outstanding b scope key day (some r) f h k = ground arith

past-on_day :
    (b : BudgetRow) (key : MetadataScope) (day n : ℕ) (o : Option MetadataRecord)
    → record_fits b key o ≡ true
    → b.day < day
    → on_day day o n ≡ 0
unfolding record_fits
past-on_day b key day n none f h = refl
past-on_day b key day n (some r) f h = ground arith

-- The same with the slots in either order.
pub Balanced-swap : (b : BudgetRow) (n s : Option MetadataRecord) → Balanced b n s → Balanced b s n
Balanced-swap b n s c = record {
  daily_parts = omega (arith, c.daily_parts);
  total_parts = omega (arith, c.total_parts);
  daily_reserved_kept = omega (arith, c.daily_reserved_kept);
  daily_observed_kept = omega (arith, c.daily_observed_kept);
  daily_unknown_kept = omega (arith, c.daily_unknown_kept);
  total_reserved_kept = omega (arith, c.total_reserved_kept);
  total_observed_kept = omega (arith, c.total_observed_kept);
  total_unknown_kept = omega (arith, c.total_unknown_kept);
  unused = c.unused;
}

pub grown-Balanced :
    (b : BudgetRow) (n s : Option MetadataRecord) (now a : ℕ) (r : MetadataRecord)
    → Balanced b n s
    → outstanding n ≡ 0
    → r.status ≡ reserved
    → r.terms.allowance ≡ a
    → r.terms.day ≡ b.day
    → Balanced (grown b now a) (some r) s
grown-Balanced b n s now a r c z st al d =
    let o : outstanding (some r) ≡ a = ground arith in
    let u : unknown_of (some r) ≡ 0 = ground arith in
    let v : observed_of (some r) ≡ 0 = ground arith in
    let h : on_day b.day (some r) r.terms.allowance ≡ a = ground arith in
    let v' : on_day b.day (some r) (observed_of (some r)) ≡ 0 = ground arith in
    let u' : on_day b.day (some r) (unknown_of (some r)) ≡ 0 = ground arith in
    record {
      daily_parts = omega (arith, c.daily_parts);
      total_parts = omega (arith, c.total_parts);
      daily_reserved_kept = omega (arith, c.daily_reserved_kept);
      daily_observed_kept = omega (arith, c.daily_observed_kept);
      daily_unknown_kept = omega (arith, c.daily_unknown_kept);
      total_reserved_kept = omega (arith, c.total_reserved_kept);
      total_observed_kept = omega (arith, c.total_observed_kept);
      total_unknown_kept = omega (arith, c.total_unknown_kept);
      unused = omega (arith, c.unused);
    }

pub reopened-Balanced :
    (b : BudgetRow) (scope key other : MetadataScope) (n s : Option MetadataRecord) (now a : ℕ)
    (r : MetadataRecord)
    → Balanced b n s
    → record_fits b other s ≡ true
    → b.day < day_of now
    → blocks scope (day_of now) other s ≡ false
    → outstanding n ≡ 0
    → r.status ≡ reserved
    → r.terms.allowance ≡ a
    → r.terms.day ≡ day_of now
    → Balanced (reopened b now a) (some r) s
reopened-Balanced b scope key other n s now a r c fs later free z st al d =
    let o : outstanding (some r) ≡ a = ground arith in
    let u : unknown_of (some r) ≡ 0 = ground arith in
    let v : observed_of (some r) ≡ 0 = ground arith in
    let h : on_day (day_of now) (some r) r.terms.allowance ≡ a = ground arith in
    let v' : on_day (day_of now) (some r) (observed_of (some r)) ≡ 0 = ground arith in
    let u' : on_day (day_of now) (some r) (unknown_of (some r)) ≡ 0 = ground arith in
    let so = past-outstanding b scope other (day_of now) s fs later free in
    let s1 = past-on_day b other (day_of now) (held s) s fs later in
    let s2 = past-on_day b other (day_of now) (observed_of s) s fs later in
    let s3 = past-on_day b other (day_of now) (unknown_of s) s fs later in
    record {
      daily_parts = omega arith;
      total_parts = omega (arith, c.total_parts);
      daily_reserved_kept = omega arith;
      daily_observed_kept = omega arith;
      daily_unknown_kept = omega arith;
      total_reserved_kept = omega (arith, c.total_reserved_kept);
      total_observed_kept = omega (arith, c.total_observed_kept);
      total_unknown_kept = omega (arith, c.total_unknown_kept);
      unused = omega (arith, c.total_parts);
    }

pub opened-Balanced :
    (now a : ℕ) (r : MetadataRecord)
    → r.status ≡ reserved
    → r.terms.allowance ≡ a
    → r.terms.day ≡ day_of now
    → Balanced (opened now a) (some r) none
opened-Balanced now a r st al d =
    let o : outstanding (some r) ≡ a = ground arith in
    let u : unknown_of (some r) ≡ 0 = ground arith in
    let v : observed_of (some r) ≡ 0 = ground arith in
    let h : on_day (day_of now) (some r) r.terms.allowance ≡ a = ground arith in
    let v' : on_day (day_of now) (some r) (observed_of (some r)) ≡ 0 = ground arith in
    let u' : on_day (day_of now) (some r) (unknown_of (some r)) ≡ 0 = ground arith in
    record {
      daily_parts = omega arith;
      total_parts = omega arith;
      daily_reserved_kept = omega arith;
      daily_observed_kept = omega arith;
      daily_unknown_kept = omega arith;
      total_reserved_kept = omega arith;
      total_observed_kept = omega arith;
      total_unknown_kept = omega arith;
      unused = omega arith;
    }

-- The tests of the budget row itself, of a balanced ledger.
pub record DatesFit (b : BudgetRow) : Type 0 where
  pub started_positive : 0 < b.started
  pub started_first : b.started ≤ b.high_water
  pub day_first : day_of b.started ≤ b.day
  pub day_last : b.day ≤ day_of b.high_water
  pub reserved_within : b.daily_reserved ≤ b.total_reserved
  pub observed_within : b.daily_observed ≤ b.total_observed
  pub unknown_within : b.daily_unknown ≤ b.total_unknown

pub valid-DatesFit : (b : BudgetRow) → budget_valid b ≡ true → DatesFit b
unfolding budget_valid
valid-DatesFit b v = record {
  started_positive = ground arith;
  started_first = ground arith;
  day_first = ground arith;
  day_last = ground arith;
  reserved_within = ground arith;
  observed_within = ground arith;
  unknown_within = ground arith;
}

dates-valid :
    (b : BudgetRow)
    → DatesFit b
    → metadata_charges_valid (empty_tally b).daily ≡ true
    → metadata_charges_valid (empty_tally b).total ≡ true
    → budget_valid b ≡ true
unfolding budget_valid
dates-valid b d v w =
    let h1 = d.started_positive in
    let h2 = d.started_first in
    let h3 = d.day_first in
    let h4 = d.day_last in
    let h5 = d.reserved_within in
    let h6 = d.observed_within in let h7 = d.unknown_within in ground arith

pub Balanced-valid :
    (b : BudgetRow) (n s : Option MetadataRecord)
    → DatesFit b
    → Balanced b n s
    → budget_valid b ≡ true
Balanced-valid b n s d c =
    dates-valid b d (charges_valid-of (empty_tally b).daily (omega (arith, c.daily_parts)))
      (charges_valid-of (empty_tally b).total (omega (arith, c.total_parts)))

pub day_of_mono : (a b : ℕ) → a ≤ b → day_of a ≤ day_of b
unfolding day_of
day_of_mono a b h = omega arith

pub grown-DatesFit :
    (b : BudgetRow) (now a : ℕ)
    → DatesFit b
    → b.high_water ≤ now
    → b.day ≡ day_of now
    → DatesFit (grown b now a)
grown-DatesFit b now a d h e = record {
  started_positive = d.started_positive;
  started_first = omega (arith, d.started_first);
  day_first = d.day_first;
  day_last = omega arith;
  reserved_within = omega (arith, d.reserved_within);
  observed_within = d.observed_within;
  unknown_within = d.unknown_within;
}

pub reopened-DatesFit :
    (b : BudgetRow) (now a : ℕ) → DatesFit b → b.high_water ≤ now → DatesFit (reopened b now a)
reopened-DatesFit b now a d h = record {
  started_positive = d.started_positive;
  started_first = omega (arith, d.started_first);
  day_first = day_of_mono b.started now (omega (arith, d.started_first));
  day_last = omega arith;
  reserved_within = omega arith;
  observed_within = omega arith;
  unknown_within = omega arith;
}

pub opened-DatesFit : (now a : ℕ) → 0 < now → DatesFit (opened now a)
opened-DatesFit now a h = record {
  started_positive = h;
  started_first = omega arith;
  day_first = omega arith;
  day_last = omega arith;
  reserved_within = omega arith;
  observed_within = omega arith;
  unknown_within = omega arith;
}

pub valid-day :
    (b : BudgetRow) (now : ℕ)
    → budget_valid b ≡ true
    → b.high_water ≤ now
    → (b.started ≤ now) × (b.day ≤ day_of now)
valid-day b now v h =
    let d = valid-DatesFit b v in
    (omega (arith, d.started_first), omega (arith, d.day_last, day_of_mono b.high_water now h))
