-- ===== src/Metadata/Sound.antt =====
-- metadataRead (internal/state/metadata_budget.go) described by one predicate on the rows.
use saga_rydd.Prelude.{
  ℕ, ◌+◌, ◌-◌, ◌≤◌, ◌≡◌, Bool, true, false, ◌&&◌, Option, none, some, leb, ltb, ◌==◌, if◌then◌else◌,
  ok, ◌>>=◌, arith, inl, inr, >>=-eq-ok, Bool-cases, subst, ap, ◌∙◌,
}
use saga_rydd.Metadata.Types.{
  MetadataScope, startup, next, reserved, settled, unknown, MetadataCharges, MetadataRecord,
  BudgetRow, MetadataDb, MetadataState, metadata_charges_valid, metadata_reservation_valid,
}
use saga_rydd.Metadata.Read.{
  Tally, tally_status, tally_record, empty_tally, checked_state, budget_valid, metadata_read,
  with_known_unused, within,
}

-- What a saved reservation accounts for.
abbrev pub held : Option MetadataRecord → ℕ
held none = 0
held (some r) = r.terms.allowance

abbrev pub outstanding : Option MetadataRecord → ℕ
outstanding none = 0
outstanding (some r) = elim r.status [ reserved ↦ r.terms.allowance | _ ↦ 0 ]

abbrev pub seen_or_0 : Option ℕ → ℕ
seen_or_0 none = 0
seen_or_0 (some n) = n

abbrev pub observed_of : Option MetadataRecord → ℕ
observed_of none = 0
observed_of (some r) = elim r.status [ settled ↦ seen_or_0 r.observed | _ ↦ 0 ]

abbrev pub unknown_of : Option MetadataRecord → ℕ
unknown_of none = 0
unknown_of (some r) = elim r.status [ unknown ↦ r.terms.allowance | _ ↦ 0 ]

abbrev pub on_day : ℕ → Option MetadataRecord → ℕ → ℕ
on_day day none n = 0
on_day day (some r) n = if r.terms.day == day then n else 0

abbrev pub status_fits : ℕ → MetadataRecord → Bool
status_fits day r = elim r.status [
  | reserved ↦ (r.terms.day == day) && elim r.observed [ none ↦ true | some _ ↦ false ]
  | settled ↦ elim r.observed [ none ↦ false | some n ↦ leb n r.terms.allowance ]
  | unknown ↦ elim r.observed [ none ↦ true | some _ ↦ false ]
]

-- A saved reservation is one that the ledger may have made.
unfoldable pub record_fits : BudgetRow → MetadataScope → Option MetadataRecord → Bool
record_fits b scope none = true
record_fits b scope (some r) =
    metadata_reservation_valid scope r.terms
    && leb b.started r.terms.started_at
    && leb r.terms.clock_high_water b.high_water
    && leb r.terms.day b.day
    && status_fits b.day r

abbrev pub added : BudgetRow → Option MetadataRecord → Tally → Tally
added b o t = record {
  daily = record t.daily { outstanding_attempts = t.daily.outstanding_attempts + outstanding o };
  total = record t.total { outstanding_attempts = t.total.outstanding_attempts + outstanding o };
  retained_daily = record t.retained_daily {
    reserved_attempts = t.retained_daily.reserved_attempts + on_day b.day o (held o);
    observed_attempts = t.retained_daily.observed_attempts + on_day b.day o (observed_of o);
    unknown_attempts = t.retained_daily.unknown_attempts + on_day b.day o (unknown_of o);
  };
  retained_total = record t.retained_total {
    reserved_attempts = t.retained_total.reserved_attempts + held o;
    observed_attempts = t.retained_total.observed_attempts + observed_of o;
    unknown_attempts = t.retained_total.unknown_attempts + unknown_of o;
  };
}

add_zero : (n : ℕ) → n + 0 ≡ n
add_zero n = omega arith

pub tally_record-ok :
    (b : BudgetRow) (scope : MetadataScope) (o : Option MetadataRecord) (t t' : Tally)
    → tally_record b scope o t ≡ ok t'
    → (record_fits b scope o ≡ true)
      × (t' ≡ added b o t)
      × (outstanding o ≤ t.daily.reserved_attempts - t.daily.outstanding_attempts)
unfolding tally_record tally_status record_fits
tally_record-ok b scope none t t' e = ground arith
tally_record-ok b scope (some r) t t' e = ground arith

pub tally_record_complete :
    (b : BudgetRow) (scope : MetadataScope) (o : Option MetadataRecord) (t : Tally)
    → record_fits b scope o ≡ true
    → outstanding o ≤ t.daily.reserved_attempts - t.daily.outstanding_attempts
    → tally_record b scope o t ≡ ok (added b o t)
unfolding tally_record tally_status record_fits
tally_record_complete b scope none t f room = ground arith
tally_record_complete b scope (some r) t f room = ground arith

-- The counters of the ledger agree with its reservations.
pub record Balanced (b : BudgetRow) (n s : Option MetadataRecord) : Type 0 where
  pub daily_parts :
      b.daily_observed + b.daily_unknown + (outstanding n + outstanding s) ≤ b.daily_reserved
  pub total_parts :
      b.total_observed + b.total_unknown + (outstanding n + outstanding s) ≤ b.total_reserved
  pub daily_reserved_kept : on_day b.day n (held n) + on_day b.day s (held s) ≤ b.daily_reserved
  pub daily_observed_kept :
      on_day b.day n (observed_of n) + on_day b.day s (observed_of s) ≤ b.daily_observed
  pub daily_unknown_kept :
      on_day b.day n (unknown_of n) + on_day b.day s (unknown_of s) ≤ b.daily_unknown
  pub total_reserved_kept : held n + held s ≤ b.total_reserved
  pub total_observed_kept : observed_of n + observed_of s ≤ b.total_observed
  pub total_unknown_kept : unknown_of n + unknown_of s ≤ b.total_unknown
  pub unused :
      b.daily_reserved + (b.total_observed + b.total_unknown)
      ≤ b.total_reserved + (b.daily_observed + b.daily_unknown)

abbrev pub both : BudgetRow → Option MetadataRecord → Option MetadataRecord → Tally
both b n s = added b s (added b n (empty_tally b))

-- The state that the reader returns.
abbrev pub state_of : BudgetRow → Option MetadataRecord → Option MetadataRecord → MetadataState
state_of b n s = record {
  present = true;
  started = b.started;
  high_water = b.high_water;
  day = b.day;
  daily = with_known_unused (both b n s).daily;
  total = with_known_unused (both b n s).total;
}

-- The same of a tally.
pub record Checked (t : Tally) : Type 0 where
  pub daily_parts :
      t.daily.observed_attempts + t.daily.unknown_attempts + t.daily.outstanding_attempts
      ≤ t.daily.reserved_attempts
  pub total_parts :
      t.total.observed_attempts + t.total.unknown_attempts + t.total.outstanding_attempts
      ≤ t.total.reserved_attempts
  pub daily_reserved_kept : t.retained_daily.reserved_attempts ≤ t.daily.reserved_attempts
  pub daily_observed_kept : t.retained_daily.observed_attempts ≤ t.daily.observed_attempts
  pub daily_unknown_kept : t.retained_daily.unknown_attempts ≤ t.daily.unknown_attempts
  pub total_reserved_kept : t.retained_total.reserved_attempts ≤ t.total.reserved_attempts
  pub total_observed_kept : t.retained_total.observed_attempts ≤ t.total.observed_attempts
  pub total_unknown_kept : t.retained_total.unknown_attempts ≤ t.total.unknown_attempts
  pub unused :
      (with_known_unused t.daily).known_unused_attempts
      ≤ (with_known_unused t.total).known_unused_attempts

checked_state-ok :
    (b : BudgetRow) (t : Tally) (st : MetadataState) → checked_state b t ≡ ok st → Checked t
unfolding checked_state metadata_charges_valid
checked_state-ok b t st e = record {
  daily_parts = ground arith;
  total_parts = ground arith;
  daily_reserved_kept = ground arith;
  daily_observed_kept = ground arith;
  daily_unknown_kept = ground arith;
  total_reserved_kept = ground arith;
  total_observed_kept = ground arith;
  total_unknown_kept = ground arith;
  unused = ground arith;
}

checked_of : BudgetRow → Tally → MetadataState
checked_of b t = record {
  present = true;
  started = b.started;
  high_water = b.high_water;
  day = b.day;
  daily = with_known_unused t.daily;
  total = with_known_unused t.total;
}

checked_state-shape :
    (b : BudgetRow) (t : Tally) (st : MetadataState)
    → checked_state b t ≡ ok st
    → st ≡ checked_of b t
unfolding checked_state checked_of
checked_state-shape b t st e = ground arith

pub charges_valid-of :
    (c : MetadataCharges)
    → c.observed_attempts + c.unknown_attempts + c.outstanding_attempts ≤ c.reserved_attempts
    → metadata_charges_valid c ≡ true
unfolding metadata_charges_valid
charges_valid-of c h = ground arith

within-of :
    (a c : MetadataCharges)
    → a.reserved_attempts ≤ c.reserved_attempts
    → a.observed_attempts ≤ c.observed_attempts
    → a.unknown_attempts ≤ c.unknown_attempts
    → within a c ≡ true
within-of a c h1 h2 h3 = ground arith

le-not_ltb : (a b : ℕ) → a ≤ b → ltb b a ≡ false
le-not_ltb a b h = ground arith

checked_state_complete :
    (b : BudgetRow) (t : Tally) → Checked t → checked_state b t ≡ ok (checked_of b t)
unfolding checked_state checked_of
checked_state_complete b t c = simp (
  charges_valid-of t.daily c.daily_parts,
  charges_valid-of t.total c.total_parts,
  within-of t.retained_daily t.daily c.daily_reserved_kept c.daily_observed_kept
      c.daily_unknown_kept,
  within-of t.retained_total t.total c.total_reserved_kept c.total_observed_kept
      c.total_unknown_kept,
  le-not_ltb (with_known_unused t.daily).known_unused_attempts
      (with_known_unused t.total).known_unused_attempts c.unused,
)

Checked-Balanced :
    (b : BudgetRow) (n s : Option MetadataRecord) → Checked (both b n s) → Balanced b n s
Checked-Balanced b n s c = record {
  daily_parts = omega (arith, c.daily_parts);
  total_parts = omega (arith, c.total_parts);
  daily_reserved_kept = omega (arith, c.daily_reserved_kept);
  daily_observed_kept = omega (arith, c.daily_observed_kept);
  daily_unknown_kept = omega (arith, c.daily_unknown_kept);
  total_reserved_kept = omega (arith, c.total_reserved_kept);
  total_observed_kept = omega (arith, c.total_observed_kept);
  total_unknown_kept = omega (arith, c.total_unknown_kept);
  unused = omega (arith, c.unused, c.daily_parts, c.total_parts);
}

Balanced-Checked :
    (b : BudgetRow) (n s : Option MetadataRecord) → Balanced b n s → Checked (both b n s)
Balanced-Checked b n s c = record {
  daily_parts = omega (arith, c.daily_parts);
  total_parts = omega (arith, c.total_parts);
  daily_reserved_kept = omega (arith, c.daily_reserved_kept);
  daily_observed_kept = omega (arith, c.daily_observed_kept);
  daily_unknown_kept = omega (arith, c.daily_unknown_kept);
  total_reserved_kept = omega (arith, c.total_reserved_kept);
  total_observed_kept = omega (arith, c.total_observed_kept);
  total_unknown_kept = omega (arith, c.total_unknown_kept);
  unused = omega (arith, c.unused, c.daily_parts, c.total_parts);
}

-- The ledger `db` holds the budget row `b`, and both agree.
pub record Readable (db : MetadataDb) (b : BudgetRow) : Type 0 where
  pub row : db.budget ≡ some b
  pub row_valid : budget_valid b ≡ true
  pub next_fits : record_fits b next db.next_record ≡ true
  pub startup_fits : record_fits b startup db.startup_record ≡ true
  pub balanced : Balanced b db.next_record db.startup_record

read-steps :
    (db : MetadataDb) (b : BudgetRow) (t1 t2 : Tally) (st : MetadataState)
    → db.budget ≡ some b
    → budget_valid b ≡ true
    → tally_record b next db.next_record (empty_tally b) ≡ ok t1
    → tally_record b startup db.startup_record t1 ≡ ok t2
    → checked_state b t2 ≡ ok st
    → metadata_read db ≡ ok st
unfolding metadata_read
read-steps db b t1 t2 st e v e1 e2 e3 = ground arith

read-parts :
    (db : MetadataDb) (b : BudgetRow) (st : MetadataState)
    → db.budget ≡ some b
    → metadata_read db ≡ ok st
    → (budget_valid b ≡ true)
      × (t1 : Tally) × (t2 : Tally) × (tally_record b next db.next_record (empty_tally b) ≡ ok t1)
      × (tally_record b startup db.startup_record t1 ≡ ok t2)
      × (checked_state b t2 ≡ ok st)
unfolding metadata_read
read-parts db b st e h = elim (Bool-cases (budget_valid b)) [
  | inr bad ↦ ground arith
  | inl v ↦
      let h' : (tally_record b next db.next_record (empty_tally b) >>= λ t.
      tally_record b startup db.startup_record t >>= λ t'. checked_state b t')
          ≡ ok st =
        ground arith in
      let (t1, e1, r1) =
        >>=-eq-ok (tally_record b next db.next_record (empty_tally b))
          (λ t. tally_record b startup db.startup_record t >>= λ t'. checked_state b t') h' in
      let (t2, e2, r2) =
        >>=-eq-ok (tally_record b startup db.startup_record t1) (λ t'. checked_state b t') r1 in
      (v, t1, t2, e1, e2, r2)
]

-- The reader accepts only what is Readable, and returns the state that the rows stand for.
pub read-Readable :
    (db : MetadataDb) (b : BudgetRow) (st : MetadataState)
    → db.budget ≡ some b
    → metadata_read db ≡ ok st
    → Readable db b × (st ≡ state_of b db.next_record db.startup_record)
unfolding checked_of
read-Readable db b st eb e =
    let (v, t1, t2, e1, e2, e3) = read-parts db b st eb e in
    let n = db.next_record in
    let s = db.startup_record in
    let (fn, s1, g1) = tally_record-ok b next n (empty_tally b) t1 e1 in
    let (fs, s2, g2) = tally_record-ok b startup s t1 t2 e2 in
    let r : checked_state b (both b n s) ≡ ok st =
      subst (λ t. checked_state b t ≡ ok st) (s2 ∙ ap (added b s) s1) e3 in
    (
      record {
        row = eb;
        row_valid = v;
        next_fits = fn;
        startup_fits = fs;
        balanced = Checked-Balanced b n s (checked_state-ok b (both b n s) st r);
      },
      checked_state-shape b (both b n s) st r,
    )

pub Readable-read :
    (db : MetadataDb) (b : BudgetRow)
    → Readable db b
    → metadata_read db ≡ ok (state_of b db.next_record db.startup_record)
unfolding checked_of
Readable-read db b k =
    let n = db.next_record in
    let s = db.startup_record in
    read-steps db b (added b n (empty_tally b)) (both b n s) (state_of b n s) k.row k.row_valid
      (tally_record_complete b next n (empty_tally b) k.next_fits
        (omega (arith, k.balanced.daily_parts)))
      (tally_record_complete b startup s (added b n (empty_tally b)) k.startup_fits
        (omega (arith, k.balanced.daily_parts)))
      (checked_state_complete b (both b n s) (Balanced-Checked b n s k.balanced))
