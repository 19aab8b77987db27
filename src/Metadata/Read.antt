-- ===== src/Metadata/Read.antt =====
-- metadataRead (internal/state/metadata_budget.go): the saved ledger, refused as corrupt unless its
-- counters and its reservations agree. The columns have the types that the schema declares.
use saga_rydd.Prelude.{
  ℕ, ◌+◌, ◌-◌, Bool, true, false, not, ◌&&◌, ◌||◌, Option, none, some, leb, ltb, ◌==◌,
  if◌then◌else◌, Result, ok, err, ◌>>=◌, ◌>>◌, refuse_if,
}
use saga_rydd.Clock.{day_of}
use saga_rydd.Metadata.Types.{
  MetadataScope, startup, next, MetadataStatus, reserved, settled, unknown, MetadataError, corrupt,
  MetadataCharges, MetadataRecord, BudgetRow, MetadataDb, MetadataState, no_charges,
  metadata_charges_valid, metadata_reservation_valid,
}

-- The charges of the state and what the saved reservations account for.
pub record Tally : Type 0 where
  pub daily : MetadataCharges
  pub total : MetadataCharges
  pub retained_daily : MetadataCharges
  pub retained_total : MetadataCharges

abbrev pub plus_reserved : MetadataCharges → Bool → ℕ → MetadataCharges
plus_reserved c on n = record c {
  reserved_attempts = (if on then c.reserved_attempts + n else c.reserved_attempts);
}

abbrev pub plus_observed : MetadataCharges → Bool → ℕ → MetadataCharges
plus_observed c on n = record c {
  observed_attempts = (if on then c.observed_attempts + n else c.observed_attempts);
}

abbrev pub plus_unknown : MetadataCharges → Bool → ℕ → MetadataCharges
plus_unknown c on n = record c {
  unknown_attempts = (if on then c.unknown_attempts + n else c.unknown_attempts);
}

abbrev pub plus_outstanding : MetadataCharges → ℕ → MetadataCharges
plus_outstanding c n = record c { outstanding_attempts = c.outstanding_attempts + n }

-- The switch on the status of a reservation; `today` is whether its day is the ledger's.
unfoldable pub tally_status :
    Bool → ℕ → MetadataStatus → Option ℕ → Tally → Result MetadataError Tally
tally_status today allowance reserved (some _) t = err corrupt
tally_status today allowance reserved none t = do
  refuse_if (not today || ltb (t.daily.reserved_attempts - t.daily.outstanding_attempts) allowance)
      corrupt
  ok (record t {
    daily = plus_outstanding t.daily allowance;
    total = plus_outstanding t.total allowance;
  })
tally_status today allowance settled none t = err corrupt
tally_status today allowance settled (some seen) t = do
  refuse_if (ltb allowance seen) corrupt
  ok (record t {
    retained_total = plus_observed t.retained_total true seen;
    retained_daily = plus_observed t.retained_daily today seen;
  })
tally_status today allowance unknown (some _) t = err corrupt
tally_status today allowance unknown none t = ok (record t {
  retained_total = plus_unknown t.retained_total true allowance;
  retained_daily = plus_unknown t.retained_daily today allowance;
})

-- One turn of the loop over the reservations.
unfoldable pub tally_record :
    BudgetRow → MetadataScope → Option MetadataRecord → Tally → Result MetadataError Tally
unfolding tally_status
tally_record b scope none t = ok t
tally_record b scope (some r) t = do
  refuse_if
      (not (metadata_reservation_valid scope r.terms)
        || ltb r.terms.started_at b.started
        || ltb b.high_water r.terms.clock_high_water
        || ltb b.day r.terms.day)
      corrupt
  let today = r.terms.day == b.day
  let noted : Tally = record t {
    retained_total = plus_reserved t.retained_total true r.terms.allowance;
    retained_daily = plus_reserved t.retained_daily today r.terms.allowance;
  }
  tally_status today r.terms.allowance r.status r.observed noted

-- The saved counters; the others are derived from the reservations.
abbrev pub saved_charges : ℕ → ℕ → ℕ → MetadataCharges
saved_charges res obs unk = record {
  reserved_attempts = res;
  observed_attempts = obs;
  unknown_attempts = unk;
  outstanding_attempts = 0;
  known_unused_attempts = 0;
}

abbrev pub with_known_unused : MetadataCharges → MetadataCharges
with_known_unused c = record c {
  known_unused_attempts =
      c.reserved_attempts - c.observed_attempts - c.unknown_attempts - c.outstanding_attempts;
}

abbrev pub within : MetadataCharges → MetadataCharges → Bool
within a b =
    leb a.reserved_attempts b.reserved_attempts
    && leb a.observed_attempts b.observed_attempts
    && leb a.unknown_attempts b.unknown_attempts

abbrev pub empty_tally : BudgetRow → Tally
empty_tally b = record {
  daily = saved_charges b.daily_reserved b.daily_observed b.daily_unknown;
  total = saved_charges b.total_reserved b.total_observed b.total_unknown;
  retained_daily = no_charges;
  retained_total = no_charges;
}

-- The checks after the loop, and the state they let through.
unfoldable pub checked_state : BudgetRow → Tally → Result MetadataError MetadataState
unfolding metadata_charges_valid
checked_state b t = do
  refuse_if (not (metadata_charges_valid t.daily && metadata_charges_valid t.total)) corrupt
  refuse_if (not (within t.retained_daily t.daily && within t.retained_total t.total)) corrupt
  let daily = with_known_unused t.daily
  let total = with_known_unused t.total
  refuse_if (ltb total.known_unused_attempts daily.known_unused_attempts) corrupt
  ok (record {
    present = true;
    started = b.started;
    high_water = b.high_water;
    day = b.day;
    daily = daily;
    total = total;
  })

unfoldable pub budget_valid : BudgetRow → Bool
unfolding day_of metadata_charges_valid
budget_valid b =
    ltb 0 b.started
    && leb b.started b.high_water
    && leb (day_of b.started) b.day
    && leb b.day (day_of b.high_water)
    && metadata_charges_valid (empty_tally b).daily
    && metadata_charges_valid (empty_tally b).total
    && within (empty_tally b).daily (empty_tally b).total

abbrev pub absent_state : MetadataState
absent_state = record {
  present = false;
  started = 0;
  high_water = 0;
  day = 0;
  daily = no_charges;
  total = no_charges;
}

-- Without a budget row there may be no reservation.
abbrev pub absent_ledger :
    Option MetadataRecord → Option MetadataRecord → Result MetadataError MetadataState
absent_ledger none none = ok absent_state
absent_ledger _ _ = err corrupt

-- The rows are read in the order of their scopes.
unfoldable pub metadata_read : MetadataDb → Result MetadataError MetadataState
unfolding tally_record checked_state budget_valid
metadata_read db = elim db.budget [
  | none ↦ absent_ledger db.next_record db.startup_record
  | some b ↦ refuse_if (not (budget_valid b)) corrupt >>= λ _.
      tally_record b next db.next_record (empty_tally b) >>= λ t.
      tally_record b startup db.startup_record t >>= λ t'. checked_state b t'
]
