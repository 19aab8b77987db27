-- ===== src/Metadata/Types.antt =====
-- The rows and records of the metadata ledger and the tests on one reservation
-- (internal/state/metadata_budget.go). Columns that the reader refuses when negative are natural
-- numbers. The schema allows one row for each of the two scopes, so the table of reservations is a
-- pair of optional rows. A row's expiry and high-water instants are kept as the source keeps them.
use saga_rydd.Prelude.{
  ℕ, ◌-◌, Bool, true, false, ◌&&◌, Option, none, some, List, [], ◌∷◌, bytes_eq, leb, ltb, ◌==◌,
}
use saga_rydd.Clock.{day_of, metadata_time, metadata_digest}

-- `other_scope` is any other text, which the requests refuse.
pub data MetadataScope : Type 0 where
  startup next other_scope : MetadataScope

pub data MetadataStatus : Type 0 where
  reserved settled unknown : MetadataStatus

pub data MetadataError : Type 0 where
  invalid unavailable read_only corrupt overflow stale : MetadataError
  deferred_rollback deferred_quota deferred_outstanding : MetadataError

pub record MetadataCharges : Type 0 where
  pub reserved_attempts : ℕ
  pub observed_attempts : ℕ
  pub unknown_attempts : ℕ
  pub outstanding_attempts : ℕ
  pub known_unused_attempts : ℕ

-- A MetadataReservation without its scope, which is the key of its row.
pub record Terms : Type 0 where
  pub token : List ℕ
  pub job_id : ℕ
  pub job_token : List ℕ
  pub day : ℕ
  pub allowance : ℕ
  pub started_at : ℕ
  pub expires_at : ℕ
  pub clock_high_water : ℕ

pub record MetadataReservation : Type 0 where
  pub scope : MetadataScope
  pub terms : Terms

pub record MetadataRecord : Type 0 where
  pub terms : Terms
  pub status : MetadataStatus
  pub observed : Option ℕ

-- The row of scan_metadata_budget.
pub record BudgetRow : Type 0 where
  pub started : ℕ
  pub day : ℕ
  pub high_water : ℕ
  pub daily_reserved : ℕ
  pub daily_observed : ℕ
  pub daily_unknown : ℕ
  pub total_reserved : ℕ
  pub total_observed : ℕ
  pub total_unknown : ℕ

-- The columns of a row of `jobs` that ReserveMetadata reads; `is_scan` is kind = ScanKind.
pub record LeaseRow : Type 0 where
  pub lease_token : List ℕ
  pub lease_until : ℕ
  pub is_scan : Bool
  pub running : Bool

pub record MetadataDb : Type 0 where
  pub schema : ℕ
  pub budget : Option BudgetRow
  pub next_record : Option MetadataRecord
  pub startup_record : Option MetadataRecord
  pub jobs : ℕ → Option LeaseRow

pub record MetadataState : Type 0 where
  pub present : Bool
  pub started : ℕ
  pub high_water : ℕ
  pub day : ℕ
  pub daily : MetadataCharges
  pub total : MetadataCharges

-- MetadataAllowanceLimit
abbrev pub allowance_limit : ℕ
allowance_limit = 65536

-- MetadataDailyLimit
abbrev pub daily_limit_max : ℕ
daily_limit_max = 1125899906842624

abbrev pub no_charges : MetadataCharges
no_charges = record {
  reserved_attempts = 0;
  observed_attempts = 0;
  unknown_attempts = 0;
  outstanding_attempts = 0;
  known_unused_attempts = 0;
}

-- The counters are not negative here.
unfoldable pub metadata_charges_valid : MetadataCharges → Bool
metadata_charges_valid c =
    leb c.observed_attempts c.reserved_attempts
    && leb c.unknown_attempts (c.reserved_attempts - c.observed_attempts)
    && leb c.outstanding_attempts (c.reserved_attempts - c.observed_attempts - c.unknown_attempts)

abbrev pub is_time : ℕ → Bool
is_time at = elim (metadata_time at) [ none ↦ false | some _ ↦ true ]

abbrev pub is_midnight : ℕ → ℕ → Bool
is_midnight at expires = elim (metadata_time at) [
  | none ↦ false
  | some (_, midnight) ↦ expires == midnight
]

abbrev pub until_midnight : ℕ → ℕ → Bool
until_midnight at expires = elim (metadata_time at) [
  | none ↦ false
  | some (_, midnight) ↦ leb expires midnight
]

abbrev pub is_empty : List ℕ → Bool
is_empty [] = true
is_empty (c ∷ cs) = false

-- The part of the test that depends on the scope.
abbrev pub scope_valid : MetadataScope → Terms → Bool
scope_valid startup t =
    (t.job_id == 0) && is_empty t.job_token && is_midnight t.started_at t.expires_at
scope_valid next t = ltb 0 t.job_id && metadata_digest t.job_token 32
scope_valid other_scope t = false

unfoldable pub metadata_reservation_valid : MetadataScope → Terms → Bool
metadata_reservation_valid scope t =
    is_time t.started_at
    && metadata_digest t.token 64
    && leb 1 t.allowance
    && leb t.allowance allowance_limit
    && (t.day == day_of t.started_at)
    && (t.clock_high_water == t.started_at)
    && ltb t.started_at t.expires_at
    && until_midnight t.started_at t.expires_at
    && is_time t.expires_at
    && scope_valid scope t

abbrev pub scope_eq : MetadataScope → MetadataScope → Bool
scope_eq startup startup = true
scope_eq next next = true
scope_eq other_scope other_scope = true
scope_eq _ _ = false

unfoldable pub metadata_same : Terms → Terms → Bool
metadata_same a b =
    bytes_eq a.token b.token
    && (a.job_id == b.job_id)
    && bytes_eq a.job_token b.job_token
    && (a.day == b.day)
    && (a.allowance == b.allowance)
    && (a.started_at == b.started_at)
    && (a.expires_at == b.expires_at)
    && (a.clock_high_water == b.clock_high_water)
