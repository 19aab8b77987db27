-- ===== src/Metadata/Operations.antt =====
-- MetadataBudget, ReserveMetadata, SettleMetadata and RecoverMetadataReservations
-- (internal/state/metadata_budget.go). An error leaves the database as it was; a cancelled context
-- and a failed statement are not modelled. The nonce of a reservation, 64 hexadecimal digits read
-- from the system's random source, is an argument.
use saga_rydd.Prelude.{
  ℕ, ◌+◌, ◌-◌, Bool, true, false, not, ◌&&◌, ◌||◌, Option, none, some, List, [], bytes_eq, leb, ltb,
  ◌==◌, if◌then◌else◌, Result, ok, err, ◌>>=◌, ◌>>◌, refuse_if, or_else,
}
use saga_rydd.Prelude.Int.{max_int64}
use saga_rydd.Clock.{day_of, metadata_time, metadata_digest}
use saga_rydd.Metadata.Types.{
  MetadataScope, startup, next, other_scope, reserved, settled, unknown, MetadataError, invalid,
  unavailable, read_only, overflow, stale, deferred_rollback, deferred_quota, deferred_outstanding,
  MetadataCharges, Terms, MetadataReservation, MetadataRecord, BudgetRow, MetadataDb, MetadataState,
  allowance_limit, daily_limit_max, no_charges, metadata_reservation_valid, scope_eq, metadata_same,
}
use saga_rydd.Metadata.Read.{metadata_read}

-- What the requests read of a Job.
pub record JobClaim : Type 0 where
  pub id : ℕ
  pub token : List ℕ

unfoldable pub metadata_writer : Bool → ℕ → Result MetadataError (Unit {0})
metadata_writer readonly schema = do
  refuse_if readonly read_only
  refuse_if (ltb schema 10) unavailable

unfoldable pub reserve_input_valid : MetadataScope → Option JobClaim → ℕ → ℕ → Bool
reserve_input_valid scope job allowance limit =
    leb 1 allowance
    && leb allowance allowance_limit
    && leb 1 limit
    && leb limit daily_limit_max
    && job_valid scope job
  where
    job_valid : MetadataScope → Option JobClaim → Bool
    job_valid startup none = true
    job_valid next (some j) = ltb 0 j.id && metadata_digest j.token 32
    job_valid _ _ = false

-- A saved reservation that must be settled or recovered before `scope` is reserved on `day`.
abbrev pub blocks : MetadataScope → ℕ → MetadataScope → Option MetadataRecord → Bool
blocks scope day key none = false
blocks scope day key (some r) = elim r.status [
  | reserved ↦ scope_eq key scope || not (r.terms.day == day)
  | _ ↦ false
]

-- The state that is charged: tracking starts, or a new day does.
unfoldable pub charged_day : MetadataState → ℕ → MetadataState
unfolding day_of
charged_day s now =
    if not s.present
    then record s { present = true; started = now; day = day_of now }
    else if ltb s.day (day_of now)
    then record s { day = day_of now; daily = no_charges }
    else s

-- The lease that a Next reservation is made under; `none` for a Startup one.
unfoldable pub reserve_expiry :
    MetadataDb → MetadataScope → Option JobClaim → ℕ → ℕ → Result MetadataError ℕ
reserve_expiry db next (some j) now midnight = do
  row ← or_else (db.jobs j.id) stale
  refuse_if
      (not (bytes_eq row.lease_token j.token)
        || not row.is_scan
        || not row.running
        || leb row.lease_until now)
      stale
  ok (if ltb row.lease_until midnight then row.lease_until else midnight)
reserve_expiry db _ _ now midnight = ok midnight

abbrev pub claim_id : Option JobClaim → ℕ
claim_id none = 0
claim_id (some j) = j.id

abbrev pub claim_token : Option JobClaim → List ℕ
claim_token none = []
claim_token (some j) = j.token

-- metadataSave: the row of scan_metadata_budget.
abbrev pub saved_row : MetadataState → BudgetRow
saved_row s = record {
  started = s.started;
  day = s.day;
  high_water = s.high_water;
  daily_reserved = s.daily.reserved_attempts;
  daily_observed = s.daily.observed_attempts;
  daily_unknown = s.daily.unknown_attempts;
  total_reserved = s.total.reserved_attempts;
  total_observed = s.total.observed_attempts;
  total_unknown = s.total.unknown_attempts;
}

-- Both statements of a commit: the budget, and the record of one scope.
abbrev pub save_record : MetadataDb → MetadataState → MetadataScope → MetadataRecord → MetadataDb
save_record db s startup r = record db { budget = some (saved_row s); startup_record = some r }
save_record db s next r = record db { budget = some (saved_row s); next_record = some r }
save_record db s other_scope r = db

abbrev pub charge_reserved : MetadataState → ℕ → ℕ → MetadataState
charge_reserved s now allowance = record s {
  high_water = now;
  daily = record s.daily { reserved_attempts = s.daily.reserved_attempts + allowance };
  total = record s.total { reserved_attempts = s.total.reserved_attempts + allowance };
}

abbrev pub new_terms : List ℕ → Option JobClaim → ℕ → ℕ → ℕ → ℕ → Terms
new_terms nonce job day allowance now expires = record {
  token = nonce;
  job_id = claim_id job;
  job_token = claim_token job;
  day = day;
  allowance = allowance;
  started_at = now;
  expires_at = expires;
  clock_high_water = now;
}

unfoldable pub reserve_metadata :
    Bool
    → MetadataDb
    → List ℕ
    → ℕ
    → MetadataScope
    → Option JobClaim
    → ℕ
    → ℕ
    → Result MetadataError (MetadataDb × MetadataReservation)
unfolding reserve_input_valid charged_day reserve_expiry
reserve_metadata readonly db nonce now scope job allowance limit = do
  metadata_writer readonly db.schema
  (at, midnight) ← or_else (metadata_time now) invalid
  refuse_if (not (reserve_input_valid scope job allowance limit)) invalid
  saved ← metadata_read db
  refuse_if (saved.present && ltb now saved.high_water) deferred_rollback
  refuse_if
      (blocks scope (day_of now) next db.next_record
        || blocks scope (day_of now) startup db.startup_record)
      deferred_outstanding
  let s = charged_day saved now
  refuse_if
      (ltb limit s.daily.reserved_attempts || ltb (limit - s.daily.reserved_attempts) allowance)
      deferred_quota
  refuse_if (ltb (max_int64 - s.total.reserved_attempts) allowance) overflow
  expires ← reserve_expiry db scope job now midnight
  let terms = new_terms nonce job s.day allowance now expires
  let saved_record : MetadataRecord = record { terms = terms; status = reserved; observed = none }
  ok (
    save_record db (charge_reserved s now allowance) scope saved_record,
    record { scope = scope; terms = terms },
  )

abbrev pub record_of : MetadataDb → MetadataScope → Option MetadataRecord
record_of db startup = db.startup_record
record_of db next = db.next_record
record_of db other_scope = none

-- The saved record of a reservation, if it is still there.
unfoldable pub matching_record : MetadataDb → MetadataReservation → Option MetadataRecord
matching_record db res = elim (record_of db res.scope) [
  | none ↦ none
  | some r ↦ if metadata_same r.terms res.terms then some r else none
]

abbrev pub later : ℕ → ℕ → ℕ
later now high = if ltb high now then now else high

abbrev pub charge_observed : MetadataState → ℕ → ℕ → MetadataState
charge_observed s now seen = record s {
  high_water = later now s.high_water;
  daily = record s.daily { observed_attempts = s.daily.observed_attempts + seen };
  total = record s.total { observed_attempts = s.total.observed_attempts + seen };
}

-- SettleMetadata by the status of the saved record.
unfoldable pub settle_record :
    MetadataDb
    → MetadataState
    → MetadataScope
    → MetadataRecord
    → ℕ
    → ℕ
    → Result MetadataError MetadataDb
settle_record db s scope r seen now = elim r.status [
  | unknown ↦ err stale
  | settled ↦ elim r.observed [
    | none ↦ err stale
    | some prior ↦ if prior == seen then ok db else err stale
  ]
  | reserved ↦ ok (
      save_record db (charge_observed s now seen) scope
        (record r { status = settled; observed = some seen }))
]

unfoldable pub settle_metadata :
    Bool → MetadataDb → MetadataReservation → ℕ → ℕ → Result MetadataError MetadataDb
unfolding settle_record
settle_metadata readonly db res seen now = do
  metadata_writer readonly db.schema
  (at, midnight) ← or_else (metadata_time now) invalid
  refuse_if (not (metadata_reservation_valid res.scope res.terms) || ltb res.terms.allowance seen)
      invalid
  s ← metadata_read db
  r ← or_else (matching_record db res) stale
  settle_record db s res.scope r seen now

-- What an outstanding reservation adds to the unknown charges, and that it is one.
abbrev pub lost : Option MetadataRecord → ℕ
lost none = 0
lost (some r) = elim r.status [ reserved ↦ r.terms.allowance | _ ↦ 0 ]

abbrev pub is_lost : Option MetadataRecord → ℕ
is_lost none = 0
is_lost (some r) = elim r.status [ reserved ↦ 1 | _ ↦ 0 ]

abbrev pub recovered : Option MetadataRecord → Option MetadataRecord
recovered none = none
recovered (some r) = elim r.status [ reserved ↦ some (record r { status = unknown }) | _ ↦ some r ]

abbrev pub charge_unknown : MetadataState → ℕ → ℕ → MetadataState
charge_unknown s now n = record s {
  high_water = later now s.high_water;
  daily = record s.daily { unknown_attempts = s.daily.unknown_attempts + n };
  total = record s.total { unknown_attempts = s.total.unknown_attempts + n };
}

unfoldable pub recover_metadata : Bool → MetadataDb → ℕ → Result MetadataError (MetadataDb × ℕ)
recover_metadata readonly db now = do
  metadata_writer readonly db.schema
  (at, midnight) ← or_else (metadata_time now) invalid
  s ← metadata_read db
  let count = is_lost db.next_record + is_lost db.startup_record
  let charged = charge_unknown s now (lost db.next_record + lost db.startup_record)
  ok (
      if count == 0 then (db, 0) else (
        record db {
          budget = some (saved_row charged);
          next_record = recovered db.next_record;
          startup_record = recovered db.startup_record;
        },
        count,
      ))

pub data BudgetStatus : Type 0 where
  budget_unavailable untracked tracked deferred : BudgetStatus

pub data BudgetReason : Type 0 where
  no_reason schema_unavailable clock_rollback settlement_required daily_metadata_limit :
      BudgetReason

pub record MetadataBudget : Type 0 where
  pub available : Bool
  pub status : BudgetStatus
  pub reason : BudgetReason
  pub day : Option ℕ
  pub limit : ℕ
  pub tracking_started_at : Option ℕ
  pub clock_high_water : Option ℕ
  pub day_charges : Option MetadataCharges
  pub total_charges : Option MetadataCharges
  pub next_allowed_at : Option ℕ

abbrev pub base_budget : Bool → BudgetStatus → BudgetReason → ℕ → MetadataBudget
base_budget available status reason limit = record {
  available = available;
  status = status;
  reason = reason;
  day = none;
  limit = limit;
  tracking_started_at = none;
  clock_high_water = none;
  day_charges = none;
  total_charges = none;
  next_allowed_at = none;
}

abbrev pub tracked_budget : MetadataState → ℕ → MetadataBudget
tracked_budget s limit = record (base_budget true tracked no_reason limit) {
  day = some s.day;
  tracking_started_at = some s.started;
  clock_high_water = some s.high_water;
  day_charges = some s.daily;
  total_charges = some s.total;
}

abbrev pub defer : MetadataBudget → BudgetReason → Option ℕ → MetadataBudget
defer b why until = record b { status = deferred; reason = why; next_allowed_at = until }

-- The last test of the snapshot, on the charges of the day it reports.
abbrev pub at_limit : MetadataBudget → MetadataCharges → ℕ → ℕ → MetadataBudget
at_limit b charges midnight limit =
    if leb limit charges.reserved_attempts then defer b daily_metadata_limit (some midnight) else b

unfoldable pub metadata_snapshot : MetadataState → ℕ → ℕ → ℕ → MetadataBudget
unfolding day_of
metadata_snapshot s now midnight limit =
    let b = tracked_budget s limit in
    if not s.present
    then base_budget true untracked no_reason limit
    else if ltb now s.high_water
    then defer b clock_rollback (some s.high_water)
    else if ltb s.day (day_of now)
    then (if ltb 0 s.total.outstanding_attempts
        then defer b settlement_required none
        else at_limit (record b { day = some (day_of now); day_charges = some no_charges })
            no_charges midnight limit)
    else at_limit b s.daily midnight limit

unfoldable pub metadata_budget : MetadataDb → ℕ → ℕ → Result MetadataError MetadataBudget
unfolding metadata_snapshot
metadata_budget db now limit = do
  (at, midnight) ← or_else (metadata_time now) invalid
  refuse_if (ltb limit 1 || ltb daily_limit_max limit) invalid
  if ltb db.schema 10
      then ok (base_budget false budget_unavailable schema_unavailable limit)
      else (metadata_read db >>= λ s. ok (metadata_snapshot s now midnight limit))
