-- ===== src/Metadata/Tests.antt =====
-- The metadata ledger of internal/state/metadata_budget.go on one startup reservation.
use saga_rydd.Prelude.{
  ℕ, ◌+◌, ◌≤◌, ◌≡◌, refl, true, false, Option, none, some, zeros, bytes_eq, Result, ok, ok_or,
  arith,
}
use saga_rydd.Prelude.Int.{max_int64}
use saga_rydd.Clock.{day_of, day_end, metadata_time, metadata_digest}
use saga_rydd.Metadata.Types.{
  MetadataError, startup, MetadataReservation, MetadataDb, MetadataState, LeaseRow, no_charges,
  metadata_charges_valid, metadata_reservation_valid, metadata_same,
}
use saga_rydd.Metadata.Read.{metadata_read, tally_record, tally_status, checked_state, budget_valid}
use saga_rydd.Metadata.Operations.{
  reserve_metadata, metadata_writer, reserve_input_valid, charged_day, reserve_expiry,
  settle_metadata, settle_record, matching_record, recover_metadata, new_terms,
}
use saga_rydd.Metadata.Reserved.{reserve_metadata_readable}
use saga_rydd.Metadata.Settled.{settle_metadata_settled}
use saga_rydd.Metadata.Recover.{recover_metadata_settles}

abbrev no_jobs : ℕ → Option LeaseRow
no_jobs id = none

abbrev empty_db : MetadataDb
empty_db = record {
  schema = 16;
  budget = none;
  next_record = none;
  startup_record = none;
  jobs = no_jobs;
}

abbrev reservation : MetadataReservation
reservation = record { scope = startup; terms = new_terms (zeros 64) none 0 10 1000 86400000000000 }

abbrev reserved_outcome : Result MetadataError (MetadataDb × MetadataReservation)
reserved_outcome = reserve_metadata false empty_db (zeros 64) 1000 startup none 10 100

abbrev reserved_db : MetadataDb
reserved_db = (ok_or (empty_db, reservation) reserved_outcome).0

reserved_ok :
    reserve_metadata false empty_db (zeros 64) 1000 startup none 10 100
    ≡ ok (reserved_db, reservation)
unfolding reserve_metadata metadata_writer metadata_time day_of day_end reserve_input_valid
    charged_day reserve_expiry metadata_read
reserved_ok = refl

nonce_ok : metadata_digest (zeros 64) 64 ≡ true
unfolding metadata_digest
nonce_ok = refl

early : day_end (day_of 1000) + 86400000000000 ≤ max_int64
unfolding day_end day_of
early = omega arith

reserve_metadata_readable_example :
    (saved : MetadataState) × (after : MetadataState) × (metadata_read empty_db ≡ ok saved)
    × (metadata_read reserved_db ≡ ok after)
    × (after.total.reserved_attempts ≡ saved.total.reserved_attempts + 10)
    × (after.daily.reserved_attempts ≤ 100)
reserve_metadata_readable_example =
    reserve_metadata_readable false empty_db reserved_db (zeros 64) 1000 startup none 10 100
      reservation early nonce_ok reserved_ok

abbrev settled_db : MetadataDb
settled_db = ok_or empty_db (settle_metadata false reserved_db reservation 7 2000)

settled_ok : settle_metadata false reserved_db reservation 7 2000 ≡ ok settled_db
unfolding reserve_metadata metadata_writer metadata_time day_of day_end reserve_input_valid
    charged_day reserve_expiry metadata_read tally_record tally_status checked_state budget_valid
    metadata_charges_valid metadata_reservation_valid metadata_digest metadata_same bytes_eq
    matching_record settle_metadata settle_record
settled_ok = refl

later_time : metadata_time 3000 ≡ some (3000, 86400000000000)
unfolding metadata_time day_of day_end
later_time = refl

settle_metadata_settled_example :
    (saved : MetadataState) × (after : MetadataState) × (metadata_read reserved_db ≡ ok saved)
    × (metadata_read settled_db ≡ ok after)
    × (after.total.reserved_attempts ≡ saved.total.reserved_attempts)
    × (after.daily.reserved_attempts ≡ saved.daily.reserved_attempts)
    × (settle_metadata false settled_db reservation 7 3000 ≡ ok settled_db)
settle_metadata_settled_example =
    settle_metadata_settled false reserved_db settled_db reservation 7 2000 3000
      (3000, 86400000000000) settled_ok later_time

abbrev reserved_state : MetadataState
reserved_state =
    ok_or
      record {
        present = false;
        started = 0;
        high_water = 0;
        day = 0;
        daily = no_charges;
        total = no_charges;
      }
      (metadata_read reserved_db)

reserved_read : metadata_read reserved_db ≡ ok reserved_state
unfolding reserve_metadata metadata_writer metadata_time day_of day_end reserve_input_valid
    charged_day reserve_expiry metadata_read tally_record tally_status checked_state budget_valid
    metadata_charges_valid metadata_reservation_valid metadata_digest metadata_same bytes_eq
    matching_record settle_metadata settle_record
reserved_read = refl

abbrev recovered_db : MetadataDb
recovered_db = (ok_or (empty_db, 0) (recover_metadata false reserved_db 2000)).0

recovered_ok : recover_metadata false reserved_db 2000 ≡ ok (recovered_db, 1)
unfolding recover_metadata reserve_metadata metadata_writer metadata_time day_of day_end
    reserve_input_valid charged_day reserve_expiry metadata_read tally_record tally_status
    checked_state budget_valid metadata_charges_valid metadata_reservation_valid metadata_digest
    metadata_same bytes_eq matching_record settle_metadata settle_record
recovered_ok = refl

recover_metadata_settles_example :
    (after : MetadataState) × (metadata_read recovered_db ≡ ok after)
    × (after.total.outstanding_attempts ≡ 0)
    × (after.total.reserved_attempts ≡ reserved_state.total.reserved_attempts)
    × (after.total.observed_attempts ≡ reserved_state.total.observed_attempts)
    × (after.total.unknown_attempts
        ≡ reserved_state.total.unknown_attempts + reserved_state.total.outstanding_attempts)
recover_metadata_settles_example =
    recover_metadata_settles false reserved_db recovered_db 2000 1 reserved_state reserved_read
      recovered_ok
