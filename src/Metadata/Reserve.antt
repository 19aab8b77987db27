-- ===== src/Metadata/Reserve.antt =====
-- The conditions of a successful ReserveMetadata (internal/state/metadata_budget.go).
use saga_rydd.Prelude.{
  ℕ, ◌+◌, ◌≤◌, ◌<◌, ◌≡◌, Bool, true, false, Option, none, some, List, ok, arith, inl, inr,
  Result-cases, Option-cases,
}
use saga_rydd.Prelude.Int.{max_int64}
use saga_rydd.Clock.{day_of, day_end, day_ns, metadata_time}
use saga_rydd.Metadata.Types.{
  MetadataScope, startup, next, reserved, MetadataRecord, MetadataReservation, MetadataDb,
  MetadataState,
}
use saga_rydd.Metadata.Read.{metadata_read}
use saga_rydd.Metadata.Operations.{
  JobClaim, reserve_input_valid, blocks, charged_day, reserve_expiry, save_record, charge_reserved,
  new_terms, reserve_metadata,
}

pub metadata_time-some :
    (now at midnight : ℕ)
    → metadata_time now ≡ some (at, midnight)
    → (at ≡ now)
      × (midnight ≡ day_end (day_of now))
      × (0 < now)
      × (now < midnight)
      × (midnight ≤ max_int64)
unfolding metadata_time day_of day_end
metadata_time-some now at midnight e =
    (ground arith, ground arith, ground arith, ground arith, ground arith)

-- The clock is at least two midnights before the last representable instant.
abbrev pub EarlyEnough : ℕ → Type 0
EarlyEnough now = day_end (day_of now) + day_ns ≤ max_int64

time-of :
    (at : ℕ)
    → 0 < at
    → day_end (day_of at) ≤ max_int64
    → metadata_time at ≡ some (at, day_end (day_of at))
unfolding metadata_time day_of day_end
time-of at h m = ground arith

-- The facts that a successful reservation rests on.
pub record Granted (db : MetadataDb) (now : ℕ) (scope : MetadataScope) (job : Option JobClaim)
    (allowance limit : ℕ) (saved : MetadataState) (expires : ℕ) : Type 0 where
  pub positive : 0 < now
  pub midnight_fits : day_end (day_of now) ≤ max_int64
  pub input : reserve_input_valid scope job allowance limit ≡ true
  pub read : metadata_read db ≡ ok saved
  pub no_rollback : saved.present ≡ true → saved.high_water ≤ now
  pub next_free : blocks scope (day_of now) next db.next_record ≡ false
  pub startup_free : blocks scope (day_of now) startup db.startup_record ≡ false
  pub quota : (charged_day saved now).daily.reserved_attempts + allowance ≤ limit
  pub expiry : reserve_expiry db scope job now (day_end (day_of now)) ≡ ok expires

abbrev pub reserved_record : List ℕ → Option JobClaim → ℕ → ℕ → ℕ → ℕ → MetadataRecord
reserved_record nonce job day allowance now expires = record {
  terms = new_terms nonce job day allowance now expires;
  status = reserved;
  observed = none;
}

abbrev pub reserved_db :
    MetadataDb → MetadataState → MetadataScope → List ℕ → Option JobClaim → ℕ → ℕ → ℕ → MetadataDb
reserved_db db s scope nonce job allowance now expires =
    save_record db (charge_reserved s now allowance) scope
      (reserved_record nonce job s.day allowance now expires)

pub reserve_metadata-Granted :
    (readonly : Bool) (db : MetadataDb) (nonce : List ℕ) (now : ℕ) (scope : MetadataScope)
    (job : Option JobClaim) (allowance limit : ℕ) (db' : MetadataDb) (res : MetadataReservation)
    → reserve_metadata readonly db nonce now scope job allowance limit ≡ ok (db', res)
    → (saved : MetadataState) × (expires : ℕ) × Granted db now scope job allowance limit saved
        expires
      × (db' ≡ reserved_db db (charged_day saved now) scope nonce job allowance now expires)
      × (res ≡ record {
        scope = scope;
        terms = new_terms nonce job (charged_day saved now).day allowance now expires;
      })
unfolding reserve_metadata
reserve_metadata-Granted readonly db nonce now scope job allowance limit db' res e =
    elim (Option-cases (metadata_time now)) [
      | inl bad ↦ ground arith
      | inr ((at, midnight), et) ↦ elim (Result-cases (metadata_read db)) [
        | inr (x, ex) ↦ ground arith
        | inl (saved, es) ↦
            let (_, em, p, _, fits) = metadata_time-some now at midnight et in
            elim (Result-cases (reserve_expiry db scope job now midnight)) [
              | inr (y, ey) ↦ ground arith
              | inl (expires, ee) ↦ (
                saved,
                expires,
                record {
                  positive = p;
                  midnight_fits = omega arith;
                  input = ground arith;
                  read = es;
                  no_rollback = ground arith;
                  next_free = ground arith;
                  startup_free = ground arith;
                  quota = ground arith;
                  expiry = ground arith;
                },
                ground arith,
                ground arith,
              )
            ]
      ]
    ]
