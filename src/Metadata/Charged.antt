-- ===== src/Metadata/Charged.antt =====
-- The rows that ReserveMetadata writes (internal/state/metadata_budget.go).
use saga_rydd.Prelude.{
  ℕ, ◌+◌, ◌≤◌, ◌<◌, ◌≡◌, refl, true, false, Option, none, some, List, ok, arith, subst,
}
use saga_rydd.Prelude.Int.{max_int64}
use saga_rydd.Clock.{day_of, day_end, day_ns, metadata_time, metadata_digest}
use saga_rydd.Metadata.Types.{
  MetadataScope, startup, next, other_scope, MetadataRecord, BudgetRow, MetadataDb, MetadataState,
  metadata_reservation_valid,
}
use saga_rydd.Metadata.Operations.{JobClaim, reserve_input_valid, blocks, reserve_expiry, new_terms}
use saga_rydd.Metadata.Sound.{record_fits}
use saga_rydd.Metadata.Reserve.{EarlyEnough, Granted, reserved_record}

-- The budget row after a reservation: on the ledger's day, and on a later day.
abbrev pub grown : BudgetRow → ℕ → ℕ → BudgetRow
grown b now a = record b {
  high_water = now;
  daily_reserved = b.daily_reserved + a;
  total_reserved = b.total_reserved + a;
}

abbrev pub reopened : BudgetRow → ℕ → ℕ → BudgetRow
reopened b now a = record b {
  day = day_of now;
  high_water = now;
  daily_reserved = 0 + a;
  daily_observed = 0;
  daily_unknown = 0;
  total_reserved = b.total_reserved + a;
}

abbrev pub opened : ℕ → ℕ → BudgetRow
opened now a = record {
  started = now;
  day = day_of now;
  high_water = now;
  daily_reserved = 0 + a;
  daily_observed = 0;
  daily_unknown = 0;
  total_reserved = 0 + a;
  total_observed = 0;
  total_unknown = 0;
}

pub fits-later :
    (b b' : BudgetRow) (scope key : MetadataScope) (o : Option MetadataRecord)
    → record_fits b key o ≡ true
    → b'.started ≤ b.started
    → b.high_water ≤ b'.high_water
    → b.day ≤ b'.day
    → blocks scope b'.day key o ≡ false
    → record_fits b' key o ≡ true
unfolding record_fits
fits-later b b' scope key none f s h d k = refl
fits-later b b' scope key (some r) f s h d k = ground arith

time-of :
    (at : ℕ)
    → 0 < at
    → day_end (day_of at) ≤ max_int64
    → metadata_time at ≡ some (at, day_end (day_of at))
unfolding metadata_time day_of day_end
time-of at h m = ground arith

expiry-between :
    (db : MetadataDb) (scope : MetadataScope) (job : Option JobClaim) (now midnight expires : ℕ)
    → now < midnight
    → reserve_expiry db scope job now midnight ≡ ok expires
    → (now < expires) × (expires ≤ midnight)
unfolding reserve_expiry
expiry-between db startup job now m x h e = ground arith
expiry-between db other_scope job now m x h e = ground arith
expiry-between db next none now m x h e = ground arith
expiry-between db next (some j) now m x h e = ground arith

expiry-midnight :
    (db : MetadataDb) (job : Option JobClaim) (now midnight expires : ℕ)
    → reserve_expiry db startup job now midnight ≡ ok expires
    → expires ≡ midnight
unfolding reserve_expiry
expiry-midnight db job now m x e = ground arith

day_end_mono : (a b : ℕ) → a ≤ day_end (day_of b) → day_end (day_of a) ≤ day_end (day_of b) + day_ns
unfolding day_end day_of
day_end_mono a b h = omega arith

now-lt-day_end : (now : ℕ) → now < day_end (day_of now)
unfolding day_end day_of
now-lt-day_end now = omega arith

terms-valid :
    (scope : MetadataScope) (job : Option JobClaim) (nonce : List ℕ)
    (now allowance limit expires : ℕ)
    → metadata_digest nonce 64 ≡ true
    → reserve_input_valid scope job allowance limit ≡ true
    → metadata_time now ≡ some (now, day_end (day_of now))
    → metadata_time expires ≡ some (expires, day_end (day_of expires))
    → now < expires
    → expires ≤ day_end (day_of now)
    → (scope ≡ startup → expires ≡ day_end (day_of now))
    → metadata_reservation_valid scope (new_terms nonce job (day_of now) allowance now expires)
      ≡ true
unfolding metadata_reservation_valid reserve_input_valid
terms-valid startup none nonce now a l x d i t tx h1 h2 m = ground (arith, m refl)
terms-valid startup (some j) nonce now a l x d i t tx h1 h2 m = ground arith
terms-valid next none nonce now a l x d i t tx h1 h2 m = ground arith
terms-valid next (some j) nonce now a l x d i t tx h1 h2 m = ground arith
terms-valid other_scope none nonce now a l x d i t tx h1 h2 m = ground arith
terms-valid other_scope (some j) nonce now a l x d i t tx h1 h2 m = ground arith

-- The new reservation fits every budget row of its day that has not started later.
pub new-fits :
    (b : BudgetRow) (db : MetadataDb) (saved : MetadataState) (nonce : List ℕ) (now : ℕ)
    (scope : MetadataScope) (job : Option JobClaim) (allowance limit expires : ℕ)
    → EarlyEnough now
    → metadata_digest nonce 64 ≡ true
    → Granted db now scope job allowance limit saved expires
    → b.started ≤ now
    → b.high_water ≡ now
    → b.day ≡ day_of now
    → record_fits b scope (some (reserved_record nonce job (day_of now) allowance now expires))
      ≡ true
unfolding record_fits
new-fits b db saved nonce now scope job a l x early dig g st hw d =
    let (h1, h2) =
      expiry-between db scope job now (day_end (day_of now)) x (now-lt-day_end now) g.expiry in
    let far = day_end_mono x now h2 in
    let p = g.positive in
    let v =
      terms-valid scope job nonce now a l x dig g.input (time-of now p g.midnight_fits)
        (time-of x (omega arith) (omega arith)) h1 h2
        (λ is.
          expiry-midnight db job now (day_end (day_of now)) x
            (subst (λ k. reserve_expiry db k job now (day_end (day_of now)) ≡ ok x) is g.expiry)) in
    ground arith
