-- ===== src/Metadata/Settled.antt =====
-- SettleMetadata and its retry (internal/state/metadata_budget.go) against the reader.
use saga_rydd.Prelude.{
  ℕ, ◌≤◌, ◌≡◌, refl, Bool, true, none, some, ok, arith, ◌⊎◌, inl, inr, Result-cases, Option-cases,
  subst, ap, sym, ◌∙◌,
}
use saga_rydd.Clock.{metadata_time}
use saga_rydd.Metadata.Types.{
  MetadataScope, startup, next, other_scope, reserved, settled, Terms, MetadataRecord,
  MetadataReservation, MetadataDb, MetadataState, metadata_reservation_valid,
}
use saga_rydd.Metadata.Read.{metadata_read}
use saga_rydd.Metadata.Operations.{metadata_writer, save_record}
use saga_rydd.Metadata.Operations.{
  settle_metadata, settle_record, matching_record, record_of, charge_observed,
}
use saga_rydd.Metadata.Sound.{state_of, read-Readable, Readable-read}
use saga_rydd.Metadata.Types.{metadata_same}
use saga_rydd.Metadata.Settle.{noted, settled_record, settled-Readable}

-- The facts that a successful settlement rests on.
record Settling (db db' : MetadataDb) (res : MetadataReservation) (seen now : ℕ) : Type 0 where
  saved : MetadataState
  found : MetadataRecord
  read : metadata_read db ≡ ok saved
  at_key : record_of db res.scope ≡ some found
  same : metadata_same found.terms res.terms ≡ true
  within_allowance : seen ≤ res.terms.allowance
  valid : metadata_reservation_valid res.scope res.terms ≡ true
  outcome :
      ((found.status ≡ reserved)
        × (db'
            ≡ save_record db
                (charge_observed saved now seen)
                res.scope
                (settled_record found seen)))
      ⊎ ((db' ≡ db) × (found.status ≡ settled) × (found.observed ≡ some seen))

record_settled :
    (db db' : MetadataDb) (s : MetadataState) (scope : MetadataScope) (r : MetadataRecord)
    (seen now : ℕ)
    → settle_record db s scope r seen now ≡ ok db'
    → ((r.status ≡ reserved)
        × (db' ≡ save_record db (charge_observed s now seen) scope (settled_record r seen)))
      ⊎ ((db' ≡ db) × (r.status ≡ settled) × (r.observed ≡ some seen))
unfolding settle_record
record_settled db db' s scope r seen now e = ground arith

settle_metadata-Settling :
    (readonly : Bool) (db db' : MetadataDb) (res : MetadataReservation) (seen now : ℕ)
    → settle_metadata readonly db res seen now ≡ ok db'
    → Settling db db' res seen now
unfolding settle_metadata matching_record
settle_metadata-Settling readonly db db' res seen now e = elim (Option-cases (metadata_time now)) [
  | inl bad ↦ ground arith
  | inr ((at, midnight), et) ↦ elim (Result-cases (metadata_read db)) [
    | inr (x, ex) ↦ ground arith
    | inl (saved, es) ↦ elim (Option-cases (record_of db res.scope)) [
      | inl eo ↦ ground arith
      | inr (r, er) ↦ record {
        saved = saved;
        found = r;
        read = es;
        at_key = er;
        same = ground arith;
        within_allowance = ground arith;
        valid = ground arith;
        outcome = record_settled db db' saved res.scope r seen now (ground arith);
      }
    ]
  ]
]

same-allowance : (a b : Terms) → metadata_same a b ≡ true → a.allowance ≡ b.allowance
unfolding metadata_same
same-allowance a b h = ground arith

no-rows :
    (db : MetadataDb) (saved : MetadataState) (scope : MetadataScope) (r : MetadataRecord)
    → db.budget ≡ none
    → metadata_read db ≡ ok saved
    → record_of db scope ≡ some r
    → ⊥
unfolding metadata_read
no-rows db saved startup r eb e er = ground arith
no-rows db saved next r eb e er = ground arith
no-rows db saved other_scope r eb e er = ground arith

saved-record :
    (db : MetadataDb) (s : MetadataState) (scope : MetadataScope) (r r' : MetadataRecord)
    → record_of db scope ≡ some r'
    → record_of (save_record db s scope r) scope ≡ some r
saved-record db s startup r r' e = refl
saved-record db s next r r' e = refl
saved-record db s other_scope r r' e = ground arith

settle-again :
    (readonly : Bool) (db : MetadataDb) (res : MetadataReservation) (seen now : ℕ)
    (after : MetadataState) (r : MetadataRecord) (p : ℕ × ℕ)
    → metadata_read db ≡ ok after
    → record_of db res.scope ≡ some r
    → metadata_same r.terms res.terms ≡ true
    → r.status ≡ settled
    → r.observed ≡ some seen
    → metadata_reservation_valid res.scope res.terms ≡ true
    → seen ≤ res.terms.allowance
    → metadata_writer readonly db.schema ≡ ok tt
    → metadata_time now ≡ some p
    → settle_metadata readonly db res seen now ≡ ok db
unfolding settle_metadata matching_record settle_record
settle-again readonly db res seen now after r p e1 e2 e3 e4 e5 e6 e7 e8 e9 = ground arith

writer-ok :
    (readonly : Bool) (db db' : MetadataDb) (res : MetadataReservation) (seen now : ℕ)
    → settle_metadata readonly db res seen now ≡ ok db'
    → metadata_writer readonly db.schema ≡ ok tt
unfolding settle_metadata metadata_writer
writer-ok readonly db db' res seen now e = ground arith

saved-schema :
    (db : MetadataDb) (s : MetadataState) (scope : MetadataScope) (r : MetadataRecord)
    → (save_record db s scope r).schema ≡ db.schema
saved-schema db s startup r = refl
saved-schema db s next r = refl
saved-schema db s other_scope r = refl

-- A successful SettleMetadata leaves a ledger that the reader accepts, in which no charge has been
-- refunded (the reserved totals of the day and of all days are what they were), and repeating the call
-- at any instant with a valid clock succeeds and changes nothing.
pub settle_metadata_settled :
    (readonly : Bool) (db db' : MetadataDb) (res : MetadataReservation) (seen now again : ℕ)
    (p : ℕ × ℕ)
    → settle_metadata readonly db res seen now ≡ ok db'
    → metadata_time again ≡ some p
    → (saved : MetadataState) × (after : MetadataState) × (metadata_read db ≡ ok saved)
      × (metadata_read db' ≡ ok after)
      × (after.total.reserved_attempts ≡ saved.total.reserved_attempts)
      × (after.daily.reserved_attempts ≡ saved.daily.reserved_attempts)
      × (settle_metadata readonly db' res seen again ≡ ok db')
settle_metadata_settled readonly db db' res seen now again p e t =
    let f = settle_metadata-Settling readonly db db' res seen now e in
    let w = writer-ok readonly db db' res seen now e in
    let r = f.found in
    elim f.outcome [
      | inr (ed, st, eo) ↦ (
        f.saved,
        f.saved,
        f.read,
        subst (λ d. metadata_read d ≡ ok f.saved) (sym ed) f.read,
        refl,
        refl,
        subst (λ d. settle_metadata readonly d res seen again ≡ ok d) (sym ed)
            (settle-again readonly db res seen again f.saved f.found p f.read f.at_key f.same st eo
              f.valid f.within_allowance w t),
      )
      | inl (st, ed) ↦ elim (Option-cases db.budget) [
        | inl eb ↦ elim (no-rows db f.saved res.scope f.found eb f.read f.at_key) [ ]
        | inr (b, eb) ↦
            let (k, es) = read-Readable db b f.saved eb f.read in
            let le : seen ≤ f.found.terms.allowance =
              subst (λ a. seen ≤ a) (sym (same-allowance f.found.terms res.terms f.same))
                f.within_allowance in
            let old = state_of b db.next_record db.startup_record in
            let new : MetadataDb =
              save_record db
                (charge_observed (state_of b db.next_record db.startup_record) now seen) res.scope
                (settled_record f.found seen) in
            let ed' : db' ≡ new =
              ed
              ∙ ap
                  (λ s.
                    save_record db (charge_observed s now seen) res.scope
                      (settled_record f.found seen))
                  es in
            let k' = settled-Readable db b res.scope f.found seen now k f.at_key st le in
            let rd = Readable-read new (noted b now seen) k' in
            let after = state_of (noted b now seen) new.next_record new.startup_record in
            (
              f.saved,
              state_of (noted b now seen) new.next_record new.startup_record,
              f.read,
              subst
                  (λ d.
                    metadata_read d
                    ≡ ok (state_of (noted b now seen) new.next_record new.startup_record))
                  (sym ed') rd,
              sym (ap (λ s. s.total.reserved_attempts) es),
              sym (ap (λ s. s.daily.reserved_attempts) es),
              subst (λ d. settle_metadata readonly d res seen again ≡ ok d) (sym ed')
                  (settle-again readonly new res seen again
                    (state_of (noted b now seen) new.next_record new.startup_record)
                    (settled_record f.found seen) p rd
                    (saved-record db (charge_observed old now seen) res.scope
                      (settled_record f.found seen) f.found f.at_key)
                    f.same refl refl f.valid f.within_allowance
                    (subst (λ n. metadata_writer readonly n ≡ ok tt)
                      (sym (
                        saved-schema db (charge_observed old now seen) res.scope
                          (settled_record f.found seen)))
                      w)
                    t),
            )
      ]
    ]
