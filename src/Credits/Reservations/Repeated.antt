-- ===== src/Credits/Reservations/Repeated.antt =====
-- Reserving, capturing and releasing a second time.
use opod_service_backend.Prelude.{
  ℕ, ◌≡◌, refl, sym, ap, ◌∙◌, Bool, true, false, some, List, [], ◌∷◌, ◌==◌, ==_refl, ◌&&◌, first,
  update, arith, String, Bool-cases, inl, inr,
}
use opod_service_backend.Prelude.Text.{str_eq, eq_refl, trim, non_empty}
use opod_service_backend.Database.{Database, Tx, transaction, ◌>>=◌, ok, err, conflict}
use opod_service_backend.Database.CreditRows.{
  LedgerRow, ReservationRow, ReservationStatus, captured, released, reserved, is_reserved,
  credit_reservation,
}
use opod_service_backend.Credits.WellFormed.{WellFormed}
use opod_service_backend.Credits.Pricing.{action_name, action_price}
use opod_service_backend.Credits.Spending.Effect.{use_credits-eq-ok}
use opod_service_backend.Credits.Reservations.{
  ReserveInput, reserve_credits, reference_or, find_reservation, Capture, capture_in_tx,
  capture_by_status, capture_reservation, capture_with_client, capture_reserved, release_in_tx,
  with_status,
}
use opod_service_backend.Credits.Grants.{is_past}
use opod_service_backend.Credits.Reservations.Release.{release_in_tx_lem}
use opod_service_backend.Credits.Reservations.Cases.{
  reserve_credits-eq-ok, capture_in_tx-eq-ok, Captured, already, expires, uses, status_db,
  released_db,
}

-- The row that a reference finds, after a change of its status.
first-update :
    (p q : ReservationRow → Bool) (s : ReservationStatus) (r : ReservationRow)
    (rows : List ReservationRow)
    → ((t : ReservationRow) → p (with_status s t) ≡ p t)
    → q r ≡ true
    → first p rows ≡ some r
    → first p (update q (with_status s) rows) ≡ some (with_status s r)
first-update p q s r [] keeps hit e = cc
first-update p q s r (t ∷ rows) keeps hit e = elim (Bool-cases (p t)) [
  | inl found ↦
      let same : t ≡ r = ground arith in
      let found' : p r ≡ true = rw same at found in rw (same, hit, keeps r, found')
  | inr other ↦
      let later : first p rows ≡ some r = rw other at e in
      let ih = first-update p q s r rows keeps hit later in
      elim (Bool-cases (q t)) [ inl h ↦ rw (h, keeps t, other) ih | inr h ↦ rw (h, other) ih ]
]

-- After a capture that was not too late, its reference finds the row that it returned, captured.
pub captured_row :
    (now : ℕ) (reference : String) (db : Database) (p : Capture × Database)
    → capture_in_tx now reference db ≡ ok p
    → p.0.expired ≡ false
    → (find_reservation reference p.1 ≡ some p.0.reservation) × (p.0.reservation.status ≡ captured)
captured_row now reference db p e open' =
    let (r, found, how) = capture_in_tx-eq-ok now reference db e in of_how r found how
  where
    of_how :
        (r : ReservationRow)
        → find_reservation reference db ≡ some r
        → Captured now db r p
        → (find_reservation reference p.1 ≡ some p.0.reservation)
          × (p.0.reservation.status ≡ captured)
    of_how r found (already s same) = rw same (found, s)
    of_how r found (expires s past same) = ground arith
    of_how r found (uses entry used s past ue same) =
        let k =
          ap (λ (t : LedgerRow × Database). t.1)
            (use_credits-eq-ok now r.user_id r.amount r.action_type (some (credit_reservation r.id))
              db ue).1 in
        rw (same, k)
          (
            first-update (λ q. str_eq q.reference reference) (λ q. q.id == r.id) captured r
                db.reservations (λ t. refl) (==_refl r.id) found,
            refl,
          )

by_captured :
    (s : ReservationStatus) (now : ℕ) (r : ReservationRow) (db : Database)
    → s ≡ captured
    → capture_by_status s now r db ≡ ok (record { expired = false; reservation = r }, db)
by_captured s now r db e = rw e refl

-- A capture that was not too late is final: another one, at whatever time, returns the same
-- reservation and changes nothing.
pub capture_again :
    (now later : ℕ) (reference : String) (db : Database) (p : Capture × Database)
    → capture_in_tx now reference db ≡ ok p
    → p.0.expired ≡ false
    → capture_in_tx later reference p.1 ≡ ok p
unfolding capture_in_tx
capture_again now later reference db p e open' =
    let (found, s) = captured_row now reference db p e open' in
    rw found (
      by_captured p.0.reservation.status later p.0.reservation p.1 s
      ∙ ap (λ b. ok (record { expired = b; reservation = p.0.reservation }, p.1)) (sym open'))

-- A capture that was not too late stands: a release after it returns the captured reservation and
-- changes nothing.
pub release_after_capture :
    (now : ℕ) (reference : String) (db : Database) (p : Capture × Database)
    → capture_in_tx now reference db ≡ ok p
    → p.0.expired ≡ false
    → (p.0.reservation.status ≡ captured)
      × (release_in_tx reference p.1 ≡ ok (p.0.reservation, p.1))
unfolding release_in_tx
release_after_capture now reference db p e open' =
    let (found, s) = captured_row now reference db p e open' in (s, rw (found, s))

module _ (reference : String) {db : Database} (v : WellFormed db) (r : ReservationRow)
    (found : find_reservation reference db ≡ some r) where
  pub found_released :
      is_reserved r.status ≡ true
      → find_reservation reference (released_db r.id db) ≡ some (with_status released r)
  found_released open' =
      first-update (λ q. str_eq q.reference reference) (λ q. q.id == r.id && is_reserved q.status)
        released r db.reservations (λ t. refl) (rw (==_refl r.id) open') found

  -- On well-formed tables, a release of an open reservation is final: another one returns the same
  -- reservation and changes nothing, and a capture is refused.
  pub release_is_final :
      (now : ℕ)
      → is_reserved r.status ≡ true
      → let db' = released_db r.id db in
        (release_in_tx reference db ≡ ok (with_status released r, db'))
        × (release_in_tx reference db' ≡ ok (with_status released r, db'))
        × (capture_in_tx now reference db' ≡ err (conflict "Credit reservation was released"))
  unfolding release_in_tx capture_in_tx
  release_is_final now open' = (
    release_in_tx_lem now reference v r found open',
    rw (found_released open'),
    rw (found_released open'),
  )

-- A capture that comes too late, in a transaction of its own, is refused and releases the
-- reservation for good: a release after it returns the released reservation and changes nothing, and
-- a capture after it, at whatever time, is refused. In a caller's transaction, whatever else that
-- does after it, the refusal undoes it all.
pub capture_expired :
    (now later : ℕ) (reference : String) (db : Database) (r : ReservationRow)
    (next : ReservationRow → Tx ReservationRow)
    → non_empty (trim reference) ≡ true
    → find_reservation (trim reference) db ≡ some r
    → r.status ≡ reserved
    → is_past now r.expires_at ≡ true
    → let db' = status_db r.id released db in
      (capture_reservation now reference db ≡ (err (conflict "Credit reservation expired"), db'))
      × (release_in_tx (trim reference) db' ≡ ok (with_status released r, db'))
      × (capture_reservation later reference db'
          ≡ (err (conflict "Credit reservation was released"), db'))
      × (transaction (capture_with_client now reference >>= next) db
          ≡ (err (conflict "Credit reservation expired"), db))
unfolding capture_reservation capture_with_client capture_in_tx capture_reserved release_in_tx
capture_expired now later reference db r next named found s past =
    let refound : find_reservation (trim reference) (status_db r.id released db)
        ≡ some (with_status released r) =
      first-update (λ q. str_eq q.reference (trim reference)) (λ q. q.id == r.id) released r
        db.reservations (λ t. refl) (==_refl r.id) found in
    (ground arith, rw refound refl, ground arith, ground arith)

-- A request repeated under its reference returns the same reservation and changes nothing.
pub reserve_again :
    (now later : ℕ) (uuid uuid' : String) (input : ReserveInput) (db : Database)
    (p : ReservationRow × Database)
    → reference_or uuid' input.reference ≡ reference_or uuid input.reference
    → reserve_credits now uuid input db ≡ ok p
    → reserve_credits later uuid' input p.1 ≡ ok p
unfolding reserve_credits
reserve_again now later uuid uuid' input db p same_reference e =
    elim (reserve_credits-eq-ok now uuid input db e) [
      | inl (old, match, same) ↦ rw (same_reference, same, old, match) (ground arith)
      | inr (fresh, _, made) ↦
          rw (same_reference, made, eq_refl)
            (ground (
              arith,
              eq_refl (action_name input.action_type),
              ==_refl input.user_id,
              ==_refl (action_price input.action_type),
            ))
    ]
