-- ===== src/Credits/Reservations/Cases.antt =====
-- How the operations on reservations end.
use opod_service_backend.Prelude.{
  ℕ, suc, ◌≡◌, refl, true, false, Bool-cases, none, some, Option-cases, ◌⊎◌, inl, inr, ◌∷◌, arith,
  String, ◌&&◌, update, ◌==◌,
}
use opod_service_backend.Database.{Database, ok, Result-cases}
use opod_service_backend.Database.CreditRows.{
  LedgerRow, ReservationRow, ReservationStatus, reserved, captured, released, is_reserved,
  credit_reservation,
}
use opod_service_backend.Credits.Pricing.{action_price}
use opod_service_backend.Credits.Grants.{is_past}
use opod_service_backend.Credits.Balance.{balance_breakdown}
use opod_service_backend.Credits.Spending.{use_credits, is_short}
use opod_service_backend.Credits.Reservations.{
  ReserveInput, reserve_credits, new_reservation, reference_or, find_reservation,
  is_same_reservation, capture_in_tx, capture_reserved, capture_by_status, Capture, with_status,
  release_in_tx,
}

-- The database with a new reservation.
abbrev pub reserved_db : ℕ → String → ReserveInput → Database → Database
reserved_db now reference input db = record db {
  next_id = suc db.next_id;
  reservations = new_reservation now reference input db.next_id ∷ db.reservations;
}

-- The database with another status of the reservation.
abbrev pub status_db : ℕ → ReservationStatus → Database → Database
status_db id s db = record db {
  reservations = update (λ r. r.id == id) (with_status s) db.reservations;
}

abbrev pub released_db : ℕ → Database → Database
released_db id db = record db {
  reservations =
      update (λ r. r.id == id && is_reserved r.status) (with_status released) db.reservations;
}

module _ (now : ℕ) (uuid : String) (input : ReserveInput) (db : Database)
    {r : ReservationRow × Database} where
  pub reserve_credits-eq-ok :
      reserve_credits now uuid input db ≡ ok r
      → ((find_reservation (reference_or uuid input.reference) db ≡ some r.0)
          × (is_same_reservation input r.0 ≡ true)
          × (r.1 ≡ db))
        ⊎ ((find_reservation (reference_or uuid input.reference) db ≡ none)
            × (is_short (balance_breakdown now input.user_id db) (action_price input.action_type)
                ≡ false)
            × (r ≡ (
              new_reservation now (reference_or uuid input.reference) input db.next_id,
              reserved_db now (reference_or uuid input.reference) input db,
            )))
  unfolding reserve_credits
  reserve_credits-eq-ok e =
      elim (Option-cases (find_reservation (reference_or uuid input.reference) db)) [
        | inl k ↦ inr (k, ground arith, ground arith)
        | inr (x, k) ↦ inl (ground arith, ground arith, ground arith)
      ]

-- The three ways in which the capture of a reservation ends without an exception.
pub data Captured (now : ℕ) (db : Database) (r : ReservationRow) (p : Capture × Database)
    : Type 0 where
  already :
      r.status ≡ captured
      → p ≡ (record { expired = false; reservation = r }, db)
      → Captured now db r p
  expires :
      r.status ≡ reserved
      → is_past now r.expires_at ≡ true
      → p ≡ (
        record { expired = true; reservation = with_status released r },
        status_db r.id released db,
      )
      → Captured now db r p
  uses :
      (entry : LedgerRow) (used : Database)
      → r.status ≡ reserved
      → is_past now r.expires_at ≡ false
      → use_credits now r.user_id r.amount r.action_type (some (credit_reservation r.id)) db
        ≡ ok (entry, used)
      → p ≡ (
        record { expired = false; reservation = with_status captured r },
        status_db r.id captured used,
      )
      → Captured now db r p

capture_reserved-eq-ok :
    (now : ℕ) (db : Database) (r : ReservationRow) {p : Capture × Database}
    → r.status ≡ reserved
    → capture_reserved now r db ≡ ok p
    → Captured now db r p
unfolding capture_reserved
capture_reserved-eq-ok now db r {p} s e = elim (Bool-cases (is_past now r.expires_at)) [
  | inl past ↦ expires s past (ground arith)
  | inr open' ↦
      elim (Result-cases
        (use_credits now r.user_id r.amount r.action_type (some (credit_reservation r.id)) db)) [
          | inl ((entry, used), ue) ↦ uses entry used s open' ue (ground arith)
          | inr (f, ue) ↦ ground arith
        ]
]

by_status :
    (s : ReservationStatus) (now : ℕ) (db : Database) (r : ReservationRow) {p : Capture × Database}
    → r.status ≡ s
    → capture_by_status s now r db ≡ ok p
    → Captured now db r p
by_status captured now db r s e = already s (ground arith)
by_status released now db r s e = cc
by_status reserved now db r s e = capture_reserved-eq-ok now db r s e

pub capture_in_tx-eq-ok :
    (now : ℕ) (reference : String) (db : Database) {p : Capture × Database}
    → capture_in_tx now reference db ≡ ok p
    → (r : ReservationRow) × (find_reservation reference db ≡ some r) × Captured now db r p
unfolding capture_in_tx
capture_in_tx-eq-ok now reference db {p} e = elim (Option-cases (find_reservation reference db)) [
  | inl h ↦ ground arith
  | inr (r, h) ↦
      let k : capture_by_status r.status now r db ≡ ok p = rw h at e in
      (r, h, by_status r.status now db r refl k)
]

-- A release changes a reserved row, and returns any other as it is.
pub release_in_tx-eq-ok :
    (reference : String) (db : Database) {p : ReservationRow × Database}
    → release_in_tx reference db ≡ ok p
    → (r : ReservationRow) × (find_reservation reference db ≡ some r)
      × (((is_reserved r.status ≡ false) × (p ≡ (r, db)))
          ⊎ ((is_reserved r.status ≡ true) × ((p.1 ≡ released_db r.id db) ⊎ (p.1 ≡ db))))
unfolding release_in_tx
release_in_tx-eq-ok reference db {p} e = elim (Option-cases (find_reservation reference db)) [
  | inl h ↦ ground arith
  | inr (r, h) ↦ (r, h, ground arith)
]
