-- ===== src/Credits/Reservations/Held.antt =====
-- How the sum of a user's active reservations changes with one reservation.
use opod_service_backend.Prelude.{
  ℕ, ◌+◌, ◌≡◌, ◌≢◌, refl, sym, Bool, true, false, ◌&&◌, some, List, [], ◌∷◌, ◌==◌, first, first-All,
  update, Distinct, Differs, arith, String, if◌then◌else◌, Bool-cases, inl, inr,
}
use opod_service_backend.Prelude.Text.{str_eq}
use opod_service_backend.Database.CreditRows.{ReservationRow, ReservationStatus, is_reserved}
use opod_service_backend.Credits.Balance.{is_active, reserved_amount}
use opod_service_backend.Credits.WellFormed.{reservation_id}
use opod_service_backend.Credits.Reservations.{with_status}

abbrev counts : ℕ → ℕ → ReservationRow → ℕ
counts now user r = if r.user_id == user && is_active now r then r.amount else 0

pub reserved_amount-cons :
    (now user : ℕ) (r : ReservationRow) (rows : List ReservationRow)
    → reserved_amount now user (r ∷ rows) ≡ counts now user r + reserved_amount now user rows
unfolding reserved_amount
reserved_amount-cons now user r rows = ground arith

-- A change of rows that match none.
update-absent :
    (p : ReservationRow → Bool) (f : ReservationRow → ReservationRow) (i : ℕ)
    (rows : List ReservationRow)
    → ((q : ReservationRow) → q.id ≢ i → p q ≡ false)
    → Differs reservation_id i rows
    → update p f rows ≡ rows
update-absent p f i [] none h = refl
update-absent p f i (q ∷ rows) none h = rw (none q h.0, update-absent p f i rows none h.1)

module _ (now user : ℕ) (p : ReservationRow → Bool) (s : ReservationStatus) (r : ReservationRow)
    (hit : p r ≡ true) (miss : (q : ReservationRow) → q.id ≢ r.id → p q ≡ false)
    (ended : is_reserved s ≡ false) where
  head-ended :
      (rows : List ReservationRow)
      → Differs reservation_id r.id rows
      → reserved_amount now user (update p (with_status s) (r ∷ rows)) + counts now user r
        ≡ reserved_amount now user (r ∷ rows)
  head-ended rows d =
      rw (hit, update-absent p (with_status s) r.id rows miss d)
        (ground (
          arith,
          reserved_amount-cons now user r rows,
          reserved_amount-cons now user (with_status s r) rows,
        ))

  -- Ending the reservation that a reference finds takes it off the sum.
  pub reserved_amount-ended :
      (reference : String) (rows : List ReservationRow)
      → Distinct reservation_id rows
      → first (λ q. str_eq q.reference reference) rows ≡ some r
      → reserved_amount now user (update p (with_status s) rows) + counts now user r
        ≡ reserved_amount now user rows
  reserved_amount-ended reference [] d e = cc
  reserved_amount-ended reference (q ∷ rows) d e =
      elim (Bool-cases (str_eq q.reference reference)) [
        | inl found ↦ let same : q ≡ r = ground arith in rw same (head-ended rows (rw same at d.0))
        | inr other ↦
            let later : first (λ t. str_eq t.reference reference) rows ≡ some r = rw other at e in
            let ne =
              (first-All (λ t. t.id ≢ q.id) (λ t. str_eq t.reference reference) rows r d.0
                later).0 in
            rw (miss q (λ k. ne (sym k))) (
              ground (
                arith,
                reserved_amount-cons now user q rows,
                reserved_amount-cons now user q (update p (with_status s) rows),
                reserved_amount-ended reference rows d.1 later,
              ))
      ]
