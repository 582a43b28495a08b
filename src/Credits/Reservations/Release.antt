-- ===== src/Credits/Reservations/Release.antt =====
-- What the end of a reservation frees, and what a release does to the balance.
use opod_service_backend.Prelude.{
  ℕ, ◌+◌, ◌≡◌, ◌≢◌, refl, sym, Bool, true, false, ◌&&◌, some, List, [], ◌∷◌, ◌==◌, ==_refl, first,
  first-All, update, Distinct, arith, String, Bool-cases, inl, inr,
}
use opod_service_backend.Prelude.Int.{ℤ, pos, ◌+ℤ◌, ◌≤ℤ◌, ◌<ℤ◌, int_laws, not_negative, negative}
use opod_service_backend.Database.{Database, ok}
use opod_service_backend.Database.CreditRows.{
  ReservationRow, ReservationStatus, released, is_reserved,
}
use opod_service_backend.Credits.WellFormed.{WellFormed, reservation_id}
use opod_service_backend.Credits.Balance.{
  Balance, balance_breakdown, balance_from, reserved_amount, is_active, grant_state, grants_of,
  locks_of,
}
use opod_service_backend.Credits.Reservations.{
  find_reservation, release_in_tx, with_status, reserved_row,
}
use opod_service_backend.Credits.Reservations.Cases.{released_db}
use opod_service_backend.Credits.Reservations.Held.{reserved_amount-ended}

-- The balance reads the reservations for their sum alone.
pub with_reservations :
    (now user : ℕ) (db : Database) (n : ℕ) (rows : List ReservationRow)
    → balance_breakdown now user (record db { next_id = n; reservations = rows })
      ≡ balance_from
          (balance_breakdown now user db).paid_balance
          (balance_breakdown now user db).free_balance
          (reserved_amount now user rows)
unfolding balance_breakdown grant_state grants_of locks_of
with_reservations now user db n rows = refl

pub own_reservations :
    (now user : ℕ) (db : Database)
    → balance_breakdown now user db
      ≡ balance_from
          (balance_breakdown now user db).paid_balance
          (balance_breakdown now user db).free_balance
          (reserved_amount now user db.reservations)
own_reservations now user db = with_reservations now user db db.next_id db.reservations

-- Fewer reservations make more available, unless the paid balance is negative.
abbrev pub Freed : ℕ → Balance → Balance → Type 0
Freed n before after =
    (after.paid_balance ≡ before.paid_balance)
    × (after.free_balance ≡ before.free_balance)
    × (pos 0 ≤ℤ before.paid_balance → after.available_balance ≡ before.available_balance +ℤ pos n)
    × (before.paid_balance <ℤ pos 0 → after.available_balance ≡ before.available_balance)

freed : (p f : ℤ) (m n k : ℕ) → n + k ≡ m → Freed k (balance_from p f m) (balance_from p f n)
freed p f m n k e =
    (refl, refl, (λ h. rw (not_negative p h) (omega (int_laws, e))), (λ h. rw (negative p h)))

to-Freed :
    (k m n : ℕ) {p f : ℤ} {b b' : Balance}
    → b ≡ balance_from p f m
    → b' ≡ balance_from p f n
    → n + k ≡ m
    → Freed k b b'
to-Freed k m n {p} {f} e e' h = rw (e, e') (freed p f m n k h)

first-row :
    (p q : ReservationRow → Bool) (r : ReservationRow) (rows : List ReservationRow)
    → q r ≡ true
    → ((t : ReservationRow) → t.id ≢ r.id → q t ≡ false)
    → Distinct reservation_id rows
    → first p rows ≡ some r
    → first q rows ≡ some r
first-row p q r [] hit miss d e = cc
first-row p q r (t ∷ rows) hit miss d e = elim (Bool-cases (p t)) [
  | inl found ↦ let same : t ≡ r = ground arith in rw (same, hit)
  | inr other ↦
      let later : first p rows ≡ some r = rw other at e in
      let ne = (first-All (λ u. u.id ≢ t.id) p rows r d.0 later).0 in
      rw (miss t (λ k. ne (sym k))) (first-row p q r rows hit miss d.1 later)
]

module _ (now : ℕ) (reference : String) {db : Database} (v : WellFormed db) (r : ReservationRow)
    (found : find_reservation reference db ≡ some r) where
  -- A release of a reserved reservation succeeds, and ends it.
  pub release_in_tx_lem :
      is_reserved r.status ≡ true
      → release_in_tx reference db ≡ ok (with_status released r, released_db r.id db)
  unfolding release_in_tx
  release_in_tx_lem open' =
      let row : reserved_row r.id db ≡ some r =
        first-row _ (λ q. q.id == r.id && is_reserved q.status) r db.reservations
          (rw (==_refl r.id) open') (λ t ne. ground arith) v.reservations_distinct found in
      ground arith

  pub ended-Freed :
      (p : ReservationRow → Bool) (s : ReservationStatus)
      → p r ≡ true
      → ((q : ReservationRow) → q.id ≢ r.id → p q ≡ false)
      → is_reserved s ≡ false
      → is_active now r ≡ true
      → Freed r.amount (balance_breakdown now r.user_id db) (
          balance_breakdown now r.user_id
            (record db { reservations = update p (with_status s) db.reservations }))
  ended-Freed p s hit miss ended active =
      to-Freed _ _ _ (own_reservations now r.user_id db)
        (with_reservations now r.user_id db db.next_id (update p (with_status s) db.reservations))
        (ground (
          arith,
          active,
          reserved_amount-ended now r.user_id p s r hit miss ended reference db.reservations
              v.reservations_distinct found,
        ))

  -- On well-formed tables, a release of an active reservation of a user whose paid balance is not
  -- negative succeeds and gives its amount back to the available balance; the paid and the free
  -- balance stay.
  pub release_frees :
      is_active now r ≡ true
      → pos 0 ≤ℤ (balance_breakdown now r.user_id db).paid_balance
      → let b = balance_breakdown now r.user_id db in
        let b' = balance_breakdown now r.user_id (released_db r.id db) in
        (release_in_tx reference db ≡ ok (with_status released r, released_db r.id db))
        × (b'.available_balance ≡ b.available_balance +ℤ pos r.amount)
        × (b'.paid_balance ≡ b.paid_balance)
        × (b'.free_balance ≡ b.free_balance)
  release_frees active no_debt =
      let f =
        ended-Freed (λ q. q.id == r.id && is_reserved q.status) released (ground arith)
          (λ t ne. ground arith) refl active in
      (release_in_tx_lem (ground arith), f.2 no_debt, f.0, f.1)
