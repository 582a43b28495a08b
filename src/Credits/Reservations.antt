-- ===== src/Credits/Reservations.antt =====
-- Reservations (credits/credits.service.ts): reserve, capture, release. The advisory lock on the
-- user serialises the transactions, so the read after it sees the row that the read before it saw.
pub mod Cases
pub mod Held
pub mod Release
pub mod Settle
pub mod Reserve
pub mod Repeated
use opod_service_backend.Prelude.{
  ℕ, ◌+◌, Bool, true, false, not, ◌&&◌, Option, none, some, ◌∷◌, String, ◌==◌, first, update,
  if◌then◌else◌, get_or,
}
use opod_service_backend.Prelude.Text.{trim, non_empty, str_eq}
use opod_service_backend.Database.{
  Database, Tx, Result, ok, err, bad_request, conflict, insufficient_credits, return, throw, reads,
  modify, new_id, throw_if, or_throw, transaction, ◌>>=◌, ◌>>◌,
}
use opod_service_backend.Database.CreditRows.{
  ReservationRow, ReservationStatus, reserved, captured, released, is_reserved, credit_reservation,
}
use opod_service_backend.Credits.Pricing.{
  CreditActionType, action_price, action_name, reservation_ttl_ms,
}
use opod_service_backend.Credits.Grants.{is_past}
use opod_service_backend.Credits.Balance.{balance_breakdown}
use opod_service_backend.Credits.Spending.{use_credits, is_short}

-- `findReservation`
abbrev pub find_reservation : String → Database → Option ReservationRow
find_reservation reference db = first (λ r. str_eq r.reference reference) db.reservations

-- `findReservationById`
abbrev pub find_reservation_by_id : ℕ → Database → Option ReservationRow
find_reservation_by_id id db = first (λ r. r.id == id) db.reservations

pub record ReserveInput : Type 0 where
  pub user_id : ℕ
  pub action_type : CreditActionType
  pub reference : Option String
  -- `undefined` is `none`, and `null` is `some none`
  pub expires_at : Option (Option ℕ)

-- `input.reference?.trim() || crypto.randomUUID()`
abbrev pub reference_or : String → Option String → String
reference_or uuid none = uuid
reference_or uuid (some s) = if non_empty (trim s) then trim s else uuid

abbrev pub is_same_reservation : ReserveInput → ReservationRow → Bool
is_same_reservation input r =
    r.user_id == input.user_id
    && str_eq r.action_type (action_name input.action_type)
    && r.amount == action_price input.action_type

abbrev pub new_reservation : ℕ → String → ReserveInput → ℕ → ReservationRow
new_reservation now reference input id = record {
  id = id;
  user_id = input.user_id;
  action_type = action_name input.action_type;
  amount = action_price input.action_type;
  status = reserved;
  reference = reference;
  expires_at = get_or input.expires_at (some (now + reservation_ttl_ms));
  created_at = now;
}

-- A reservation for an unused reference.
unfoldable pub reserve_new : ℕ → String → ReserveInput → Tx ReservationRow
reserve_new now reference input = do
  balance ← reads (balance_breakdown now input.user_id)
  throw_if (is_short balance (action_price input.action_type)) insufficient_credits
  id ← new_id
  modify (λ d. record d { reservations = new_reservation now reference input id ∷ d.reservations })
  return (new_reservation now reference input id)

-- `reserveCredits`; `uuid` is what `crypto.randomUUID` returns.
unfoldable pub reserve_credits : ℕ → String → ReserveInput → Tx ReservationRow
unfolding reserve_new
reserve_credits now uuid input = do
  let reference = reference_or uuid input.reference
  existing ← reads (find_reservation reference)
  elim existing [
    | some r ↦ do
      throw_if (not (is_same_reservation input r))
          (conflict "Credit reservation reference conflict")
      return r
    | none ↦ reserve_new now reference input
  ]

abbrev pub with_status : ReservationStatus → ReservationRow → ReservationRow
with_status s r = record r { status = s }

-- `update(creditReservations).set({ status }).where(eq(id))`
abbrev pub set_status : ℕ → ReservationStatus → Tx (Unit {0})
set_status id s =
    modify λ d. record d { reservations = update (λ r. r.id == id) (with_status s) d.reservations }

pub record Capture : Type 0 where
  pub expired : Bool
  pub reservation : ReservationRow

-- The part of a capture that runs on a reservation in the state `reserved`.
unfoldable pub capture_reserved : ℕ → ReservationRow → Tx Capture
capture_reserved now r =
    if is_past now r.expires_at
    then (do
      set_status r.id released
      return (record { expired = true; reservation = with_status released r }))
    else (do
      use_credits now r.user_id r.amount r.action_type (some (credit_reservation r.id))
      set_status r.id captured
      return (record { expired = false; reservation = with_status captured r }))

abbrev pub capture_by_status : ReservationStatus → ℕ → ReservationRow → Tx Capture
capture_by_status captured now r = return (record { expired = false; reservation = r })
capture_by_status released now r = throw (conflict "Credit reservation was released")
capture_by_status reserved now r = capture_reserved now r

-- `captureReservationInTx`
unfoldable pub capture_in_tx : ℕ → String → Tx Capture
capture_in_tx now reference = do
  found ← reads (find_reservation reference)
  r ← or_throw found (bad_request "Credit reservation not found")
  capture_by_status r.status now r

-- `requireReference`
abbrev pub require_reference : String → Tx String
require_reference reference = do
  throw_if (not (non_empty (trim reference)))
      (bad_request "Credit reservation reference is required")
  return (trim reference)

abbrev pub check_expiry : Capture → Tx ReservationRow
check_expiry c = do throw_if c.expired (conflict "Credit reservation expired"); return c.reservation

-- `captureReservationWithClient`: in the caller's transaction, which the exception undoes.
unfoldable pub capture_with_client : ℕ → String → Tx ReservationRow
capture_with_client now reference = do
  trimmed ← require_reference reference
  check_expiry (← capture_in_tx now trimmed)

-- `captureReservation`: in a transaction of its own, which commits before the expiry is reported.
unfoldable pub capture_reservation : ℕ → String → Database → Result ReservationRow × Database
capture_reservation now reference db =
    let (result, db') =
      transaction (do trimmed ← require_reference reference; capture_in_tx now trimmed) db in
    (
      elim result [
        | ok c ↦ if c.expired then err (conflict "Credit reservation expired") else ok c.reservation
        | err e ↦ err e
      ],
      db',
    )

-- The row that `update … where(id, status = "reserved").returning()` changes, if there is one.
abbrev pub reserved_row : ℕ → Database → Option ReservationRow
reserved_row id db = first (λ r. r.id == id && is_reserved r.status) db.reservations

-- The conditional update of a release, and the second read if it changed nothing.
unfoldable pub release_reserved : ℕ → Tx ReservationRow
release_reserved id = do
  changed ← reads (reserved_row id)
  elim changed [
    | some r ↦ do
      modify (λ d. record d {
        reservations =
            update (λ r. r.id == id && is_reserved r.status) (with_status released) d.reservations;
      })
      return (with_status released r)
    | none ↦ do
      current ← reads (find_reservation_by_id id)
      or_throw current (bad_request "Credit reservation not found")
  ]

-- `releaseReservationInTx`, which `releaseReservation` and `releaseReservationWithClient` run.
unfoldable pub release_in_tx : String → Tx ReservationRow
unfolding release_reserved
release_in_tx reference = do
  found ← reads (find_reservation reference)
  r ← or_throw found (bad_request "Credit reservation not found")
  if is_reserved r.status then release_reserved r.id else return r
