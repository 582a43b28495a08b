-- ===== src/Tests/Reservations.antt =====
-- Reservations on the small database.
use opod_service_backend.Prelude.{◌≡◌, refl, none, some, arith, false}
use opod_service_backend.Prelude.Int.{pos, ◌+ℤ◌, ◌-ℤ◌, ◌≤ℤ◌, ltb_ℤ}
use opod_service_backend.Prelude.Text.{trim}
use opod_service_backend.Database.{Database, transaction, return, ◌>>=◌, ok, err, conflict}
use opod_service_backend.Database.CreditRows.{captured, released, credit_reservation}
use opod_service_backend.Credits.Pricing.{chat_reply}
use opod_service_backend.Credits.Ledger.{insert_ledger}
use opod_service_backend.Credits.Balance.{balance_breakdown}
use opod_service_backend.Credits.Allocation.{allocation, allocate, allocate_usage}
use opod_service_backend.Credits.Spending.{use_credits}
use opod_service_backend.Credits.Spending.Effect.{used_now}
use opod_service_backend.Credits.Reservations.{
  ReserveInput, reserve_credits, new_reservation, Capture, capture_in_tx, capture_reserved,
  capture_reservation, capture_with_client, release_in_tx, with_status,
}
use opod_service_backend.Credits.Reservations.Cases.{status_db, released_db, reserved_db}
use opod_service_backend.Credits.Reservations.Release.{release_frees}
use opod_service_backend.Credits.Reservations.Settle.{capture_keeps_available}
use opod_service_backend.Credits.Reservations.Reserve.{reserve_takes}
use opod_service_backend.Credits.Reservations.Repeated.{
  capture_again, release_after_capture, release_is_final, capture_expired, reserve_again,
}
use opod_service_backend.Tests.Data.{sample, sample-WellFormed, open_reservation}
use opod_service_backend.Tests.Spending.{evaluated}

abbrev capture_result : Capture
capture_result = record { expired = false; reservation = with_status captured open_reservation }

abbrev captured_db : Database
captured_db =
    status_db 2 captured (used_now 100 1 2 "chat_reply" (some (credit_reservation 2)) sample)

captures : capture_in_tx 100 "r1" sample ≡ ok (capture_result, captured_db)
unfolding capture_in_tx capture_reserved evaluated use_credits allocate_usage allocation allocate
    insert_ledger
captures = refl

capture_keeps_available_example :
    let b = balance_breakdown 100 1 sample in
    let b' = balance_breakdown 100 1 captured_db in
    (b'.available_balance ≡ b.available_balance)
    × (ltb_ℤ b'.paid_balance (pos 0) ≡ ltb_ℤ b.paid_balance (pos 0))
capture_keeps_available_example =
    capture_keeps_available 100 sample-WellFormed "r1" open_reservation refl
      (capture_result, captured_db) refl captures

capture_again_example : capture_in_tx 9000 "r1" captured_db ≡ ok (capture_result, captured_db)
capture_again_example =
    capture_again 100 9000 "r1" sample (capture_result, captured_db) captures refl

release_after_capture_example :
    (captured ≡ captured)
    × (release_in_tx "r1" captured_db ≡ ok (with_status captured open_reservation, captured_db))
release_after_capture_example =
    release_after_capture 100 "r1" sample (capture_result, captured_db) captures refl

not_negative_now : pos 0 ≤ℤ (balance_breakdown 100 1 sample).paid_balance
unfolding evaluated
not_negative_now = omega arith

release_frees_example :
    let b = balance_breakdown 100 1 sample in
    let b' = balance_breakdown 100 1 (released_db 2 sample) in
    (release_in_tx "r1" sample ≡ ok (with_status released open_reservation, released_db 2 sample))
    × (b'.available_balance ≡ b.available_balance +ℤ pos 2)
    × (b'.paid_balance ≡ b.paid_balance)
    × (b'.free_balance ≡ b.free_balance)
release_frees_example =
    release_frees 100 "r1" sample-WellFormed open_reservation refl refl not_negative_now

release_is_final_example :
    let db' = released_db 2 sample in
    (release_in_tx "r1" sample ≡ ok (with_status released open_reservation, db'))
    × (release_in_tx "r1" db' ≡ ok (with_status released open_reservation, db'))
    × (capture_in_tx 100 "r1" db' ≡ err (conflict "Credit reservation was released"))
release_is_final_example = release_is_final "r1" sample-WellFormed open_reservation refl 100 refl

capture_expired_example :
    let db' = status_db 2 released sample in
    (capture_reservation 600 " r1" sample ≡ (err (conflict "Credit reservation expired"), db'))
    × (release_in_tx (trim " r1") db' ≡ ok (with_status released open_reservation, db'))
    × (capture_reservation 700 " r1" db' ≡ (err (conflict "Credit reservation was released"), db'))
    × (transaction (capture_with_client 600 " r1" >>= return) sample
        ≡ (err (conflict "Credit reservation expired"), sample))
unfolding trim
capture_expired_example =
    capture_expired 600 700 " r1" sample open_reservation return refl refl refl refl

abbrev request : ReserveInput
request = record { user_id = 1; action_type = chat_reply; reference = some "r2"; expires_at = none }

reserves :
    reserve_credits 100 "u" request sample
    ≡ ok (new_reservation 100 "r2" request 3, reserved_db 100 "r2" request sample)
unfolding reserve_credits evaluated trim
reserves = refl

reserve_takes_example :
    let b = balance_breakdown 100 1 sample in
    let b' = balance_breakdown 100 1 (reserved_db 100 "r2" request sample) in
    (b'.available_balance ≡ b.available_balance -ℤ pos 2)
    × (pos 0 ≤ℤ b'.available_balance)
    × (b'.paid_balance ≡ b.paid_balance)
    × (b'.free_balance ≡ b.free_balance)
unfolding trim
reserve_takes_example =
    reserve_takes 100 "u" request sample
      {p = (new_reservation 100 "r2" request 3, reserved_db 100 "r2" request sample)} refl refl
      reserves

reserve_again_example :
    reserve_credits 200 "w" request (reserved_db 100 "r2" request sample)
    ≡ ok (new_reservation 100 "r2" request 3, reserved_db 100 "r2" request sample)
unfolding trim
reserve_again_example =
    reserve_again 100 200 "u" "w" request sample
      (new_reservation 100 "r2" request 3, reserved_db 100 "r2" request sample) refl reserves
