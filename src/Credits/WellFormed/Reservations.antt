-- ===== src/Credits/WellFormed/Reservations.antt =====
-- Reservations, captures and releases keep the credit tables well formed.
use opod_service_backend.Prelude.{ℕ, refl, some, inl, inr, String, ◌==◌, ◌&&◌}
use opod_service_backend.Database.{Keeps}
use opod_service_backend.Database.CreditRows.{captured, released, is_reserved, credit_reservation}
use opod_service_backend.Credits.Reservations.{
  ReserveInput, reserve_credits, new_reservation, reference_or, capture_in_tx, release_in_tx,
  with_status,
}
use opod_service_backend.Credits.Reservations.Cases.{
  reserve_credits-eq-ok, capture_in_tx-eq-ok, release_in_tx-eq-ok, already, expires, uses,
}
use opod_service_backend.Credits.WellFormed.{WellFormed}
use opod_service_backend.Credits.WellFormed.Entries.{reservation-WellFormed, update-WellFormed}
use opod_service_backend.Credits.WellFormed.Holds.{use_credits-Keeps}

pub reserve_credits-Keeps :
    (now : ℕ) (uuid : String) (input : ReserveInput)
    → Keeps WellFormed (reserve_credits now uuid input)
reserve_credits-Keeps now uuid input db r e v = elim (reserve_credits-eq-ok now uuid input db e) [
  | inl (_, _, same) ↦ rw same v
  | inr (_, _, made) ↦ rw made (
      reservation-WellFormed v
        (new_reservation now (reference_or uuid input.reference) input db.next_id) refl)
]

pub capture_in_tx-Keeps :
    (now : ℕ) (reference : String) → Keeps WellFormed (capture_in_tx now reference)
capture_in_tx-Keeps now reference db p e v =
    let (r, _, how) = capture_in_tx-eq-ok now reference db e in
    elim how [
      | already _ same ↦ rw same v
      | expires _ _ gone ↦
          rw gone (update-WellFormed v (λ q. q.id == r.id) (with_status released) (λ q. refl))
      | uses entry used _ _ ue done ↦ rw done (
          update-WellFormed
            (use_credits-Keeps now r.user_id r.amount r.action_type (some (credit_reservation r.id))
              db (entry, used) ue v)
            (λ q. q.id == r.id) (with_status captured) (λ q. refl))
    ]

pub release_in_tx-Keeps : (reference : String) → Keeps WellFormed (release_in_tx reference)
release_in_tx-Keeps reference db p e v =
    let (r, _, how) = release_in_tx-eq-ok reference db e in
    elim how [
      | inl (_, same) ↦ rw same v
      | inr (_, inl changed) ↦ rw changed (
          update-WellFormed v (λ q. q.id == r.id && is_reserved q.status) (with_status released)
            (λ q. refl))
      | inr (_, inr same) ↦ rw same v
    ]
