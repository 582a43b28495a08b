-- ===== src/Credits/Reservations/Reserve.antt =====
-- What a new reservation does to the balance.
use opod_service_backend.Prelude.{
  ℕ, suc, ◌+◌, ◌≡◌, refl, ap, subst, true, false, none, ◌∷◌, arith, String, inl, inr,
}
use opod_service_backend.Prelude.Int.{
  ℤ, pos, pos_part, neg_part, ◌+ℤ◌, ◌-ℤ◌, ◌≤ℤ◌, int_laws, not_negative,
}
use opod_service_backend.Database.{Database, ok}
use opod_service_backend.Database.CreditRows.{ReservationRow}
use opod_service_backend.Credits.Pricing.{action_price}
use opod_service_backend.Credits.Balance.{Balance, balance_breakdown, balance_from, is_active}
use opod_service_backend.Credits.Spending.{is_short}
use opod_service_backend.Credits.Spending.Outcome.{not_short-covers}
use opod_service_backend.Credits.Reservations.{
  ReserveInput, reserve_credits, new_reservation, reference_or, find_reservation,
}
use opod_service_backend.Credits.Reservations.Cases.{reserve_credits-eq-ok}
use opod_service_backend.Credits.Reservations.Held.{reserved_amount-cons}
use opod_service_backend.Credits.Reservations.Release.{with_reservations, own_reservations}

-- A new reservation that the balance covers.
abbrev Taken : ℕ → Balance → Balance → Type 0
Taken n b b' =
    (b'.available_balance ≡ b.available_balance -ℤ pos n)
    × (pos 0 ≤ℤ b'.available_balance)
    × (b'.paid_balance ≡ b.paid_balance)
    × (b'.free_balance ≡ b.free_balance)

taken :
    (p f : ℤ) (m n k : ℕ)
    → n ≡ k + m
    → is_short (balance_from p f m) k ≡ false
    → Taken k (balance_from p f m) (balance_from p f n)
taken p f m n k e short =
    let (h, c) = not_short-covers (balance_from p f m) k short in
    let eq : (balance_from p f m).available_balance ≡ p +ℤ f -ℤ pos m = rw (not_negative p h) in
    let eq' : (balance_from p f n).available_balance ≡ p +ℤ f -ℤ pos n = rw (not_negative p h) in
    (
      rw (eq, eq') (omega (int_laws, e)),
      rw eq' (omega (int_laws, e, ap pos_part eq, ap neg_part eq)),
      refl,
      refl,
    )

to-Taken :
    (k m n : ℕ) {p f : ℤ} {b b' : Balance}
    → b ≡ balance_from p f m
    → b' ≡ balance_from p f n
    → n ≡ k + m
    → is_short b k ≡ false
    → Taken k b b'
to-Taken k m n {p} {f} {b} e e' h short =
    rw (e, e') (taken p f m n k h (subst (λ t. is_short t k ≡ false) e short))

-- A reservation under an unused reference, active at its start, is made only if the available
-- balance covers it, and takes its price off; the paid and the free balance stay.
pub reserve_takes :
    (now : ℕ) (uuid : String) (input : ReserveInput) (db : Database) {p : ReservationRow × Database}
    → find_reservation (reference_or uuid input.reference) db ≡ none
    → is_active now p.0 ≡ true
    → reserve_credits now uuid input db ≡ ok p
    → let b = balance_breakdown now input.user_id db in
      let b' = balance_breakdown now input.user_id p.1 in
      let price = action_price input.action_type in
      (b'.available_balance ≡ b.available_balance -ℤ pos price)
      × (pos 0 ≤ℤ b'.available_balance)
      × (b'.paid_balance ≡ b.paid_balance)
      × (b'.free_balance ≡ b.free_balance)
reserve_takes now uuid input db {p} fresh active e =
    elim (reserve_credits-eq-ok now uuid input db e) [
      | inl (old, _, _) ↦ cc
      | inr (_, short, made) ↦
          let active' =
            subst (λ (t : ReservationRow × Database). is_active now t.0 ≡ true) made active in
          rw made (
            to-Taken _ _ _ (own_reservations now input.user_id db)
              (with_reservations now input.user_id db (suc db.next_id) (
                new_reservation now (reference_or uuid input.reference) input db.next_id
                ∷ db.reservations))
              (ground (
                arith,
                active',
                reserved_amount-cons now input.user_id
                    (new_reservation now (reference_or uuid input.reference) input db.next_id)
                    db.reservations,
              ))
              short)
    ]
