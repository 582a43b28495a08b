-- ===== src/Purchases/Applying/Effects.antt =====
-- The effects of each type of event, and of `applyEvent` on the invariant of the credit tables.
use opod_service_backend.Prelude.{
  ℕ, ◌+◌, ◌-◌, ◌≡◌, Bool-cases, Option, none, some, Option-cases, inl, inr, String, ltb, ◌==◌,
  arith,
}
use opod_service_backend.Database.{Database, ok, Result-cases}
use opod_service_backend.Database.PaymentRows.{RefundRow}
use opod_service_backend.Database.ProviderRows.{
  PaymentRow, is_paid_status, EventType, paid_event, refunded_event, reversed_event, failed_event,
  ignored_event,
}
use opod_service_backend.Credits.WellFormed.{WellFormed}
use opod_service_backend.Credits.WellFormed.Entries.{frame-WellFormed}
use opod_service_backend.Payments.{Payments, PaymentEvent}
use opod_service_backend.Purchases.Rows.{PaymentWithPurchase}
use opod_service_backend.Purchases.Writes.{Step, Step-trans}
use opod_service_backend.Purchases.Refunds.{complete_refund}
use opod_service_backend.Purchases.Reversals.{
  CumulativeRefund, refunded_so_far, pending_refund, force_reversal, is_amount_mismatch,
  is_currency_mismatch, fail_provider_event,
}
use opod_service_backend.Purchases.Cumulative.{
  refund_rest, refund_increase, refund_with_pending, apply_cumulative_refund,
}
use opod_service_backend.Purchases.Cumulative.Cases.{refund_increase-Step}
use opod_service_backend.Purchases.Events.{paid_error}
use opod_service_backend.Purchases.Applying.{
  fulfil, apply_paid, reverse_or_complete, cumulative, apply_refund_of, apply_refunded,
  apply_reversed, apply_by_type,
}
use opod_service_backend.Purchases.Applying.Steps.{
  Step-refl, fulfil-Step, apply_failed-Step, complete_refund-Step, force_reversal-Step,
}

-- What an event's effects keep: the events too, if there is no failure's code.
pub record Effect (a : Database) (p : Option String × Database) : Type 0 where
  pub keeps : WellFormed a → WellFormed p.1
  pub same_events : p.0 ≡ none → p.1.provider_events ≡ a.provider_events

plain : {a b : Database} (code : Option String) → Step a b → Effect a (code, b)
plain code s = record { keeps = s.keeps; same_events = λ _. s.same_events }

fail-Effect :
    (now inbox : ℕ) (code : String) (db : Database) {p : Option String × Database}
    → fail_provider_event now inbox code db ≡ ok p
    → Effect db p
fail-Effect now inbox code db {p} e = record {
  keeps = λ v. ground (arith, frame-WellFormed {a = db} {b = p.1});
  same_events = λ h. ground arith;
}

rest-Step :
    (now payment_id : ℕ) (r : CumulativeRefund) (previous : ℕ) (db : Database)
    {p : Option String × Database}
    → refund_rest now payment_id r previous db ≡ ok p
    → Step db p.1
rest-Step now payment_id r previous db {p} e = elim (Bool-cases (r.refunded_amount == previous)) [
  | inl k ↦ let same : p ≡ (none, db) = (let e' = rw k at e in ground arith) in rw same Step-refl
  | inr k ↦
      elim (Result-cases (refund_increase now payment_id r (r.refunded_amount - previous) db)) [
        | inl (q, l) ↦
            let same : p ≡ (none, q.1) = (let e' = rw (k, l) at e in ground arith) in
            rw same (refund_increase-Step now r (r.refunded_amount - previous) payment_id db l)
        | inr (x, l) ↦ let e' = rw (k, l) at e in ground arith
      ]
]

with_pending-Effect :
    (payments : Payments) (now inbox payment_id : ℕ) (r : CumulativeRefund) (previous : ℕ)
    (pending : Option RefundRow) (db : Database) {p : Option String × Database}
    → refund_with_pending payments now inbox payment_id r previous pending db ≡ ok p
    → Effect db p
unfolding refund_with_pending
with_pending-Effect payments now inbox payment_id r previous none db {p} e =
    plain p.0 (rest-Step now payment_id r previous db e)
with_pending-Effect payments now inbox payment_id r previous (some pending) db {p} e =
    elim (Bool-cases (ltb (r.refunded_amount - previous) pending.refund_amount)) [
      | inl k ↦ fail-Effect now inbox _ db (rw k at e)
      | inr k ↦ elim (Result-cases (complete_refund payments now pending.id (some r.event) db)) [
        | inr (x, l) ↦ let e' = rw (k, l) at e in ground arith
        | inl (c, l) ↦ plain p.0 (
            Step-trans (complete_refund-Step payments now pending.id (some r.event) db l)
              (rest-Step now payment_id r (previous + pending.refund_amount) c.1 (rw (k, l) at e)))
      ]
    ]

cumulative-Effect :
    (payments : Payments) (now inbox : ℕ) (payment : PaymentRow) (r : CumulativeRefund)
    (db : Database) {p : Option String × Database}
    → apply_cumulative_refund payments now inbox payment r db ≡ ok p
    → Effect db p
unfolding apply_cumulative_refund
cumulative-Effect payments now inbox payment r db {p} e =
    elim (Bool-cases (is_amount_mismatch payment r)) [
      | inl k ↦ fail-Effect now inbox _ db (rw k at e)
      | inr k ↦ elim (Bool-cases (is_currency_mismatch payments payment r.event)) [
        | inl l ↦ fail-Effect now inbox _ db (rw (k, l) at e)
        | inr l ↦
            let previous = refunded_so_far payment.id db.payment_ledger in
            elim (Bool-cases (ltb r.refunded_amount previous)) [
              | inl m ↦ fail-Effect now inbox _ db (rw (k, l, m) at e)
              | inr m ↦
                  with_pending-Effect payments now inbox payment.id r previous
                    (pending_refund payment.purchase_id db) db (rw (k, l, m) at e)
            ]
      ]
    ]

module _ (payments : Payments) (digits : ℕ → String) where
  paid-Effect :
      (now inbox : ℕ) (found : PaymentWithPurchase) (event : PaymentEvent) (db : Database)
      {p : Option String × Database}
      → apply_paid payments digits now inbox found event db ≡ ok p
      → Effect db p
  unfolding apply_paid
  paid-Effect now inbox found event db {p} e =
      elim (Option-cases (paid_error payments found.payment event)) [
        | inr (code, k) ↦ fail-Effect now inbox code db (rw k at e)
        | inl k ↦ elim (Bool-cases (is_paid_status found.payment.status)) [
          | inl l ↦
              let same : p ≡ (none, db) = (let e' = rw (k, l) at e in ground arith) in
              rw same (plain none Step-refl)
          | inr l ↦ elim (Result-cases (fulfil payments digits now found event db)) [
            | inr (x, m) ↦ let e' = rw (k, l, m) at e in ground arith
            | inl (q, m) ↦
                let same : p ≡ (none, q.1) = (let e' = rw (k, l, m) at e in ground arith) in
                rw same (plain none (fulfil-Step payments digits now found event db m))
          ]
        ]
      ]

  reversed-Effect :
      (now : ℕ) (found : PaymentWithPurchase) (event : PaymentEvent) (db : Database)
      {p : Option String × Database}
      → apply_reversed payments digits now found event db ≡ ok p
      → Effect db p
  reversed-Effect now found event db {p} e =
      elim (Result-cases (force_reversal now found event db)) [
        | inr (x, k) ↦ let e' = rw k at e in ground arith
        | inl (q, k) ↦
            let same : p ≡ (none, q.1) = (let e' = rw k at e in ground arith) in
            rw same (plain none (force_reversal-Step now found event db k))
      ]

  pending-Effect :
      (now : ℕ) (found : PaymentWithPurchase) (event : PaymentEvent) (db : Database)
      {p : Option String × Database}
      → reverse_or_complete payments digits now found event db ≡ ok p
      → Effect db p
  pending-Effect now found event db {p} e =
      elim (Option-cases (pending_refund found.payment.purchase_id db)) [
        | inl l ↦ reversed-Effect now found event db (rw l at e)
        | inr (r, l) ↦ elim (Result-cases (complete_refund payments now r.id (some event) db)) [
          | inr (x, m) ↦ let e' = rw (l, m) at e in ground arith
          | inl (q, m) ↦
              let same : p ≡ (none, q.1) = (let e' = rw (l, m) at e in ground arith) in
              rw same (plain none (complete_refund-Step payments now r.id (some event) db m))
        ]
      ]

  refund_of-Effect :
      (refund : Option CumulativeRefund) (now inbox : ℕ) (found : PaymentWithPurchase)
      (event : PaymentEvent) (db : Database) {p : Option String × Database}
      → apply_refund_of payments digits refund now inbox found event db ≡ ok p
      → Effect db p
  unfolding apply_refund_of
  refund_of-Effect none now inbox found event db e = pending-Effect now found event db e
  refund_of-Effect (some r) now inbox found event db e =
      cumulative-Effect payments now inbox found.payment r db e

  pub apply_by_type-Effect :
      (type : EventType) (now inbox : ℕ) (found : PaymentWithPurchase) (event : PaymentEvent)
      (db : Database) {p : Option String × Database}
      → apply_by_type payments digits type now inbox found event db ≡ ok p
      → Effect db p
  unfolding apply_by_type apply_refunded
  apply_by_type-Effect paid_event now inbox found event db e =
      paid-Effect now inbox found event db e
  apply_by_type-Effect failed_event now inbox found event db {p} e =
      plain p.0 (apply_failed-Step payments digits now found db e).1
  apply_by_type-Effect refunded_event now inbox found event db e =
      refund_of-Effect (cumulative payments digits event) now inbox found event db e
  apply_by_type-Effect reversed_event now inbox found event db e =
      reversed-Effect now found event db e
  apply_by_type-Effect ignored_event now inbox found event db e =
      reversed-Effect now found event db e
