-- ===== src/Purchases/Applying/Paid.antt =====
-- A payment that is captured: its credits are granted once.
use opod_service_backend.Prelude.{
  ℕ, ◌≡◌, refl, true, false, Option, none, some, Option-cases, inl, inr, String, ◌==◌, ==_refl,
  first, first-holds, first-updated, arith,
}
use opod_service_backend.Database.{Database, ok, Result-cases, >>=-eq-ok}
use opod_service_backend.Database.PaymentRows.{PurchaseRow, is_completed_purchase}
use opod_service_backend.Database.ProviderRows.{PaymentRow, is_paid_status}
use opod_service_backend.Credits.Granting.{grant_credits}
use opod_service_backend.Payments.{Payments, PaymentEvent}
use opod_service_backend.Purchases.Rows.{
  PaymentWithPurchase, find_payment, join_purchase, purchase_by, touched, insert_payment_entry,
  create_notification,
}
use opod_service_backend.Purchases.Lookups.{find_payment-eq-some}
use opod_service_backend.Purchases.Writes.{grant_credits_kept}
use opod_service_backend.Purchases.Events.{paid_error}
use opod_service_backend.Purchases.Applying.{
  purchase_grant, captured_payment, fulfilled_purchase, fulfil, apply_paid,
}

module _ (payments : Payments) (digits : ℕ → String) where
  -- The payment after its capture.
  abbrev pub captured_found : ℕ → PaymentEvent → PaymentWithPurchase → PaymentWithPurchase
  captured_found now event found = record {
    payment = touched now (captured_payment payments event) found.payment;
    purchase = fulfilled_purchase now found.purchase;
  }

  pub fulfil_found :
      (now id : ℕ) (found : PaymentWithPurchase) (event : PaymentEvent) (db : Database)
      {p : Unit {0} × Database}
      → find_payment (λ p. p.id == id) db ≡ some found
      → fulfil payments digits now found event db ≡ ok p
      → find_payment (λ p. p.id == id) p.1 ≡ some (captured_found now event found)
  unfolding fulfil insert_payment_entry create_notification
  fulfil_found now id found event db {p} lookup e =
      let f = find_payment-eq-some (λ p. p.id == id) db lookup in
      let (q, granted, e') = >>=-eq-ok (grant_credits now (purchase_grant found)) _ db e in
      let (same_payments, same_purchases) =
        grant_credits_kept now (purchase_grant found) db granted in
      let payment : first (λ (p : PaymentRow). p.id == id) p.1.payments
          ≡ some (touched now (captured_payment payments event) found.payment) =
        (let k =
            first-updated (λ (p : PaymentRow). p.id == found.payment.id) (λ p. p.id == id)
              (touched now (captured_payment payments event)) q.1.payments {x = found.payment}
              (λ y. refl) (rw same_payments f.payment_row) (==_refl found.payment.id) in
          ground (arith, k)) in
      let purchase : purchase_by (λ q. q.id == found.payment.purchase_id) p.1
          ≡ some (fulfilled_purchase now found.purchase) =
        (let k =
            first-updated (λ (q : PurchaseRow). q.id == found.payment.purchase_id)
              (λ q. q.id == found.payment.purchase_id) (fulfilled_purchase now) q.1.purchases
              {x = found.purchase} (λ y. refl) (rw same_purchases f.purchase_row)
              (first-holds (λ (q : PurchaseRow). q.id == found.payment.purchase_id) db.purchases
                f.purchase_row) in
          ground (arith, k)) in
      rw (find_payment, payment, join_purchase, purchase) refl

  -- A payment that is paid gives no more credits.
  paid_kept :
      (now inbox : ℕ) (found : PaymentWithPurchase) (event : PaymentEvent) (db : Database)
      {p : Option String × Database}
      → is_paid_status found.payment.status ≡ true
      → apply_paid payments digits now inbox found event db ≡ ok p
      → (p.1.ledger ≡ db.ledger) × (p.1.payment_ledger ≡ db.payment_ledger)
  unfolding apply_paid
  paid_kept now inbox found event db paid e =
      elim (Option-cases (paid_error payments found.payment event)) [
        | inl k ↦ let e' = rw (k, paid) at e in (ground arith, ground arith)
        | inr (code, k) ↦ let e' = rw k at e in (ground arith, ground arith)
      ]

  -- A payment that an event of the type `paid` has captured is paid and its purchase completed, and
  -- no later event of that type, whatever its identifier and its amounts, grants credits for it
  -- again or writes another capture.
  pub paid_once :
      (now later id inbox inbox' : ℕ) (found : PaymentWithPurchase) (event event' : PaymentEvent)
      (db db' : Database) (p : Option String × Database)
      → find_payment (λ p. p.id == id) db ≡ some found
      → is_paid_status found.payment.status ≡ false
      → apply_paid payments digits now inbox found event db ≡ ok (none, db')
      → apply_paid payments digits later inbox' (captured_found now event found) event' db' ≡ ok p
      → (find_payment (λ p. p.id == id) db' ≡ some (captured_found now event found))
        × (is_paid_status (captured_found now event found).payment.status ≡ true)
        × (is_completed_purchase (captured_found now event found).purchase.status ≡ true)
        × (p.1.ledger ≡ db'.ledger)
        × (p.1.payment_ledger ≡ db'.payment_ledger)
  unfolding apply_paid
  paid_once now later id inbox inbox' found event event' db db' p lookup unpaid e again =
      elim (Option-cases (paid_error payments found.payment event)) [
        | inr (code, k) ↦ let e' = rw k at e in ground arith
        | inl k ↦ elim (Result-cases (fulfil payments digits now found event db)) [
          | inr (x, l) ↦ let e' = rw (k, unpaid, l) at e in ground arith
          | inl (q, l) ↦
              let same : db' ≡ q.1 = (let e' = rw (k, unpaid, l) at e in ground arith) in
              let kept =
                paid_kept later inbox' (captured_found now event found) event' db' refl again in
              (rw same (fulfil_found now id found event db lookup l), refl, refl, kept.0, kept.1)
        ]
      ]
