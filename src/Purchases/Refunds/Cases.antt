-- ===== src/Purchases/Refunds/Cases.antt =====
-- How the completion of a refund ends.
use opod_service_backend.Prelude.{
  ℕ, suc, ◌≡◌, true, false, Bool-cases, Option, some, Option-cases, ◌⊎◌, inl, inr, ◌∷◌, ◌==◌,
  update, arith,
}
use opod_service_backend.Database.{Database, ok, Result-cases}
use opod_service_backend.Database.CreditRows.{LedgerRow}
use opod_service_backend.Database.PaymentRows.{
  PurchaseRow, PurchaseStatus, RefundRow, is_completed_refund,
}
use opod_service_backend.Database.ProviderRows.{PaymentRow}
use opod_service_backend.Credits.Granting.{record_refund_recovery, recovery_entry}
use opod_service_backend.Credits.Granting.Repeated.{insert_ledger-eq-ok}
use opod_service_backend.Payments.{Payments, PaymentEvent}
use opod_service_backend.Purchases.Rows.{
  RefundWithPurchase, find_refund, assert_payment_environment, touched, purchase_status,
  insert_payment_entry, create_notification,
}
use opod_service_backend.Purchases.Refunds.{
  complete_refund, settle_refund, completed_refund, refunded_payment, refund_entry,
  refund_notification,
}
use opod_service_backend.Purchases.Environment.{assert_payment_environment-ok}

module _ (now : ℕ) (event : Option PaymentEvent) where
  -- The recovery of a refund.
  abbrev pub recovered : RefundWithPurchase → ℕ → LedgerRow
  recovered found =
      recovery_entry now found.purchase.user_id found.refund.purchase_id
        found.refund.recovery_amount found.refund.id "user refund"

  -- The database after the writes of a completion.
  abbrev pub settled_db : RefundWithPurchase → PaymentRow → Database → Database
  settled_db found payment db = record db {
    next_id = suc (suc (suc db.next_id));
    ledger = recovered found db.next_id ∷ db.ledger;
    payment_ledger =
        refund_entry now found.refund payment event (suc db.next_id) ∷ db.payment_ledger;
    payments =
        update (λ (p : PaymentRow). p.id == payment.id) (touched now (refunded_payment now event))
          db.payments;
    purchases =
        update (λ (q : PurchaseRow). q.id == found.refund.purchase_id)
          (purchase_status PurchaseStatus.refunded) db.purchases;
    notifications =
        refund_notification now found.purchase.user_id found.refund.id (suc (suc db.next_id))
        ∷ db.notifications;
    refunds =
        update (λ (r : RefundRow). r.id == found.refund.id) (completed_refund now event) db.refunds;
  }

  pub settle_refund-eq-ok :
      (found : RefundWithPurchase) (payment : PaymentRow) (db : Database) {p : RefundRow × Database}
      → settle_refund now found payment event db ≡ ok p
      → p ≡ (completed_refund now event found.refund, settled_db found payment db)
  unfolding settle_refund record_refund_recovery insert_payment_entry create_notification
  settle_refund-eq-ok found payment db {p} e =
      elim (Result-cases (
        record_refund_recovery now found.purchase.user_id found.refund.purchase_id
          found.refund.recovery_amount found.refund.id "user refund" db)) [
            | inl (q, k) ↦
                let e' = rw (k, insert_ledger-eq-ok (recovered found) db k) at e in ground arith
            | inr (x, k) ↦ let e' = rw k at e in ground arith
          ]

-- What a completion that succeeds has found and done.
pub record Completion (payments : Payments) (now id : ℕ) (event : Option PaymentEvent)
    (db : Database) (p : RefundRow × Database) : Type 0 where
  pub found : RefundWithPurchase
  pub payment : PaymentRow
  pub lookup : find_refund (λ r. r.id == id) db ≡ some found
  pub has_payment : found.payment ≡ some payment
  pub checked : (d : Database) → assert_payment_environment payments payment event d ≡ ok (tt, d)
  pub outcome :
      ((is_completed_refund found.refund.status ≡ true) × (p ≡ (found.refund, db)))
      ⊎ ((is_completed_refund found.refund.status ≡ false)
          × (settle_refund now found payment event db ≡ ok p))

pub complete_refund-eq-ok :
    (payments : Payments) (now id : ℕ) (event : Option PaymentEvent) (db : Database)
    {p : RefundRow × Database}
    → complete_refund payments now id event db ≡ ok p
    → Completion payments now id event db p
unfolding complete_refund settle_refund
complete_refund-eq-ok payments now id event db {p} e =
    elim (Option-cases (find_refund (λ r. r.id == id) db)) [
      | inl k ↦ let e' = rw k at e in ground arith
      | inr (found, k) ↦ elim (Option-cases found.payment) [
        | inl l ↦ let e' = rw (k, l) at e in ground arith
        | inr (payment, l) ↦
            elim (Result-cases (assert_payment_environment payments payment event db)) [
              | inr (x, m) ↦ let e' = rw (k, l, m) at e in ground arith
              | inl (q, m) ↦
                  let (same, again) = assert_payment_environment-ok payments payment event db m in
                  let e' = rw (k, l, m, same) at e in
                  record {
                    found = found;
                    payment = payment;
                    lookup = k;
                    has_payment = l;
                    checked = again;
                    outcome = elim (Bool-cases (is_completed_refund found.refund.status)) [
                      | inl done ↦ inl (done, ground arith)
                      | inr open' ↦ inr (open', rw open' at e')
                    ];
                  }
            ]
      ]
    ]
