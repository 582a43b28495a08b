-- ===== src/Purchases/Lookups.antt =====
-- What the searches of purchases/purchases.service.ts find.
use opod_service_backend.Prelude.{◌≡◌, Bool, some, Option-cases, inl, inr, ◌==◌, first, arith}
use opod_service_backend.Database.{Database}
use opod_service_backend.Database.PaymentRows.{RefundRow}
use opod_service_backend.Database.ProviderRows.{PaymentRow}
use opod_service_backend.Purchases.Rows.{
  RefundWithPurchase, PaymentWithPurchase, find_refund, find_payment, join_refund, join_purchase,
  purchase_by, payment_of,
}

-- A refund that is found, with its purchase and that one's payment.
pub record FoundRefund (p : RefundRow → Bool) (db : Database) (found : RefundWithPurchase)
    : Type 0 where
  pub refund_row : first p db.refunds ≡ some found.refund
  pub purchase_row : purchase_by (λ q. q.id == found.refund.purchase_id) db ≡ some found.purchase
  pub payment_row : found.payment ≡ payment_of found.purchase.id db

pub find_refund-eq-some :
    (p : RefundRow → Bool) (db : Database) {found : RefundWithPurchase}
    → find_refund p db ≡ some found
    → FoundRefund p db found
find_refund-eq-some p db {found} e = elim (Option-cases (first p db.refunds)) [
  | inl k ↦ let e' = rw (find_refund, k) at e in ground arith
  | inr (r, k) ↦ elim (Option-cases (purchase_by (λ q. q.id == r.purchase_id) db)) [
    | inl l ↦ let e' = rw (find_refund, k, join_refund, l) at e in ground arith
    | inr (q, l) ↦
        let e' : some (record { refund = r; purchase = q; payment = payment_of q.id db })
            ≡ some found =
          rw (find_refund, k, join_refund, l) at e in
        record {
          refund_row = ground arith;
          purchase_row = ground arith;
          payment_row = ground arith;
        }
  ]
]

-- A payment that is found, with its purchase.
pub record FoundPayment (p : PaymentRow → Bool) (db : Database) (found : PaymentWithPurchase)
    : Type 0 where
  pub payment_row : first p db.payments ≡ some found.payment
  pub purchase_row : purchase_by (λ q. q.id == found.payment.purchase_id) db ≡ some found.purchase

pub find_payment-eq-some :
    (p : PaymentRow → Bool) (db : Database) {found : PaymentWithPurchase}
    → find_payment p db ≡ some found
    → FoundPayment p db found
find_payment-eq-some p db {found} e = elim (Option-cases (first p db.payments)) [
  | inl k ↦ let e' = rw (find_payment, k) at e in ground arith
  | inr (r, k) ↦ elim (Option-cases (purchase_by (λ q. q.id == r.purchase_id) db)) [
    | inl l ↦ let e' = rw (find_payment, k, join_purchase, l) at e in ground arith
    | inr (q, l) ↦
        let e' : some (record { payment = r; purchase = q }) ≡ some found =
          rw (find_payment, k, join_purchase, l) at e in
        record { payment_row = ground arith; purchase_row = ground arith }
  ]
]
