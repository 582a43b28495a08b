-- ===== src/Purchases/Rows.antt =====
-- Reading and changing the rows of purchases, payments and refunds (the private methods at the end of
-- purchases/purchases.service.ts), and the rows that its operations share.
use opod_service_backend.Prelude.{
  ℕ, Bool, false, not, ◌&&◌, Option, none, some, ◌∷◌, String, ◌==◌, first, update, any,
}
use opod_service_backend.Prelude.Text.{str_eq}
use opod_service_backend.Database.{
  Database, Tx, conflict, not_found, return, reads, modify, new_id, throw_if, or_throw, ◌>>=◌, ◌>>◌,
  unique_violation,
}
use opod_service_backend.Database.PaymentRows.{PurchaseRow, PurchaseStatus, RefundRow}
use opod_service_backend.Database.ProviderRows.{PaymentRow, PaymentLedgerRow}
use opod_service_backend.Database.NotificationRows.{NotificationRow}
use opod_service_backend.Payments.{Payments, PaymentEvent, assert_environment}

-- `PurchaseRow` of the code: a purchase, with its payment if it has one.
pub record PurchaseWithPayment : Type 0 where
  pub purchase : PurchaseRow
  pub payment : Option PaymentRow

pub record PaymentWithPurchase : Type 0 where
  pub payment : PaymentRow
  pub purchase : PurchaseRow

pub record RefundWithPurchase : Type 0 where
  pub refund : RefundRow
  pub purchase : PurchaseRow
  pub payment : Option PaymentRow

abbrev pub payment_of : ℕ → Database → Option PaymentRow
payment_of purchase db = first (λ (p : PaymentRow). p.purchase_id == purchase) db.payments

abbrev pub purchase_by : (PurchaseRow → Bool) → Database → Option PurchaseRow
purchase_by p db = first p db.purchases

-- `findPurchase`, for a condition on the purchase
abbrev pub find_purchase : (PurchaseRow → Bool) → Database → Option PurchaseWithPayment
find_purchase p db = elim (purchase_by p db) [
  | none ↦ none
  | some q ↦ some (record { purchase = q; payment = payment_of q.id db })
]

-- `findPurchaseByIdempotency`
abbrev pub has_key : ℕ → String → PurchaseRow → Bool
has_key user key q = q.user_id == user && str_eq q.idempotency_key key

-- `requirePurchase`
abbrev pub require_purchase : ℕ → Tx PurchaseWithPayment
require_purchase id = do
  found ← reads (find_purchase (λ q. q.id == id))
  or_throw found (not_found "Purchase not found")

abbrev pub join_purchase : PaymentRow → Database → Option PaymentWithPurchase
join_purchase payment db = elim (purchase_by (λ q. q.id == payment.purchase_id) db) [
  | none ↦ none
  | some q ↦ some (record { payment = payment; purchase = q })
]

-- `findPayment`: a payment has a purchase, by the foreign key.
abbrev pub find_payment : (PaymentRow → Bool) → Database → Option PaymentWithPurchase
find_payment p db = elim (first p db.payments) [
  | none ↦ none
  | some payment ↦ join_purchase payment db
]

-- `requirePayment`
abbrev pub require_payment : ℕ → Tx PaymentWithPurchase
require_payment id = do
  found ← reads (find_payment (λ p. p.id == id))
  or_throw found (not_found "Payment not found")

abbrev pub refund_by : (RefundRow → Bool) → Database → Option RefundRow
refund_by p db = first p db.refunds

abbrev pub join_refund : RefundRow → Database → Option RefundWithPurchase
join_refund refund db = elim (purchase_by (λ q. q.id == refund.purchase_id) db) [
  | none ↦ none
  | some q ↦ some (record { refund = refund; purchase = q; payment = payment_of q.id db })
]

-- `findRefundWithPurchase`
abbrev pub find_refund : (RefundRow → Bool) → Database → Option RefundWithPurchase
find_refund p db = elim (refund_by p db) [ none ↦ none | some r ↦ join_refund r db ]

-- `requireRefundWithPurchase`
abbrev pub require_refund_with_purchase : ℕ → Tx RefundWithPurchase
require_refund_with_purchase id = do
  found ← reads (find_refund (λ r. r.id == id))
  or_throw found (not_found "Refund not found")

-- `requireRefund`
abbrev pub require_refund : ℕ → Tx RefundRow
require_refund id = do
  found ← reads (refund_by (λ r. r.id == id))
  or_throw found (not_found "Refund not found")

-- `$onUpdateFn`: every update of a payment writes its time.
abbrev pub touched : ℕ → (PaymentRow → PaymentRow) → PaymentRow → PaymentRow
touched now f p = record (f p) { updated_at = now }

abbrev pub set_payment : ℕ → ℕ → (PaymentRow → PaymentRow) → Tx (Unit {0})
set_payment now id f =
    modify λ d. record d {
      payments = update (λ (p : PaymentRow). p.id == id) (touched now f) d.payments;
    }

abbrev pub set_purchase : ℕ → (PurchaseRow → PurchaseRow) → Tx (Unit {0})
set_purchase id f =
    modify λ d. record d { purchases = update (λ (q : PurchaseRow). q.id == id) f d.purchases }

abbrev pub set_refund : ℕ → (RefundRow → RefundRow) → Tx (Unit {0})
set_refund id f =
    modify λ d. record d { refunds = update (λ (r : RefundRow). r.id == id) f d.refunds }

abbrev pub purchase_status : PurchaseStatus → PurchaseRow → PurchaseRow
purchase_status s q = record q { status = s }

-- An insert into the payment ledger; the row is given its new identifier.
unfoldable pub insert_payment_entry : (ℕ → PaymentLedgerRow) → Tx (Unit {0})
insert_payment_entry row = do
  id ← new_id
  modify (λ d. record d { payment_ledger = row id ∷ d.payment_ledger })

-- `createNotificationWithClient` of notifications/notifications.service.ts
unfoldable pub create_notification : (ℕ → NotificationRow) → Tx (Unit {0})
create_notification row = do
  id ← new_id
  modify (λ d. record d { notifications = row id ∷ d.notifications })

-- The unique index on the purchase and the idempotency key.
abbrev pub refund_key_taken : RefundRow → Database → Bool
refund_key_taken row db =
    any
      (λ (r : RefundRow).
        r.purchase_id == row.purchase_id && str_eq r.idempotency_key row.idempotency_key)
      db.refunds

unfoldable pub insert_refund : (ℕ → RefundRow) → Tx RefundRow
insert_refund row = do
  id ← new_id
  taken ← reads (refund_key_taken (row id))
  throw_if taken (unique_violation "credit_refund_purchase_id_idempotency_key_key")
  modify (λ d. record d { refunds = row id ∷ d.refunds })
  return (row id)

abbrev pub is_polar : String → Bool
is_polar provider = str_eq provider "polar"

-- Two texts that are there, and equal. (A missing one is `undefined` in an event, `null` in a row.)
abbrev pub same_text : Option String → Option String → Bool
same_text (some a) (some b) = str_eq a b
same_text _ _ = false

-- What `assertPaymentEnvironment` requires of an event.
abbrev pub is_foreign : PaymentRow → Option PaymentEvent → Bool
is_foreign payment none = false
is_foreign payment (some event) =
    is_polar payment.provider && not (same_text event.environment payment.provider_environment)

-- `assertPaymentEnvironment`
unfoldable pub assert_payment_environment :
    Payments → PaymentRow → Option PaymentEvent → Tx (Unit {0})
assert_payment_environment payments payment event = do
  assert_environment payments payment.provider payment.provider_environment
  throw_if (is_foreign payment event) (conflict "Polar event environment mismatch")
