-- ===== src/Purchases/Service.antt =====
-- The operations of purchases/purchases.service.ts that are more than a transaction:
-- `requestRefund`, `getByCheckoutId` and `applyProviderEvent`.
pub mod Asked
use opod_service_backend.Prelude.{
  ℕ, Bool, false, not, ◌&&◌, ◌||◌, Option, none, some, String, ◌==◌, if◌then◌else◌,
}
use opod_service_backend.Prelude.Text.{trim, non_empty, has_text}
use opod_service_backend.Database.{
  Database, bad_request, conflict, not_found, reads, or_throw, throw_if, from_result, transaction,
}
use opod_service_backend.Database.Services.{Service, done, ◌>>=◌, ◌>>◌}
use opod_service_backend.Database.PaymentRows.{RefundRow, is_succeeded, is_pending_purchase}
use opod_service_backend.Database.ProviderRows.{PaymentRow, is_open}
use opod_service_backend.Payments.{Payments, WebhookInput, RefundResult, CheckoutReconciliation}
use opod_service_backend.Payments.Calls.{verify_event_by, request_refund_at, reconcile_checkout_at}
use opod_service_backend.Purchases.Rows.{
  PurchaseWithPayment, PaymentWithPurchase, RefundWithPurchase, find_payment, join_purchase,
  require_purchase, require_refund, assert_payment_environment, same_text,
}
use opod_service_backend.Purchases.Refunds.{complete_refund}
use opod_service_backend.Purchases.Reversals.{EventOutcome}
use opod_service_backend.Purchases.Events.{truthy}
use opod_service_backend.Purchases.Applying.{apply_event}
use opod_service_backend.Purchases.Products.{PurchaseView, to_purchase}
use opod_service_backend.Purchases.Requests.{
  RefundInput, prepare_refund, assert_if_payment, store_answer, has_succeeded,
}

-- The first payment with the checkout whose purchase is the user's.
abbrev pub find_by_checkout : ℕ → String → Database → Option PaymentWithPurchase
find_by_checkout user checkout db =
    find_payment (λ p. same_text (some checkout) p.provider_checkout_id && owns user p db) db
  where
    owns : ℕ → PaymentRow → Database → Bool
    owns user p db = elim (join_purchase p db) [
      | none ↦ false
      | some found ↦ found.purchase.user_id == user
    ]

module _ (payments : Payments) where
  -- `payment?.providerTransactionId`
  abbrev pub transaction_of : Option PaymentRow → Option (PaymentRow × String)
  transaction_of none = none
  transaction_of (some p) = elim (truthy p.provider_transaction_id) [
    | none ↦ none
    | some t ↦ some (p, t)
  ]

  -- The provider's answer is kept before the refund is completed.
  abbrev pub after_answer : ℕ → ℕ → RefundResult → Service RefundRow
  after_answer now id result = do
    transaction (store_answer id result)
    if has_succeeded result.status
        then transaction (complete_refund payments now id none)
        else transaction (require_refund id)

  -- The call of the provider. If it fails, the refund stays as it is, with its lock.
  unfoldable pub send_refund : ℕ → RefundWithPurchase → Service RefundRow
  send_refund now found = do
    (payment, transaction_id) ←
        transaction
          (or_throw (transaction_of found.payment) (conflict "Payment cannot be refunded"))
    result ← transaction (
        request_refund_at payments payment.provider
          (record {
            provider_transaction_id = transaction_id;
            amount = found.refund.refund_amount;
            refund_id = found.refund.id;
          })
          payment.provider_environment)
    after_answer now found.refund.id result

  -- `requestRefund`
  unfoldable pub request_refund : ℕ → RefundInput → Service RefundRow
  request_refund now input = do
    transaction (
        throw_if (not (non_empty (trim input.idempotency_key)))
          (bad_request "Idempotency-Key is required"))
    prepared ←
        transaction
          (prepare_refund payments now input.user_id input.purchase_id (trim input.idempotency_key))
    transaction (assert_if_payment payments prepared.refund.payment)
    let refund = prepared.refund.refund
    if is_succeeded refund.status
        then transaction (complete_refund payments now refund.id none)
        else if not prepared.is_new || has_text refund.provider_refund_id
        then transaction (require_refund refund.id)
        else send_refund now prepared.refund

  -- A pending purchase with an open payment.
  abbrev pub is_awaited : PaymentWithPurchase → Bool
  is_awaited found = is_pending_purchase found.purchase.status && is_open found.payment.status

  abbrev pub attached : PaymentWithPurchase → PurchaseWithPayment
  attached found = record { purchase = found.purchase; payment = some found.payment }

  abbrev pub reconciliation : ℕ → String → PaymentWithPurchase → CheckoutReconciliation
  reconciliation user checkout found = record {
    checkout_id = checkout;
    purchase_id = found.purchase.id;
    user_id = user;
    provider_product_id = found.payment.provider_product_id;
  }

  -- What the provider knows of the checkout is applied like an event of its own.
  unfoldable pub reconcile :
      (ℕ → String) → ℕ → ℕ → String → PaymentWithPurchase → Service PurchaseView
  reconcile digits now user checkout found = do
    event ← transaction (
        reconcile_checkout_at payments found.payment.provider (reconciliation user checkout found)
          found.payment.provider_environment)
    elim event [
      | none ↦ done (to_purchase (attached found))
      | some e ↦ do
        transaction (apply_event payments digits found.payment.provider now e)
        current ← transaction (require_purchase found.purchase.id)
        done (to_purchase current)
    ]

  -- `getByCheckoutId`
  unfoldable pub get_by_checkout_id : (ℕ → String) → ℕ → ℕ → String → Service PurchaseView
  get_by_checkout_id digits now user checkout_id = do
    let checkout = trim checkout_id
    transaction (throw_if (not (non_empty checkout)) (not_found "Purchase not found"))
    joined ← transaction (reads (find_by_checkout user checkout))
    found ← transaction (or_throw joined (not_found "Purchase not found"))
    transaction (assert_payment_environment payments found.payment none)
    if is_awaited found
        then reconcile digits now user checkout found
        else done (to_purchase (attached found))

  -- `applyProviderEvent`
  unfoldable pub apply_provider_event :
      (ℕ → String) → ℕ → String → WebhookInput → Service EventOutcome
  apply_provider_event digits now provider input = do
    event ← transaction (from_result (verify_event_by payments provider input))
    transaction (apply_event payments digits provider now event)
