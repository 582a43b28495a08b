-- ===== src/Purchases/Requests.antt =====
-- The transactions of `requestRefund` of purchases/purchases.service.ts.
pub mod Repeated
pub mod Single
use opod_service_backend.Prelude.{
  ℕ, ◌+◌, Bool, true, false, not, ◌&&◌, Option, none, some, String, ◌==◌,
}
use opod_service_backend.Prelude.Text.{str_eq}
use opod_service_backend.Database.{Tx, conflict, return, reads, throw_if, ◌>>=◌, ◌>>◌}
use opod_service_backend.Database.PaymentRows.{RefundRow, RefundStatus}
use opod_service_backend.Database.ProviderRows.{PaymentRow}
use opod_service_backend.Payments.{
  Payments, RefundResult, RefundResultStatus, processing, succeeded, failed, canceled,
}
use opod_service_backend.Purchases.Rows.{
  PurchaseWithPayment, RefundWithPurchase, find_refund, require_purchase, insert_refund, set_refund,
  assert_payment_environment,
}
use opod_service_backend.Purchases.Quotes.{RefundQuote, refund_quote}

pub record RefundInput : Type 0 where
  pub user_id : ℕ
  pub purchase_id : ℕ
  pub idempotency_key : String

-- `assertPaymentEnvironment`, for a payment if there is one.
abbrev pub assert_if_payment : Payments → Option PaymentRow → Tx (Unit {0})
assert_if_payment payments none = return tt
assert_if_payment payments (some p) = assert_payment_environment payments p none

abbrev pub quoted_refund : ℕ → RefundQuote → ℕ → String → ℕ → RefundRow
quoted_refund now quote purchase key id = record {
  id = id;
  purchase_id = purchase;
  status = RefundStatus.payment_processing;
  reason = "user_request";
  idempotency_key = key;
  credit_amount = quote.refundable_credits;
  promotion_amount = quote.promotion_recovery_credits;
  free_promotion_amount = quote.free_promotion_recovery_credits;
  locked_amount = quote.refundable_credits + quote.remaining_promotion_credits;
  recovery_amount = quote.refundable_credits + quote.promotion_recovery_credits;
  debt_amount = 0;
  gross_amount = quote.gross_amount;
  fee_amount = quote.fee_amount;
  refund_amount = quote.refund_amount;
  currency = quote.currency;
  provider = quote.provider;
  provider_refund_id = none;
  provider_transaction_id = none;
  completed_at = none;
  created_at = now;
}

-- A refund to go on with, and whether it is new.
pub record PreparedRefund : Type 0 where
  pub refund : RefundWithPurchase
  pub is_new : Bool

abbrev pub refund_named : ℕ → String → RefundRow → Bool
refund_named purchase key r = r.purchase_id == purchase && str_eq r.idempotency_key key

-- `{ ...refundBase, purchase }`
abbrev pub attach : RefundRow → PurchaseWithPayment → RefundWithPurchase
attach refund purchase = record {
  refund = refund;
  purchase = purchase.purchase;
  payment = purchase.payment;
}

module _ (payments : Payments) where
  unfoldable pub new_refund : ℕ → ℕ → ℕ → String → Tx PreparedRefund
  new_refund now user purchase key = do
    quote ← refund_quote payments now user purchase
    throw_if (not quote.eligible) (conflict "Refund is not eligible")
    refund ← insert_refund (quoted_refund now quote purchase key)
    found ← require_purchase purchase
    return (record { refund = attach refund found; is_new = true })

  -- The transaction that prepares the refund.
  unfoldable pub prepare_refund : ℕ → ℕ → ℕ → String → Tx PreparedRefund
  prepare_refund now user purchase key = do
    existing ← reads (find_refund (refund_named purchase key))
    elim existing [
      | some found ↦ do
        assert_if_payment payments found.payment
        return (record { refund = found; is_new = false })
      | none ↦ new_refund now user purchase key
    ]

-- The provider's answer as a state of the refund.
abbrev pub status_of_result : RefundResultStatus → RefundStatus
status_of_result succeeded = RefundStatus.payment_succeeded
status_of_result processing = RefundStatus.payment_processing
status_of_result failed = RefundStatus.failed
status_of_result canceled = RefundStatus.canceled

abbrev pub answered : RefundResult → RefundRow → RefundRow
answered result r = record r {
  provider_refund_id = some result.provider_refund_id;
  status = status_of_result result.status;
}

unfoldable pub store_answer : ℕ → RefundResult → Tx (Unit {0})
store_answer id result = set_refund id (answered result)

abbrev pub has_succeeded : RefundResultStatus → Bool
has_succeeded succeeded = true
has_succeeded _ = false
