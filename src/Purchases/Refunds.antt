-- ===== src/Purchases/Refunds.antt =====
-- `completeRefundWithClient` of purchases/purchases.service.ts.
pub mod Cases
pub mod Repeated
use opod_service_backend.Prelude.{ℕ, Option, none, some, String, if◌then◌else◌, get_or}
use opod_service_backend.Database.{Tx, conflict, return, or_throw, ◌>>=◌, ◌>>◌}
use opod_service_backend.Database.PaymentRows.{
  PurchaseStatus, RefundRow, RefundStatus, is_completed_refund,
}
use opod_service_backend.Database.ProviderRows.{
  PaymentRow, PaymentStatus, PaymentLedgerRow, PaymentLedgerType, outflow,
}
use opod_service_backend.Database.NotificationRows.{
  NotificationRow, credit_refund_completed, refund_target,
}
use opod_service_backend.Credits.Granting.{record_refund_recovery}
use opod_service_backend.Payments.{Payments, PaymentEvent}
use opod_service_backend.Purchases.Rows.{
  RefundWithPurchase, require_refund_with_purchase, assert_payment_environment, set_payment,
  set_purchase, set_refund, purchase_status, insert_payment_entry, create_notification,
}

-- `event?.f`
abbrev pub of_event : {A : Type 0} → (PaymentEvent → Option A) → Option PaymentEvent → Option A
of_event f none = none
of_event f (some e) = f e

-- `a ?? b`, where both may be missing
abbrev pub or_else : {A : Type 0} → Option A → Option A → Option A
or_else none b = b
or_else (some a) b = some a

-- `event?.occurredAt ?? new Date()`
abbrev pub event_time : ℕ → Option PaymentEvent → ℕ
event_time now none = now
event_time now (some e) = e.occurred_at

abbrev pub refund_entry : ℕ → RefundRow → PaymentRow → Option PaymentEvent → ℕ → PaymentLedgerRow
refund_entry now refund payment event id = record {
  id = id;
  payment_id = payment.id;
  type = PaymentLedgerType.refund;
  direction = outflow;
  amount = some refund.refund_amount;
  currency = some (get_or (of_event (λ e. e.currency) event) refund.currency);
  provider_transaction_id = refund.provider_refund_id;
  provider_event_id = of_event (λ e. some e.event_id) event;
  occurred_at = event_time now event;
}

abbrev pub refunded_payment : ℕ → Option PaymentEvent → PaymentRow → PaymentRow
refunded_payment now event p = record p {
  status = PaymentStatus.refunded;
  refunded_at = some (event_time now event);
}

abbrev pub refund_notification : ℕ → ℕ → ℕ → ℕ → NotificationRow
refund_notification now user refund id = record {
  id = id;
  user_id = user;
  type = credit_refund_completed;
  title = "환불 완료";
  body = some "환불이 정상 처리되었습니다.";
  target_type = some refund_target;
  target_id = some refund;
  read_at = none;
  created_at = now;
}

-- A field that is `undefined` is not set.
abbrev pub completed_refund : ℕ → Option PaymentEvent → RefundRow → RefundRow
completed_refund now event r = record r {
  status = RefundStatus.completed;
  provider_transaction_id =
      or_else (of_event (λ e. e.transaction_id) event) r.provider_transaction_id;
  completed_at = some (event_time now event);
}

-- The writes of a refund that is not completed yet.
unfoldable pub settle_refund :
    ℕ → RefundWithPurchase → PaymentRow → Option PaymentEvent → Tx RefundRow
settle_refund now found payment event = do
  record_refund_recovery now found.purchase.user_id found.refund.purchase_id
      found.refund.recovery_amount found.refund.id "user refund"
  insert_payment_entry (refund_entry now found.refund payment event)
  set_payment now payment.id (refunded_payment now event)
  set_purchase found.refund.purchase_id (purchase_status PurchaseStatus.refunded)
  create_notification (refund_notification now found.purchase.user_id found.refund.id)
  set_refund found.refund.id (completed_refund now event)
  return (completed_refund now event found.refund)

-- `completeRefundWithClient`, which `completeRefund` runs in a transaction.
unfoldable pub complete_refund : Payments → ℕ → ℕ → Option PaymentEvent → Tx RefundRow
complete_refund payments now id event = do
  found ← require_refund_with_purchase id
  payment ← or_throw found.payment (conflict "Payment not found")
  assert_payment_environment payments payment event
  if is_completed_refund found.refund.status
      then return found.refund
      else settle_refund now found payment event
