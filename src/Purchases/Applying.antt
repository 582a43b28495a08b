-- ===== src/Purchases/Applying.antt =====
-- The effects of a payment provider's event: `applyEvent` of purchases/purchases.service.ts.
pub mod Steps
pub mod Effects
pub mod Paid
pub mod Received
pub mod Repeated
use opod_service_backend.Prelude.{
  ℕ, Bool, true, false, not, ◌&&◌, Option, none, some, String, ◌==◌, any, if◌then◌else◌, integer,
}
use opod_service_backend.Prelude.Int.{pos}
use opod_service_backend.Prelude.Text.{append_text, str_eq}
use opod_service_backend.Database.{
  Database, Tx, conflict, not_found, unique_violation, return, reads, throw_if, or_throw, ◌>>=◌,
  ◌>>◌,
}
use opod_service_backend.Database.CreditRows.{paid, credit_purchase}
use opod_service_backend.Database.PaymentRows.{PurchaseRow, PurchaseStatus}
use opod_service_backend.Database.ProviderRows.{
  PaymentRow, PaymentStatus, is_open, is_paid_status, PaymentLedgerRow, PaymentLedgerType, inflow,
  ProviderEventRow, is_processed, EventType, paid_event, refunded_event, reversed_event,
  failed_event, ignored_event, event_type_eq,
}
use opod_service_backend.Database.NotificationRows.{
  NotificationRow, credit_purchase_completed, purchase_target,
}
use opod_service_backend.Credits.Granting.{GrantInput, grant_credits}
use opod_service_backend.Payments.{Payments, PaymentEvent, assert_environment}
use opod_service_backend.Purchases.Rows.{
  PaymentWithPurchase, require_payment, set_payment, set_purchase, purchase_status,
  insert_payment_entry, create_notification, assert_payment_environment, is_polar, same_text,
}
use opod_service_backend.Purchases.Refunds.{complete_refund, or_else}
use opod_service_backend.Purchases.Reversals.{
  EventOutcome, applied, replayed, failed_with, set_event, fail_provider_event, force_reversal,
  CumulativeRefund, pending_refund,
}
use opod_service_backend.Purchases.Cumulative.{apply_cumulative_refund}
use opod_service_backend.Purchases.Events.{
  receive_event, processed_row, event_payment, paid_error, truthy,
}

abbrev pub purchase_grant : PaymentWithPurchase → GrantInput
purchase_grant found = record {
  user_id = found.purchase.user_id;
  amount = integer (pos found.purchase.credit_amount);
  reason = "credit purchase";
  credit_kind = some paid;
  purchase_id = some found.payment.purchase_id;
  promotion_code = none;
  external_reference = some (credit_purchase found.payment.purchase_id);
  expires_at = none;
}

-- `event.transactionKey ?? (event.transactionId ? sha256 : undefined)`
abbrev pub capture_key : Payments → PaymentEvent → Option String
capture_key payments event =
    or_else event.transaction_key
      (elim (truthy event.transaction_id) [ none ↦ none | some t ↦ some (payments.sha256 t) ])

-- A field that is `undefined` is not set.
abbrev pub captured_payment : Payments → PaymentEvent → PaymentRow → PaymentRow
captured_payment payments event p = record p {
  status = PaymentStatus.paid;
  provider_transaction_id = or_else event.transaction_id p.provider_transaction_id;
  net_amount = or_else event.net_amount p.net_amount;
  tax_amount = or_else event.tax_amount p.tax_amount;
  provider_transaction_key = or_else (capture_key payments event) p.provider_transaction_key;
  paid_at = some event.occurred_at;
}

-- The unique index on the provider and the key of a transaction, at the update of a payment.
abbrev pub is_key_taken : PaymentRow → Database → Bool
is_key_taken row db =
    any
      (λ (p : PaymentRow).
        not (p.id == row.id)
        && str_eq p.provider row.provider
        && same_text p.provider_transaction_key row.provider_transaction_key)
      db.payments

abbrev pub capture_entry : PaymentRow → PaymentEvent → ℕ → PaymentLedgerRow
capture_entry payment event id = record {
  id = id;
  payment_id = payment.id;
  type = PaymentLedgerType.capture;
  direction = inflow;
  amount = or_else event.amount payment.amount;
  currency = or_else event.currency payment.currency;
  provider_transaction_id = event.transaction_id;
  provider_event_id = some event.event_id;
  occurred_at = event.occurred_at;
}

abbrev pub fulfilled_purchase : ℕ → PurchaseRow → PurchaseRow
fulfilled_purchase now q = record q { status = PurchaseStatus.completed; fulfilled_at = some now }

-- `digits` writes a number: the text of the notification names the credits.
abbrev pub purchase_notification : (ℕ → String) → ℕ → PaymentWithPurchase → ℕ → NotificationRow
purchase_notification digits now found id = record {
  id = id;
  user_id = found.purchase.user_id;
  type = credit_purchase_completed;
  title = "크레딧 충전 완료";
  body =
      some (append_text "크레딧 " (append_text (digits found.purchase.credit_amount) "개가 지급되었습니다."));
  target_type = some purchase_target;
  target_id = some found.payment.purchase_id;
  read_at = none;
  created_at = now;
}

module _ (payments : Payments) (digits : ℕ → String) where
  -- The writes of the capture of an open payment.
  unfoldable pub fulfil : ℕ → PaymentWithPurchase → PaymentEvent → Tx (Unit {0})
  fulfil now found event = do
    grant_credits now (purchase_grant found)
    taken ← reads (is_key_taken (captured_payment payments event found.payment))
    throw_if taken (unique_violation "payments_provider_provider_transaction_key_key")
    set_payment now found.payment.id (captured_payment payments event)
    insert_payment_entry (capture_entry found.payment event)
    set_purchase found.payment.purchase_id (fulfilled_purchase now)
    create_notification (purchase_notification digits now found)

  abbrev pub after_paid_checks :
      Option String → ℕ → ℕ → PaymentWithPurchase → PaymentEvent → Tx (Option String)
  after_paid_checks (some code) now inbox found event = fail_provider_event now inbox code
  after_paid_checks none now inbox found event =
      if is_paid_status found.payment.status
      then return none
      else (do fulfil now found event; return none)

  unfoldable pub apply_paid : ℕ → ℕ → PaymentWithPurchase → PaymentEvent → Tx (Option String)
  apply_paid now inbox found event =
      after_paid_checks (paid_error payments found.payment event) now inbox found event

  unfoldable pub apply_failed : ℕ → PaymentWithPurchase → Tx (Option String)
  apply_failed now found =
      if is_open found.payment.status
      then (do
        set_payment now found.payment.id (λ p. record p { status = PaymentStatus.failed })
        set_purchase found.payment.purchase_id (purchase_status PurchaseStatus.failed)
        return none)
      else return none

  abbrev pub reverse_or_complete : ℕ → PaymentWithPurchase → PaymentEvent → Tx (Option String)
  reverse_or_complete now found event = do
    pending ← reads (pending_refund found.payment.purchase_id)
    elim pending [
      | some r ↦ do complete_refund payments now r.id (some event); return none
      | none ↦ do force_reversal now found event; return none
    ]

  abbrev pub cumulative : PaymentEvent → Option CumulativeRefund
  cumulative event = elim event.net_amount [
    | none ↦ none
    | some n ↦ elim event.refunded_amount [
      | none ↦ none
      | some r ↦ some (record { event = event; net_amount = n; refunded_amount = r })
    ]
  ]

  -- With the amounts of a cumulative refund, if the event has both.
  unfoldable pub apply_refund_of :
      Option CumulativeRefund → ℕ → ℕ → PaymentWithPurchase → PaymentEvent → Tx (Option String)
  apply_refund_of (some r) now inbox found event =
      apply_cumulative_refund payments now inbox found.payment r
  apply_refund_of none now inbox found event = reverse_or_complete now found event

  unfoldable pub apply_refunded : ℕ → ℕ → PaymentWithPurchase → PaymentEvent → Tx (Option String)
  apply_refunded now inbox found event = apply_refund_of (cumulative event) now inbox found event

  abbrev pub apply_reversed : ℕ → PaymentWithPurchase → PaymentEvent → Tx (Option String)
  apply_reversed now found event = do force_reversal now found event; return none

  -- By the event's type; an ignored event does not come here.
  unfoldable pub apply_by_type :
      EventType → ℕ → ℕ → PaymentWithPurchase → PaymentEvent → Tx (Option String)
  apply_by_type paid_event now inbox found event = apply_paid now inbox found event
  apply_by_type failed_event now inbox found event = apply_failed now found
  apply_by_type refunded_event now inbox found event = apply_refunded now inbox found event
  apply_by_type reversed_event now inbox found event = apply_reversed now found event
  apply_by_type ignored_event now inbox found event = apply_reversed now found event

  -- A failure is recorded already; else the event is marked.
  abbrev pub conclude : ℕ → ℕ → Option String → Tx EventOutcome
  conclude now inbox (some code) = return (failed_with code)
  conclude now inbox none = do set_event inbox (processed_row now); return applied

  -- For an event that is not processed, and a payment.
  unfoldable pub apply_to_payment :
      ℕ → ProviderEventRow → PaymentWithPurchase → PaymentEvent → Tx EventOutcome
  apply_to_payment now inbox found event = do
    set_event inbox.id (λ e. record e { payment_id = some found.payment.id })
    code ← apply_by_type event.type now inbox.id found event
    conclude now inbox.id code

  unfoldable pub apply_known : String → ℕ → ProviderEventRow → PaymentEvent → Tx EventOutcome
  apply_known provider now inbox event = do
    payment ← reads (event_payment payments provider event)
    known ← or_throw payment (not_found "Payment not found")
    found ← require_payment known.payment.id
    assert_payment_environment payments found.payment (some event)
    if is_processed inbox.status then return replayed else apply_to_payment now inbox found event

  abbrev pub is_ignored : EventType → Bool
  is_ignored ignored_event = true
  is_ignored _ = false

  unfoldable pub apply_received : String → ℕ → ProviderEventRow → PaymentEvent → Tx EventOutcome
  apply_received provider now inbox event =
      if is_processed inbox.status && not (is_polar provider)
      then return replayed
      else if is_ignored event.type
      then conclude now inbox.id none
      else apply_known provider now inbox event

  -- `applyEvent`
  unfoldable pub apply_event : String → ℕ → PaymentEvent → Tx EventOutcome
  apply_event provider now event = do
    assert_environment payments provider event.environment
    inbox ← receive_event provider event
    throw_if (not (event_type_eq inbox.event_type event.type))
        (conflict "Provider event ID conflict")
    apply_received provider now inbox event
