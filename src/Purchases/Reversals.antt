-- ===== src/Purchases/Reversals.antt =====
-- `forceReversal` and `applyCumulativeRefund` of purchases/purchases.service.ts: refunds that a
-- provider reports.
use opod_service_backend.Prelude.{
  ℕ, ◌+◌, ◌-◌, Bool, true, false, not, ◌&&◌, ◌||◌, Option, none, some, List, ◌∷◌, [], String, ◌==◌,
  ltb, select, sum, update, if◌then◌else◌, get_or,
}
use opod_service_backend.Prelude.Text.{trim, non_empty, str_eq, append_text}
use opod_service_backend.Prelude.Sorting.{sort_by}
use opod_service_backend.Database.{Database, Tx, return, reads, modify, ◌>>=◌, ◌>>◌}
use opod_service_backend.Database.PaymentRows.{
  PurchaseStatus, RefundRow, RefundStatus, is_completed_refund, is_unsettled,
}
use opod_service_backend.Database.ProviderRows.{
  PaymentRow, PaymentStatus, is_returned, PaymentLedgerRow, PaymentLedgerType, is_outgoing, outflow,
  ProviderEventRow, ProviderEventStatus,
}
use opod_service_backend.Credits.Balance.{PurchaseCredits, purchase_credits}
use opod_service_backend.Credits.Granting.{record_refund_recovery}
use opod_service_backend.Payments.{Payments, PaymentEvent}
use opod_service_backend.Purchases.Rows.{
  PaymentWithPurchase, set_payment, set_purchase, purchase_status, insert_payment_entry,
  insert_refund,
}
use opod_service_backend.Purchases.Refunds.{or_else}

-- The result of an event: `{ processed: true }`, the same with `replay: true`, or a failure's code.
pub data EventOutcome : Type 0 where
  applied replayed : EventOutcome
  failed_with : (code : String) → EventOutcome

abbrev pub set_event : ℕ → (ProviderEventRow → ProviderEventRow) → Tx (Unit {0})
set_event id f = modify λ d. record d {
  provider_events = update (λ (e : ProviderEventRow). e.id == id) f d.provider_events;
}

abbrev pub failed_event_row : ℕ → String → ProviderEventRow → ProviderEventRow
failed_event_row now code e = record e {
  status = ProviderEventStatus.failed;
  last_error_code = some code;
  processed_at = some now;
}

-- `failProviderEvent`
abbrev pub fail_provider_event : ℕ → ℕ → String → Tx (Option String)
fail_provider_event now inbox code = do
  set_event inbox (failed_event_row now code)
  return (some code)

abbrev pub recover : ℕ → PaymentWithPurchase → ℕ → ℕ → String → Tx (Unit {0})
recover now found amount refund reason =
    if ltb 0 amount
    then (do
      record_refund_recovery now found.purchase.user_id found.payment.purchase_id amount refund
          reason
      return tt)
    else return tt

abbrev pub event_currency : PaymentRow → PaymentEvent → String
event_currency payment event = get_or (or_else event.currency payment.currency) "UNKNOWN"

abbrev pub reversed_amount : PaymentRow → PaymentEvent → ℕ
reversed_amount payment event = get_or (or_else event.amount payment.amount) 0

-- The key `provider:${event.eventId}` of a refund that a provider reports.
abbrev pub provider_key : PaymentEvent → String
provider_key event = append_text "provider:" event.event_id

abbrev pub full_recovery : PurchaseCredits → ℕ
full_recovery c = c.original_paid + c.original_promotion

abbrev pub full_remaining : PurchaseCredits → ℕ
full_remaining c = c.remaining_paid + c.remaining_promotion

abbrev pub reversal_row : ℕ → PaymentWithPurchase → PaymentEvent → PurchaseCredits → ℕ → RefundRow
reversal_row now found event c id = record {
  id = id;
  purchase_id = found.payment.purchase_id;
  status = RefundStatus.completed;
  reason = "provider_reversal";
  idempotency_key = provider_key event;
  credit_amount = c.original_paid;
  promotion_amount = c.original_promotion;
  free_promotion_amount = 0;
  locked_amount = full_remaining c;
  recovery_amount = full_recovery c;
  debt_amount = full_recovery c - full_remaining c;
  gross_amount = reversed_amount found.payment event;
  fee_amount = 0;
  refund_amount = reversed_amount found.payment event;
  currency = event_currency found.payment event;
  provider = found.payment.provider;
  provider_refund_id = none;
  provider_transaction_id = event.transaction_id;
  completed_at = some now;
  created_at = now;
}

abbrev pub chargeback_entry : PaymentRow → PaymentEvent → ℕ → PaymentLedgerRow
chargeback_entry payment event id = record {
  id = id;
  payment_id = payment.id;
  type = PaymentLedgerType.chargeback;
  direction = outflow;
  amount = or_else event.amount payment.amount;
  currency = or_else event.currency payment.currency;
  provider_transaction_id = event.transaction_id;
  provider_event_id = some event.event_id;
  occurred_at = event.occurred_at;
}

abbrev pub reversed_payment : ℕ → PaymentRow → PaymentRow
reversed_payment now p = record p { status = PaymentStatus.reversed; refunded_at = some now }

-- The writes of a reversal of a payment that is not returned yet.
unfoldable pub reverse_payment : ℕ → PaymentWithPurchase → PaymentEvent → Tx (Unit {0})
reverse_payment now found event = do
  credits ← reads (purchase_credits now found.purchase.user_id found.payment.purchase_id)
  refund ← insert_refund (reversal_row now found event credits)
  recover now found (full_recovery credits) refund.id "provider reversal"
  set_payment now found.payment.id (reversed_payment now)
  insert_payment_entry (chargeback_entry found.payment event)
  set_purchase found.payment.purchase_id (purchase_status PurchaseStatus.reversed)

-- `forceReversal`
unfoldable pub force_reversal : ℕ → PaymentWithPurchase → PaymentEvent → Tx (Unit {0})
unfolding reverse_payment
force_reversal now found event =
    if is_returned found.payment.status then return tt else reverse_payment now found event

-- The event of a cumulative refund, whose two amounts are there.
pub record CumulativeRefund : Type 0 where
  pub event : PaymentEvent
  pub net_amount : ℕ
  pub refunded_amount : ℕ

-- Two numbers that are both there, and differ.
abbrev pub differs : Option ℕ → Option ℕ → Bool
differs (some a) (some b) = not (a == b)
differs _ _ = false

-- The first check of `applyCumulativeRefund`.
abbrev pub is_amount_mismatch : PaymentRow → CumulativeRefund → Bool
is_amount_mismatch payment r =
    r.net_amount == 0
    || r.refunded_amount == 0
    || ltb r.net_amount r.refunded_amount
    || differs payment.net_amount (some r.net_amount)
    || differs payment.tax_amount r.event.tax_amount

-- `event.currency && (!payment.currency || …)`
abbrev pub other_currency : Payments → String → Option String → Bool
other_currency payments c none = true
other_currency payments c (some d) =
    not (non_empty d && str_eq (payments.to_upper (trim d)) (payments.to_upper (trim c)))

abbrev pub is_currency_mismatch : Payments → PaymentRow → PaymentEvent → Bool
is_currency_mismatch payments payment event = elim event.currency [
  | none ↦ false
  | some c ↦ non_empty c && other_currency payments c payment.currency
]

-- The sum of the refunds and chargebacks of a payment.
unfoldable pub refunded_so_far : ℕ → List PaymentLedgerRow → ℕ
refunded_so_far payment rows =
    sum (λ r. get_or r.amount 0) (select (λ r. r.payment_id == payment && is_outgoing r.type) rows)

abbrev pub refund_key : RefundRow → List ℕ
refund_key r = r.created_at ∷ r.id ∷ []

abbrev pub first_of : {A : Type 0} → List A → Option A
first_of [] = none
first_of (x ∷ xs) = some x

-- The oldest refund of a purchase that waits for its provider.
unfoldable pub pending_refund : ℕ → Database → Option RefundRow
unfolding sort_by
pending_refund purchase db = first_of (
    sort_by refund_key
      (select (λ r. r.purchase_id == purchase && is_unsettled r.status) db.refunds))

-- What the completed refunds of a purchase recovered.
pub record Recovered : Type 0 where
  pub credit_amount : ℕ
  pub promotion_amount : ℕ
  pub free_promotion_amount : ℕ

abbrev pub completed_of : ℕ → List RefundRow → List RefundRow
completed_of purchase rows =
    select (λ r. r.purchase_id == purchase && is_completed_refund r.status) rows

unfoldable pub recovered_of : ℕ → Database → Recovered
recovered_of purchase db = record {
  credit_amount = sum (λ r. r.credit_amount) (completed_of purchase db.refunds);
  promotion_amount = sum (λ r. r.promotion_amount) (completed_of purchase db.refunds);
  free_promotion_amount = sum (λ r. r.free_promotion_amount) (completed_of purchase db.refunds);
}
