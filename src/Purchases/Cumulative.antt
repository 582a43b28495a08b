-- ===== src/Purchases/Cumulative.antt =====
-- The second half of `applyCumulativeRefund` of purchases/purchases.service.ts: how many credits are
-- recovered, and what is written.
pub mod Cases
pub mod Exact
use opod_service_backend.Prelude.{
  ℕ, ◌+◌, ◌-◌, ◌*◌, ◌/◌, Bool, Option, none, some, String, ◌==◌, ltb, if◌then◌else◌,
}
use opod_service_backend.Database.{Tx, return, reads, ◌>>=◌, ◌>>◌}
use opod_service_backend.Database.PaymentRows.{
  PurchaseStatus, RefundRow, RefundStatus, is_refunded_purchase,
}
use opod_service_backend.Database.ProviderRows.{
  PaymentRow, PaymentStatus, is_refunded, PaymentLedgerRow, PaymentLedgerType, outflow,
}
use opod_service_backend.Credits.Balance.{PurchaseCredits, purchase_credits}
use opod_service_backend.Payments.{Payments}
use opod_service_backend.Purchases.Rows.{
  PaymentWithPurchase, require_payment, set_payment, set_purchase, purchase_status,
  insert_payment_entry, insert_refund,
}
use opod_service_backend.Purchases.Refunds.{complete_refund, or_else}
use opod_service_backend.Purchases.Reversals.{
  CumulativeRefund, Recovered, recovered_of, recover, event_currency, provider_key,
  fail_provider_event, is_amount_mismatch, is_currency_mismatch, refunded_so_far, pending_refund,
}

-- The credits that a cumulative refund recovers.
pub record RecoveryPlan : Type 0 where
  pub base : ℕ
  pub paid_promotion : ℕ
  pub free_promotion : ℕ
  pub debt : ℕ

abbrev pub target_paid : PurchaseCredits → CumulativeRefund → ℕ
target_paid c r = (c.original_paid + c.original_paid_promotion) * r.refunded_amount / r.net_amount

abbrev pub target_base : PurchaseCredits → CumulativeRefund → ℕ
target_base c r = c.original_paid * r.refunded_amount / r.net_amount

abbrev pub base_of : PurchaseCredits → CumulativeRefund → Recovered → ℕ
base_of c r before = target_base c r - before.credit_amount

-- `targetPaidPromotionRecovery` is never negative, since the target of the base is no larger.
abbrev pub paid_promotion_of : PurchaseCredits → CumulativeRefund → Recovered → ℕ
paid_promotion_of c r before =
    target_paid c r - target_base c r - (before.promotion_amount - before.free_promotion_amount)

unfoldable pub recovery_plan : PurchaseCredits → CumulativeRefund → Recovered → RecoveryPlan
recovery_plan c r before = record {
  base = base_of c r before;
  paid_promotion = paid_promotion_of c r before;
  free_promotion = c.remaining_promotion - c.remaining_paid_promotion;
  debt =
      base_of c r before
      + paid_promotion_of c r before
      - (c.remaining_paid + c.remaining_paid_promotion);
}

abbrev pub recovery_of : RecoveryPlan → ℕ
recovery_of p = p.base + p.paid_promotion + p.free_promotion

abbrev pub partial_refund_row :
    ℕ → PaymentWithPurchase → CumulativeRefund → RecoveryPlan → ℕ → ℕ → RefundRow
partial_refund_row now found r plan increase id = record {
  id = id;
  purchase_id = found.payment.purchase_id;
  status = RefundStatus.completed;
  reason = "provider_reversal";
  idempotency_key = provider_key r.event;
  credit_amount = plan.base;
  promotion_amount = plan.paid_promotion + plan.free_promotion;
  free_promotion_amount = plan.free_promotion;
  locked_amount = 0;
  recovery_amount = recovery_of plan;
  debt_amount = plan.debt;
  gross_amount = increase;
  fee_amount = 0;
  refund_amount = increase;
  currency = event_currency found.payment r.event;
  provider = found.payment.provider;
  provider_refund_id = none;
  provider_transaction_id = r.event.transaction_id;
  completed_at = some r.event.occurred_at;
  created_at = now;
}

abbrev pub is_full : CumulativeRefund → Bool
is_full r = r.refunded_amount == r.net_amount

abbrev pub returned_status : PaymentStatus → Bool → PaymentStatus
returned_status s full =
    if is_refunded s
    then PaymentStatus.refunded
    else if full
    then PaymentStatus.reversed
    else PaymentStatus.partially_refunded

abbrev pub partly_refunded : CumulativeRefund → PaymentStatus → PaymentRow → PaymentRow
partly_refunded r status p = record p {
  net_amount = some r.net_amount;
  tax_amount = or_else r.event.tax_amount p.tax_amount;
  status = returned_status status (is_full r);
  refunded_at = if is_full r then some r.event.occurred_at else p.refunded_at;
}

abbrev pub partial_refund_entry : PaymentRow → CumulativeRefund → ℕ → ℕ → PaymentLedgerRow
partial_refund_entry payment r increase id = record {
  id = id;
  payment_id = payment.id;
  type = PaymentLedgerType.refund;
  direction = outflow;
  amount = some increase;
  currency = or_else r.event.currency payment.currency;
  provider_transaction_id = r.event.transaction_id;
  provider_event_id = some r.event.event_id;
  occurred_at = r.event.occurred_at;
}

abbrev pub close_purchase : PaymentWithPurchase → CumulativeRefund → Tx (Unit {0})
close_purchase found r =
    if is_refunded_purchase found.purchase.status
    then return tt
    else set_purchase found.payment.purchase_id
        (purchase_status (if is_full r then PurchaseStatus.reversed else PurchaseStatus.completed))

-- The writes for the part of a cumulative refund that no pending refund accounts for.
unfoldable pub refund_increase : ℕ → ℕ → CumulativeRefund → ℕ → Tx (Unit {0})
refund_increase now payment_id r increase = do
  found ← require_payment payment_id
  credits ← reads (purchase_credits now found.purchase.user_id found.payment.purchase_id)
  before ← reads (recovered_of found.payment.purchase_id)
  let plan = recovery_plan credits r before
  refund ← insert_refund (partial_refund_row now found r plan increase)
  recover now found (recovery_of plan) refund.id "provider partial refund"
  set_payment now found.payment.id (partly_refunded r found.payment.status)
  insert_payment_entry (partial_refund_entry found.payment r increase)
  close_purchase found r

-- The rest, once `previous` is accounted for.
abbrev pub refund_rest : ℕ → ℕ → CumulativeRefund → ℕ → Tx (Option String)
refund_rest now payment_id r previous =
    if r.refunded_amount == previous
    then return none
    else (do refund_increase now payment_id r (r.refunded_amount - previous); return none)

-- With the oldest pending refund of the purchase, if there is one.
unfoldable pub refund_with_pending :
    Payments → ℕ → ℕ → ℕ → CumulativeRefund → ℕ → Option RefundRow → Tx (Option String)
refund_with_pending payments now inbox payment_id r previous none =
    refund_rest now payment_id r previous
refund_with_pending payments now inbox payment_id r previous (some pending) =
    if ltb (r.refunded_amount - previous) pending.refund_amount
    then fail_provider_event now inbox "refund_amount_mismatch"
    else (do
      complete_refund payments now pending.id (some r.event)
      refund_rest now payment_id r (previous + pending.refund_amount))

-- `applyCumulativeRefund`: a failure's code, or none.
unfoldable pub apply_cumulative_refund :
    Payments → ℕ → ℕ → PaymentRow → CumulativeRefund → Tx (Option String)
apply_cumulative_refund payments now inbox payment r =
    if is_amount_mismatch payment r
    then fail_provider_event now inbox "refund_amount_mismatch"
    else if is_currency_mismatch payments payment r.event
    then fail_provider_event now inbox "currency_mismatch"
    else (do
      previous ← reads (λ db. refunded_so_far payment.id db.payment_ledger)
      if ltb r.refunded_amount previous
          then fail_provider_event now inbox "refund_amount_mismatch"
          else (do
            pending ← reads (pending_refund payment.purchase_id)
            refund_with_pending payments now inbox payment.id r previous pending))
