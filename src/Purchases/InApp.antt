-- ===== src/Purchases/InApp.antt =====
-- Purchases in the stores of the phones: `verifyInApp` of purchases/purchases.service.ts.
pub mod Repeated
use opod_service_backend.Prelude.{ℕ, Bool, not, Option, none, some, String, ◌==◌, integer}
use opod_service_backend.Prelude.Int.{pos}
use opod_service_backend.Prelude.Text.{append_text}
use opod_service_backend.Database.{
  Tx, Result, conflict, return, reads, throw_if, from_result, ◌>>=◌, ◌>>◌,
}
use opod_service_backend.Database.CreditRows.{paid, credit_purchase}
use opod_service_backend.Database.PaymentRows.{PurchaseRow, PurchaseStatus}
use opod_service_backend.Database.ProviderRows.{
  PaymentChannel, PaymentRow, PaymentStatus, PaymentLedgerRow, PaymentLedgerType, inflow,
  ProductRow,
}
use opod_service_backend.Credits.Granting.{GrantInput, grant_credits}
use opod_service_backend.Payments.{Payments, VerifiedPurchase}
use opod_service_backend.Payments.Calls.{verify_purchase_by}
use opod_service_backend.Purchases.Rows.{PaymentWithPurchase, find_payment, insert_payment_entry}
use opod_service_backend.Purchases.Events.{has_payment_key}
use opod_service_backend.Purchases.Inserts.{insert_purchase, insert_payment}
use opod_service_backend.Purchases.Products.{
  ResolvedProduct, resolve_product, PurchaseView, to_purchase,
}

-- The channel is `apple` or `google`.
pub record InAppInput : Type 0 where
  pub user_id : ℕ
  pub channel : PaymentChannel
  pub product_id : String
  pub proof : String

-- `${verified.provider}:${verified.transactionKey}`
abbrev pub in_app_key : VerifiedPurchase → String
in_app_key v = append_text v.provider (append_text ":" v.transaction_key)

abbrev pub in_app_purchase : ℕ → InAppInput → ProductRow → VerifiedPurchase → ℕ → PurchaseRow
in_app_purchase now input product v id = record {
  id = id;
  user_id = input.user_id;
  credit_product_id = product.id;
  product_id = input.product_id;
  status = PurchaseStatus.completed;
  credit_amount = product.credit_amount;
  idempotency_key = in_app_key v;
  created_at = now;
  fulfilled_at = some now;
}

-- `external` is the product's identifier in the store.
abbrev pub in_app_payment : ℕ → InAppInput → String → VerifiedPurchase → ℕ → ℕ → PaymentRow
in_app_payment now input external v purchase id = record {
  id = id;
  purchase_id = purchase;
  channel = input.channel;
  provider = v.provider;
  status = PaymentStatus.paid;
  amount = v.amount;
  net_amount = none;
  tax_amount = none;
  currency = v.currency;
  provider_checkout_id = none;
  provider_checkout_url = none;
  provider_transaction_id = some v.transaction_id;
  provider_transaction_key = some v.transaction_key;
  provider_product_id = external;
  provider_environment = v.environment;
  paid_at = some v.occurred_at;
  refunded_at = none;
  created_at = now;
  updated_at = now;
}

abbrev pub in_app_entry : VerifiedPurchase → ℕ → ℕ → PaymentLedgerRow
in_app_entry v payment id = record {
  id = id;
  payment_id = payment;
  type = PaymentLedgerType.capture;
  direction = inflow;
  amount = v.amount;
  currency = v.currency;
  provider_transaction_id = some v.transaction_id;
  provider_event_id = none;
  occurred_at = v.occurred_at;
}

abbrev pub in_app_grant : ℕ → ℕ → ℕ → GrantInput
in_app_grant user amount purchase = record {
  user_id = user;
  amount = integer (pos amount);
  reason = "credit purchase";
  credit_kind = some paid;
  purchase_id = some purchase;
  promotion_code = none;
  external_reference = some (credit_purchase purchase);
  expires_at = none;
}

abbrev pub view_found : PaymentWithPurchase → PurchaseView
view_found found = to_purchase (record { purchase = found.purchase; payment = some found.payment })

-- A purchase that is not known yet.
unfoldable pub record_in_app :
    ℕ → InAppInput → ProductRow → String → VerifiedPurchase → Tx PurchaseView
record_in_app now input product external v = do
  purchase ← insert_purchase (in_app_purchase now input product v)
  payment ← insert_payment (in_app_payment now input external v purchase.id)
  insert_payment_entry (in_app_entry v payment.id)
  grant_credits now (in_app_grant input.user_id product.credit_amount purchase.id)
  return (to_purchase (record { purchase = purchase; payment = some payment }))

-- The transaction of `verifyInApp`.
unfoldable pub claim_in_app :
    ℕ → InAppInput → ProductRow → String → VerifiedPurchase → Tx PurchaseView
claim_in_app now input product external v = do
  existing ← reads (find_payment (has_payment_key v.provider v.transaction_key))
  elim existing [
    | some found ↦ do
      throw_if (not (found.purchase.user_id == input.user_id)) (conflict "Purchase already claimed")
      return (view_found found)
    | none ↦ record_in_app now input product external v
  ]

-- `verifyInApp`. Before its transaction it only reads. `account_token` is `accountToken`, a keyed
-- hash of the user.
unfoldable pub verify_in_app :
    Payments → (ℕ → PaymentChannel → Result String) → ℕ → InAppInput → Tx PurchaseView
verify_in_app payments account_token now input = do
  resolved ← resolve_product payments input.product_id input.channel
  token ← from_result (account_token input.user_id input.channel)
  verified ← from_result (
      verify_purchase_by payments input.channel (record {
        proof = input.proof;
        expected_account_token = token;
        expected_product_id = resolved.mapping.provider_product_id;
      }))
  throw_if verified.revoked (conflict "Purchase was revoked")
  claim_in_app now input resolved.product resolved.mapping.provider_product_id verified
