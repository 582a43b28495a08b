-- ===== src/Purchases/Checkouts.antt =====
-- The transactions and statements of a checkout: `createCheckout` and `ensureCheckout` of
-- purchases/purchases.service.ts, without their calls of the provider.
use opod_service_backend.Prelude.{
  ℕ, ◌+◌, Bool, true, false, not, ◌&&◌, Option, none, some, String, ◌==◌, first, any, update, ltb,
  if◌then◌else◌,
}
use opod_service_backend.Prelude.Text.{trim, non_empty, str_eq}
use opod_service_backend.Database.{
  Database, Tx, conflict, not_found, unique_violation, return, reads, modify, throw_if, or_throw,
  ◌>>=◌, ◌>>◌,
}
use opod_service_backend.Database.PaymentRows.{PurchaseRow, PurchaseStatus}
use opod_service_backend.Database.ProviderRows.{
  PaymentRow, PaymentStatus, is_pending, is_processing, web, ProductRow,
}
use opod_service_backend.Payments.{Payments, CheckoutResult, CheckoutRequest}
use opod_service_backend.Purchases.Rows.{
  PurchaseWithPayment, find_purchase, has_key, set_payment, touched, assert_payment_environment,
}
use opod_service_backend.Purchases.Inserts.{insert_purchase, insert_payment, same_checkout}
use opod_service_backend.Purchases.Products.{ResolvedProduct, resolve_product}

pub record CheckoutInput : Type 0 where
  pub user_id : ℕ
  pub product_id : String
  pub idempotency_key : String
  pub customer_ip_address : Option String
  pub success_url : Option String
  pub return_url : Option String

abbrev pub checkout_purchase : ℕ → CheckoutInput → ProductRow → ℕ → PurchaseRow
checkout_purchase now input product id = record {
  id = id;
  user_id = input.user_id;
  credit_product_id = product.id;
  product_id = input.product_id;
  status = PurchaseStatus.pending;
  credit_amount = product.credit_amount;
  idempotency_key = trim input.idempotency_key;
  created_at = now;
  fulfilled_at = none;
}

-- The payment of a checkout, at a price and in a currency.
abbrev pub checkout_payment : ℕ → ResolvedProduct → ℕ → String → ℕ → ℕ → PaymentRow
checkout_payment now resolved price currency purchase id = record {
  id = id;
  purchase_id = purchase;
  channel = web;
  provider = resolved.provider.name;
  status = PaymentStatus.pending;
  amount = some price;
  net_amount = none;
  tax_amount = none;
  currency = some currency;
  provider_checkout_id = none;
  provider_checkout_url = none;
  provider_transaction_id = none;
  provider_transaction_key = none;
  provider_product_id = resolved.mapping.provider_product_id;
  provider_environment = some resolved.provider.environment;
  paid_at = none;
  refunded_at = none;
  created_at = now;
  updated_at = now;
}

-- A price and its currency, if both are there.
abbrev pub price_of : Option ℕ → Option String → Option (ℕ × String)
price_of (some amount) (some c) = if non_empty (trim c) then some (amount, trim c) else none
price_of _ _ = none

-- A purchase that the key names must be of the same product.
abbrev pub same_product : String → PurchaseWithPayment → Tx PurchaseWithPayment
same_product product found = do
  throw_if (not (str_eq found.purchase.product_id product)) (conflict "Idempotency key conflict")
  return found

unfoldable pub insert_checkout :
    ℕ → CheckoutInput → ResolvedProduct → ℕ → String → Tx PurchaseWithPayment
insert_checkout now input resolved price currency = do
  purchase ← insert_purchase (checkout_purchase now input resolved.product)
  payment ← insert_payment (checkout_payment now resolved price currency purchase.id)
  return (record { purchase = purchase; payment = some payment })

-- The transaction of `createCheckout`.
unfoldable pub open_checkout :
    ℕ → CheckoutInput → ResolvedProduct → ℕ → String → Tx PurchaseWithPayment
open_checkout now input resolved price currency = do
  raced ← reads (find_purchase (has_key input.user_id (trim input.idempotency_key)))
  elim raced [
    | some found ↦ same_product input.product_id found
    | none ↦ insert_checkout now input resolved price currency
  ]

-- What `createCheckout` does for a key that is new to it; it reads before its transaction.
unfoldable pub new_checkout : Payments → ℕ → CheckoutInput → Tx PurchaseWithPayment
new_checkout payments now input = do
  resolved ← resolve_product payments input.product_id web
  (price, currency) ←
      or_throw (price_of resolved.mapping.price_amount resolved.mapping.currency)
        (conflict "Credit product price is unavailable")
  open_checkout now input resolved price (payments.to_upper currency)

-- `createCheckout` up to its call of `ensureCheckout`.
unfoldable pub find_or_open_checkout : Payments → ℕ → CheckoutInput → Tx PurchaseWithPayment
find_or_open_checkout payments now input = do
  existing ← reads (find_purchase (has_key input.user_id (trim input.idempotency_key)))
  elim existing [
    | some found ↦ same_product input.product_id found
    | none ↦ new_checkout payments now input
  ]

-- The first checks of `ensureCheckout`.
unfoldable pub priced_payment : Payments → PurchaseWithPayment → Tx PaymentRow
priced_payment payments purchase = do
  payment ← or_throw purchase.payment (conflict "Payment not found")
  assert_payment_environment payments payment none
  price ←
      or_throw (price_of payment.amount payment.currency)
        (conflict "Credit product price is unavailable")
  return payment

abbrev pub has_checkout : PaymentRow → Bool
has_checkout p = elim p.provider_checkout_id [ none ↦ false | some c ↦ true ]

abbrev pub is_unclaimed : ℕ → PaymentRow → Bool
is_unclaimed id p = p.id == id && is_pending p.status && not (has_checkout p)

-- The update that claims the payment, and whether it did.
unfoldable pub claim_checkout : ℕ → ℕ → Tx Bool
claim_checkout now id = do
  claimed ← reads (λ db. any (is_unclaimed id) db.payments)
  modify (λ d. record d {
    payments =
        update (is_unclaimed id) (touched now (λ p. record p { status = PaymentStatus.processing }))
          d.payments;
  })
  return claimed

-- `requirePaymentBase`
abbrev pub require_payment_base : ℕ → Tx PaymentRow
require_payment_base id = do
  found ← reads (λ db. first (λ (p : PaymentRow). p.id == id) db.payments)
  or_throw found (not_found "Payment not found")

-- Another call prepares the checkout: an error for 30 seconds after its claim.
unfoldable pub assert_abandoned : Payments → ℕ → ℕ → Tx (Unit {0})
assert_abandoned payments now id = do
  current ← require_payment_base id
  assert_payment_environment payments current none
  throw_if (ltb now (current.updated_at + 30000)) (conflict "Checkout is being prepared")

-- The payment with its checkout.
abbrev pub with_checkout : CheckoutResult → PaymentRow → PaymentRow
with_checkout checkout p = record p {
  provider_checkout_id = some checkout.checkout_id;
  provider_checkout_url = some checkout.checkout_url;
}

-- Another payment has the checkout.
abbrev pub checkout_taken : PaymentRow → CheckoutResult → Database → Bool
checkout_taken payment checkout db =
    any
      (λ (p : PaymentRow).
        not (p.id == payment.id) && same_checkout (with_checkout checkout payment) p)
      db.payments

-- The transaction of `ensureCheckout`.
unfoldable pub store_checkout : ℕ → PaymentRow → CheckoutResult → Tx (Unit {0})
store_checkout now payment checkout = do
  taken ← reads (checkout_taken payment checkout)
  throw_if taken (unique_violation "payments_provider_provider_checkout_id_key")
  set_payment now payment.id (with_checkout checkout)
  modify (λ d. record d {
    payments =
        update (λ (p : PaymentRow). p.id == payment.id && is_processing p.status)
          (touched now (λ p. record p { status = PaymentStatus.pending })) d.payments;
  })

abbrev pub checkout_request : CheckoutInput → PurchaseWithPayment → PaymentRow → CheckoutRequest
checkout_request input purchase payment = record {
  purchase_id = purchase.purchase.id;
  user_id = input.user_id;
  provider_product_id = payment.provider_product_id;
  currency = payment.currency;
  customer_ip_address = input.customer_ip_address;
  success_url = input.success_url;
  return_url = input.return_url;
}
