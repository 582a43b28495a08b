-- ===== src/Purchases/Ensure.antt =====
-- `createCheckout` and `ensureCheckout` of purchases/purchases.service.ts: the statements, the
-- transaction and the calls of the provider, one after another.
use opod_service_backend.Prelude.{ℕ, Bool, true, false, not, Option, none, some, String}
use opod_service_backend.Prelude.Text.{trim, non_empty}
use opod_service_backend.Database.{Tx, return, throw_if, bad_request, transaction, from_result}
use opod_service_backend.Database.Services.{Service, done, ◌>>=◌, ◌>>◌}
use opod_service_backend.Database.ProviderRows.{PaymentRow}
use opod_service_backend.Payments.{Payments, CheckoutResult, CheckoutRequest}
use opod_service_backend.Payments.Calls.{find_checkout_at, create_checkout_at}
use opod_service_backend.Purchases.Rows.{PurchaseWithPayment, require_purchase}
use opod_service_backend.Purchases.Refunds.{or_else}
use opod_service_backend.Purchases.Events.{truthy}
use opod_service_backend.Purchases.Products.{PurchaseView, to_purchase}
use opod_service_backend.Purchases.Requests.{assert_if_payment}
use opod_service_backend.Purchases.Redirects.{Url, assert_checkout_redirects}
use opod_service_backend.Purchases.Checkouts.{
  CheckoutInput, find_or_open_checkout, priced_payment, claim_checkout, assert_abandoned,
  store_checkout, checkout_request,
}

pub record CheckoutView : Type 0 where
  pub purchase : PurchaseView
  pub checkout_url : Option String

abbrev pub checkout_url_of : Option PaymentRow → Option String
checkout_url_of none = none
checkout_url_of (some p) = p.provider_checkout_url

module _ (payments : Payments) where
  abbrev pub assert_unclaimed : ℕ → Bool → ℕ → Tx (Unit {0})
  assert_unclaimed now true id = return tt
  assert_unclaimed now false id = assert_abandoned payments now id

  -- The provider's checkout, or a new one.
  unfoldable pub provider_checkout :
      ℕ → Bool → PaymentRow → CheckoutRequest → Service CheckoutResult
  provider_checkout now claimed payment request = do
    found ←
        transaction
          (find_checkout_at payments payment.provider request payment.provider_environment)
    elim found [
      | some checkout ↦ done checkout
      | none ↦ do
        transaction (assert_unclaimed now claimed payment.id)
        transaction
            (create_checkout_at payments payment.provider request payment.provider_environment)
    ]

  -- `ensureCheckout` for a payment without a checkout.
  unfoldable pub prepare_checkout :
      ℕ → CheckoutInput → PurchaseWithPayment → PaymentRow → Service CheckoutView
  prepare_checkout now input purchase payment = do
    claimed ← transaction (claim_checkout now payment.id)
    checkout ← provider_checkout now claimed payment (checkout_request input purchase payment)
    transaction (store_checkout now payment checkout)
    current ← transaction (require_purchase purchase.purchase.id)
    transaction (assert_if_payment payments current.payment)
    done (record {
      purchase = to_purchase current;
      checkout_url = or_else (checkout_url_of current.payment) (some checkout.checkout_url);
    })

  -- `ensureCheckout`
  unfoldable pub ensure_checkout : ℕ → CheckoutInput → PurchaseWithPayment → Service CheckoutView
  ensure_checkout now input purchase = do
    payment ← transaction (priced_payment payments purchase)
    elim (truthy payment.provider_checkout_id) [
      | some c ↦
          done (record {
            purchase = to_purchase purchase;
            checkout_url = payment.provider_checkout_url;
          })
      | none ↦ prepare_checkout now input purchase payment
    ]

  -- `createCheckout`
  unfoldable pub create_checkout :
      (String → Option Url) → Option String → ℕ → CheckoutInput → Service CheckoutView
  create_checkout parse setting now input = do
    transaction (
        throw_if (not (non_empty (trim input.idempotency_key)))
          (bad_request "Idempotency-Key is required"))
    transaction
        (from_result (assert_checkout_redirects parse setting input.success_url input.return_url))
    purchase ← transaction (find_or_open_checkout payments now input)
    ensure_checkout now input purchase
