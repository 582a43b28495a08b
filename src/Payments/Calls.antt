-- ===== src/Payments/Calls.antt =====
-- The calls of payments/payments.service.ts that a provider answers.
use opod_service_backend.Prelude.{Option, none, some, String}
use opod_service_backend.Database.{Tx, Result, ok, err, Error, bad_request, from_result, ◌>>◌}
use opod_service_backend.Database.ProviderRows.{PaymentChannel}
use opod_service_backend.Payments.{
  Payments, CheckoutRequest, CheckoutResult, CheckoutReconciliation, PaymentEvent, PurchaseProof,
  VerifiedPurchase, WebhookInput, RefundRequest, RefundResult, on_provider, provider_named,
  provider_for_channel, assert_environment,
}

-- A method that a provider may lack.
abbrev pub call_or : {A B : Type 0} → Option (A → Result B) → A → Error → Result B
call_or none a e = err e
call_or (some f) a e = f a

-- `method?.(input)`
abbrev pub call_if : {A B : Type 0} → Option (A → Result (Option B)) → A → Result (Option B)
call_if none a = ok none
call_if (some f) a = f a

module _ (payments : Payments) where
  unfoldable pub create_checkout_at : String → CheckoutRequest → Option String → Tx CheckoutResult
  create_checkout_at name input environment = do
    assert_environment payments name environment
    from_result (
        on_provider (provider_named payments name)
          (λ p. call_or p.create_checkout input (bad_request "Provider does not support checkout")))

  unfoldable pub find_checkout_at :
      String → CheckoutRequest → Option String → Tx (Option CheckoutResult)
  find_checkout_at name input environment = do
    assert_environment payments name environment
    from_result (on_provider (provider_named payments name) (λ p. call_if p.find_checkout input))

  unfoldable pub reconcile_checkout_at :
      String → CheckoutReconciliation → Option String → Tx (Option PaymentEvent)
  reconcile_checkout_at name input environment = do
    assert_environment payments name environment
    from_result
        (on_provider (provider_named payments name) (λ p. call_if p.reconcile_checkout input))

  unfoldable pub verify_purchase_by : PaymentChannel → PurchaseProof → Result VerifiedPurchase
  verify_purchase_by channel input = on_provider (provider_for_channel payments channel) (λ p.
      call_or p.verify_purchase input (bad_request "Provider does not support in-app purchases"))

  unfoldable pub verify_event_by : String → WebhookInput → Result PaymentEvent
  verify_event_by name input =
      on_provider (provider_named payments name)
        (λ p. call_or p.verify_event input (bad_request "Provider does not support webhooks"))

  unfoldable pub request_refund_at : String → RefundRequest → Option String → Tx RefundResult
  request_refund_at name input environment = do
    assert_environment payments name environment
    from_result (
        on_provider (provider_named payments name)
          (λ p. call_or p.request_refund input (bad_request "Provider does not support refunds")))
