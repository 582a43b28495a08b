-- ===== src/Payments.antt =====
-- Payments (payments/payments.service.ts, payments/payment-provider.ts): the providers, which are
-- parameters, and the choice among them.
pub mod Calls
use opod_service_backend.Prelude.{
  ℕ, Bool, true, false, not, Option, none, some, List, [], ◌∷◌, first, String, if◌then◌else◌,
}
use opod_service_backend.Prelude.Text.{trim, non_empty, str_eq}
use opod_service_backend.Database.{
  Database, Tx, Result, ok, err, Error, bad_request, conflict, service_unavailable, from_result,
}
use opod_service_backend.Database.ProviderRows.{PaymentChannel, web, channel_eq, EventType}

pub record CheckoutRequest : Type 0 where
  pub purchase_id : ℕ
  pub user_id : ℕ
  pub provider_product_id : String
  pub currency : Option String
  pub customer_ip_address : Option String
  pub success_url : Option String
  pub return_url : Option String

pub record CheckoutResult : Type 0 where
  pub checkout_id : String
  pub checkout_url : String

pub record CheckoutReconciliation : Type 0 where
  pub checkout_id : String
  pub purchase_id : ℕ
  pub user_id : ℕ
  pub provider_product_id : String

pub record VerifiedPurchase : Type 0 where
  pub provider : String
  pub channel : PaymentChannel
  pub transaction_id : String
  pub transaction_key : String
  pub provider_product_id : String
  pub environment : Option String
  pub amount : Option ℕ
  pub currency : Option String
  pub occurred_at : ℕ
  pub revoked : Bool

-- The amounts that a provider reports are in minor units of the currency, and not negative.
pub record PaymentEvent : Type 0 where
  pub event_id : String
  pub type : EventType
  pub environment : Option String
  pub purchase_id : Option ℕ
  pub transaction_id : Option String
  pub transaction_key : Option String
  pub provider_product_id : Option String
  pub net_amount : Option ℕ
  pub tax_amount : Option ℕ
  pub refunded_amount : Option ℕ
  pub amount : Option ℕ
  pub currency : Option String
  pub occurred_at : ℕ

pub data RefundResultStatus : Type 0 where
  processing succeeded failed canceled : RefundResultStatus

pub record RefundResult : Type 0 where
  pub provider_refund_id : String
  pub status : RefundResultStatus

pub record PurchaseProof : Type 0 where
  pub proof : String
  pub expected_account_token : String
  pub expected_product_id : String

pub record WebhookInput : Type 0 where
  pub body : String
  pub headers : List (String × String)

pub record RefundRequest : Type 0 where
  pub provider_transaction_id : String
  pub amount : ℕ
  pub refund_id : ℕ

-- A provider: what its class promises. Its network calls are functions that it may lack.
pub record PaymentProvider : Type 0 where
  pub name : String
  pub channel : PaymentChannel
  pub environment : String
  pub find_checkout : Option (CheckoutRequest → Result (Option CheckoutResult))
  pub create_checkout : Option (CheckoutRequest → Result CheckoutResult)
  pub reconcile_checkout : Option (CheckoutReconciliation → Result (Option PaymentEvent))
  pub verify_purchase : Option (PurchaseProof → Result VerifiedPurchase)
  pub verify_event : Option (WebhookInput → Result PaymentEvent)
  pub request_refund : Option (RefundRequest → Result RefundResult)

-- The service: the providers in order, the setting `payments.webProvider`, and whether `NODE_ENV` is
-- `production`. The last two are the platform's: `toUpperCase`, and a text's SHA-256 in hexadecimal.
pub record Payments : Type 0 where
  pub providers : List PaymentProvider
  pub web_setting : Option String
  pub production : Bool
  pub to_upper : String → String
  pub sha256 : String → String

abbrev pub or_error : {A : Type 0} → Option A → Error → Result A
or_error none e = err e
or_error (some a) e = ok a

abbrev pub on_provider :
    {A : Type 0} → Result PaymentProvider → (PaymentProvider → Result A) → Result A
on_provider (ok p) f = f p
on_provider (err e) f = err e

module _ (payments : Payments) where
  -- `provider`
  abbrev pub provider_named : String → Result PaymentProvider
  provider_named name =
      or_error (first (λ (p : PaymentProvider). str_eq p.name name) payments.providers)
        (service_unavailable "Payment provider is unavailable")

  abbrev pub default_web_provider : String
  default_web_provider = if payments.production then "polar" else "local"

  -- `configured?.value.trim() || (production ? "polar" : "local")`
  abbrev pub web_provider_name : String
  web_provider_name = elim payments.web_setting [
    | none ↦ default_web_provider
    | some s ↦ if non_empty (trim s) then trim s else default_web_provider
  ]

  abbrev pub web_provider : Result PaymentProvider
  web_provider = provider_named web_provider_name

  -- `providerForChannel`; the four providers of the service have one for each channel.
  abbrev pub provider_for_channel : PaymentChannel → Result PaymentProvider
  provider_for_channel channel =
      if channel_eq channel web
      then web_provider
      else or_error
          (first (λ (p : PaymentProvider). channel_eq p.channel channel) payments.providers)
          (Error.other_error "TypeError")

  abbrev pub same_environment : String → PaymentProvider → Result (Unit {0})
  same_environment environment p =
      if str_eq environment p.environment
      then ok tt
      else err (conflict "Polar payment environment mismatch")

  abbrev pub check_environment : Option String → PaymentProvider → Result (Unit {0})
  check_environment none p =
      err (conflict "Polar payment environment is unknown; verified migration is required")
  check_environment (some e) p =
      if non_empty e
      then same_environment e p
      else err (conflict "Polar payment environment is unknown; verified migration is required")

  -- `assertEnvironment`
  unfoldable pub assert_environment : String → Option String → Tx (Unit {0})
  assert_environment name environment =
      if str_eq name "polar"
      then from_result (on_provider (provider_named name) (check_environment environment))
      else from_result (ok tt)
