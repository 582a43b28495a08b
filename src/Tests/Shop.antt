-- ===== src/Tests/Shop.antt =====
-- A small database with a purchase of user 1: purchase 7, whose 50 credits are in the ledger, and its
-- payment 8.
use opod_service_backend.Prelude.{ℕ, String, Option, none, some, [], ◌∷◌, false, arith, refl}
use opod_service_backend.Database.{Database, Result, ok, err}
use opod_service_backend.Database.PaymentRows.{PurchaseRow, PurchaseStatus, RefundRow, RefundStatus}
use opod_service_backend.Database.ProviderRows.{PaymentRow, PaymentStatus, web, EventType}
use opod_service_backend.Credits.WellFormed.{WellFormed}
use opod_service_backend.Credits.WellFormed.Entries.{frame-WellFormed}
use opod_service_backend.Payments.{Payments, PaymentProvider, PaymentEvent}
use opod_service_backend.Payments.{assert_environment}
use opod_service_backend.Credits.Ledger.{insert_ledger}
use opod_service_backend.Credits.Granting.{grant_credits, record_refund_recovery}
use opod_service_backend.Credits.Balance.{purchase_credits, locked_of_purchase}
use opod_service_backend.Prelude.Text.{trim}
use opod_service_backend.Purchases.Rows.{
  assert_payment_environment, insert_payment_entry, create_notification, insert_refund,
}
use opod_service_backend.Purchases.Refunds.{complete_refund, settle_refund}
use opod_service_backend.Purchases.Quotes.{refund_quote}
use opod_service_backend.Purchases.Reversals.{
  refunded_so_far, pending_refund, recovered_of, force_reversal, reverse_payment,
}
use opod_service_backend.Purchases.Cumulative.{
  apply_cumulative_refund, refund_with_pending, refund_increase, recovery_plan,
}
use opod_service_backend.Purchases.Events.{receive_event, event_payment, paid_error}
use opod_service_backend.Purchases.Applying.{
  apply_event, apply_received, apply_known, apply_to_payment, apply_by_type, apply_paid,
  apply_refunded, apply_refund_of, fulfil,
}
use opod_service_backend.Purchases.Inserts.{insert_purchase, insert_payment}
use opod_service_backend.Purchases.InApp.{claim_in_app, record_in_app}
use opod_service_backend.Purchases.Requests.{prepare_refund, new_refund}
use opod_service_backend.Tests.Spending.{evaluated}
use opod_service_backend.Tests.Data.{sample, sample-WellFormed}

-- The value of a run that succeeds.
abbrev pub value {ℓ} : {A : Type ℓ} → Result A → A → A
value (ok a) d = a
value (err e) d = d

abbrev pub local : PaymentProvider
local = record {
  name = "local";
  channel = web;
  environment = "local";
  find_checkout = none;
  create_checkout = none;
  reconcile_checkout = none;
  verify_purchase = none;
  verify_event = none;
  request_refund = none;
}

abbrev pub payments : Payments
payments = record {
  providers = local ∷ [];
  web_setting = none;
  production = false;
  to_upper = λ s. s;
  sha256 = λ s. s;
}

abbrev pub digits : ℕ → String
digits n = "50"

abbrev pub purchase : PurchaseRow
purchase = record {
  id = 7;
  user_id = 1;
  credit_product_id = 4;
  product_id = "credits-50";
  status = PurchaseStatus.completed;
  credit_amount = 50;
  idempotency_key = "k1";
  created_at = 15;
  fulfilled_at = some 20;
}

abbrev pub payment : PaymentRow
payment = record {
  id = 8;
  purchase_id = 7;
  channel = web;
  provider = "local";
  status = PaymentStatus.paid;
  amount = some 5000;
  net_amount = none;
  tax_amount = none;
  currency = some "KRW";
  provider_checkout_id = some "c1";
  provider_checkout_url = some "u1";
  provider_transaction_id = some "t1";
  provider_transaction_key = none;
  provider_product_id = "p50";
  provider_environment = some "local";
  paid_at = some 20;
  refunded_at = none;
  created_at = 15;
  updated_at = 20;
}

abbrev pub shop : Database
shop = record sample { next_id = 20; purchases = purchase ∷ []; payments = payment ∷ [] }

pub shop-WellFormed : WellFormed shop
shop-WellFormed = frame-WellFormed {a = sample} refl refl refl (omega arith) sample-WellFormed

-- The same before the payment is captured.
abbrev pub open_shop : Database
open_shop = record shop {
  ledger = [];
  purchases = record purchase { status = PurchaseStatus.pending; fulfilled_at = none } ∷ [];
  payments =
      record payment {
        status = PaymentStatus.pending;
        provider_transaction_id = none;
        paid_at = none;
      }
      ∷ [];
}

-- A refund that waits for the provider.
abbrev pub waiting : RefundRow
waiting = record {
  id = 9;
  purchase_id = 7;
  status = RefundStatus.payment_processing;
  reason = "user_request";
  idempotency_key = "r";
  credit_amount = 50;
  promotion_amount = 0;
  free_promotion_amount = 0;
  locked_amount = 50;
  recovery_amount = 50;
  debt_amount = 0;
  gross_amount = 5000;
  fee_amount = 250;
  refund_amount = 4750;
  currency = "KRW";
  provider = "local";
  provider_refund_id = none;
  provider_transaction_id = none;
  completed_at = none;
  created_at = 30;
}

abbrev pub refunding_shop : Database
refunding_shop = record shop { refunds = waiting ∷ [] }

-- Events of the provider about the payment.
abbrev pub event : String → EventType → Option ℕ → Option ℕ → PaymentEvent
event id type net refunded = record {
  event_id = id;
  type = type;
  environment = none;
  purchase_id = some 7;
  transaction_id = some "t1";
  transaction_key = none;
  provider_product_id = none;
  net_amount = net;
  tax_amount = none;
  refunded_amount = refunded;
  amount = none;
  currency = none;
  occurred_at = 40;
}

-- Everything that the operations on purchases compute with.
unfoldable pub run : ℕ
unfolding evaluated assert_environment assert_payment_environment insert_ledger grant_credits
    record_refund_recovery purchase_credits trim insert_payment_entry create_notification
    insert_refund complete_refund settle_refund refund_quote refunded_so_far pending_refund
    recovered_of force_reversal reverse_payment apply_cumulative_refund refund_with_pending
    refund_increase recovery_plan receive_event event_payment paid_error apply_event apply_received
    apply_known apply_to_payment apply_by_type apply_paid apply_refunded apply_refund_of fulfil
    insert_purchase insert_payment claim_in_app record_in_app prepare_refund new_refund
    locked_of_purchase
run = 0
