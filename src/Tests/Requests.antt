-- ===== src/Tests/Requests.antt =====
-- Requests and claims of purchases on the small database.
use opod_service_backend.Prelude.{
  ◌≡◌, refl, Option, none, some, true, false, [], ◌∷◌, String, ◌==◌, if◌then◌else◌,
}
use opod_service_backend.Prelude.Text.{str_eq}
use opod_service_backend.Database.{Database, ok, err, conflict}
use opod_service_backend.Database.PaymentRows.{PurchaseStatus, is_completed_purchase}
use opod_service_backend.Database.ProviderRows.{
  PaymentStatus, paid_event, is_paid_status, apple, ProductRow,
}
use opod_service_backend.Payments.{VerifiedPurchase}
use opod_service_backend.Purchases.Rows.{PaymentWithPurchase, find_payment}
use opod_service_backend.Purchases.Applying.{apply_paid}
use opod_service_backend.Purchases.Applying.Paid.{paid_once, captured_found}
use opod_service_backend.Purchases.Products.{PurchaseView}
use opod_service_backend.Purchases.InApp.{InAppInput, claim_in_app}
use opod_service_backend.Purchases.InApp.Repeated.{claim_in_app_again}
use opod_service_backend.Purchases.Requests.{PreparedRefund, prepare_refund}
use opod_service_backend.Purchases.Requests.Repeated.{prepare_again}
use opod_service_backend.Purchases.Requests.Single.{no_second_refund}
use opod_service_backend.Purchases.Redirects.{
  Url, assert_checkout_redirects, checkout_redirect_url, allowed_origins,
}
use opod_service_backend.Purchases.Service.{request_refund}
use opod_service_backend.Purchases.Service.Asked.{without_provider, request_again}
use opod_service_backend.Prelude.Text.{trim, non_empty}
use opod_service_backend.Purchases.Redirects.Safe.{
  IsFine, IsPaymentReturn, IsProfile, redirects-IsOwn,
}
use opod_service_backend.Tests.Shop.{
  run, value, payments, digits, waiting, shop, open_shop, purchase, payment, event,
}

abbrev found : PaymentWithPurchase
found = record {
  payment = record payment {
    status = PaymentStatus.pending;
    provider_transaction_id = none;
    paid_at = none;
  };
  purchase = record purchase { status = PurchaseStatus.pending; fulfilled_at = none };
}

abbrev captured : Option String × Database
captured =
    value (apply_paid payments digits 600 30 found (event "e1" paid_event none none) open_shop)
      (none, open_shop)

captures :
    apply_paid payments digits 600 30 found (event "e1" paid_event none none) open_shop
    ≡ ok (none, captured.1)
unfolding run
captures = refl

abbrev paid_found : PaymentWithPurchase
paid_found = captured_found payments digits 600 (event "e1" paid_event none none) found

abbrev captured_again : Option String × Database
captured_again =
    value
      (apply_paid payments digits 900 31 paid_found (event "e4" paid_event none none) captured.1)
      (none, open_shop)

captures_again :
    apply_paid payments digits 900 31 paid_found (event "e4" paid_event none none) captured.1
    ≡ ok captured_again
unfolding run
captures_again = refl

paid_once_example :
    (find_payment (λ p. p.id == 8) captured.1 ≡ some paid_found)
    × (is_paid_status paid_found.payment.status ≡ true)
    × (is_completed_purchase paid_found.purchase.status ≡ true)
    × (captured_again.1.ledger ≡ captured.1.ledger)
    × (captured_again.1.payment_ledger ≡ captured.1.payment_ledger)
paid_once_example =
    paid_once payments digits 600 900 8 30 31 found (event "e1" paid_event none none)
      (event "e4" paid_event none none) open_shop captured.1 captured_again refl refl captures
      captures_again

abbrev product : ProductRow
product = record {
  id = 4;
  code = "credits-50";
  name = "50";
  credit_amount = 50;
  is_active = true;
  display_order = 1;
}

abbrev verified : VerifiedPurchase
verified = record {
  provider = "apple";
  channel = apple;
  transaction_id = "t9";
  transaction_key = "k9";
  provider_product_id = "p50";
  environment = none;
  amount = none;
  currency = none;
  occurred_at = 50;
  revoked = false;
}

abbrev input : InAppInput
input = record { user_id = 1; channel = apple; product_id = "credits-50"; proof = "x" }

abbrev other : InAppInput
other = record input { user_id = 2 }

abbrev no_view : PurchaseView
no_view = record {
  id = 0;
  product_id = "";
  status = PurchaseStatus.pending;
  credit_amount = 0;
  created_at = 0;
  payment = none;
}

abbrev claimed : PurchaseView × Database
claimed = value (claim_in_app 600 input product "p50" verified shop) (no_view, shop)

claims : claim_in_app 600 input product "p50" verified shop ≡ ok claimed
unfolding run
claims = refl

claim_in_app_again_example :
    (claim_in_app 900 input product "p50" verified claimed.1 ≡ ok claimed)
    × (claim_in_app 900 other product "p50" verified claimed.1
        ≡ err (conflict "Purchase already claimed"))
claim_in_app_again_example =
    claim_in_app_again 600 900 input other product product "p50" "p50" verified shop claimed refl
      claims

abbrev no_refund : PreparedRefund
no_refund = record {
  refund = record { refund = waiting; purchase = purchase; payment = none };
  is_new = false;
}

abbrev prepared : PreparedRefund × Database
prepared = value (prepare_refund payments 600 1 7 "r1" shop) (no_refund, shop)

prepares : prepare_refund payments 600 1 7 "r1" shop ≡ ok prepared
unfolding run
prepares = refl

is_new_now : prepared.0.is_new ≡ true
unfolding run
is_new_now = refl

named_key : non_empty (trim "r1") ≡ true
unfolding trim
named_key = refl

prepared_trimmed : prepare_refund payments 600 1 7 (trim "r1") shop ≡ ok prepared
unfolding run trim
prepared_trimmed = refl

prepare_twice :
    prepare_refund payments 900 1 7 "r1" prepared.1
    ≡ ok (record { refund = prepared.0.refund; is_new = false }, prepared.1)
prepare_twice = prepare_again payments 600 900 1 1 7 "r1" shop prepared prepares

-- The same key again, from user 2.
request_again_example :
    request_refund payments 900
      (record { user_id = 2; purchase_id = 7; idempotency_key = "r1" })
      prepared.1
    ≡ without_provider payments 900 prepared.0.refund.refund prepared.1
request_again_example =
    request_again payments 600 900 1 2 7 "r1" shop prepared named_key prepared_trimmed

abbrev prepared_again : PreparedRefund × Database
prepared_again = (record { refund = prepared.0.refund; is_new = false }, prepared.1)

no_second_refund_example : prepared_again.0.is_new ≡ false
no_second_refund_example =
    no_second_refund payments 600 900 1 1 7 "r1" "r1" shop prepared prepared_again prepares
      is_new_now prepare_twice

-- The two addresses that are parsed, at the web application.
abbrev page : String → String → Url
page path search = record {
  protocol = "https:";
  hostname = "opod-web.vercel.app";
  origin = "https://opod-web.vercel.app";
  pathname = path;
  search = search;
  search_params = ("checkout_id", "{CHECKOUT_ID}") ∷ [];
  hash = "";
}

abbrev parse : String → Option Url
parse s =
    if str_eq s "s"
    then some (page "/profile/payment-return" "?checkout_id={CHECKOUT_ID}")
    else if str_eq s "r"
    then some (page "/profile" "")
    else none

accepts : assert_checkout_redirects parse none (some "s") (some "r") ≡ ok tt
unfolding assert_checkout_redirects checkout_redirect_url allowed_origins
accepts = refl

redirects-IsOwn_example :
    IsFine parse none IsPaymentReturn (some "s") × IsFine parse none IsProfile (some "r")
redirects-IsOwn_example = redirects-IsOwn parse none (some "s") (some "r") accepts
