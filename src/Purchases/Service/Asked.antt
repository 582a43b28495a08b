-- ===== src/Purchases/Service/Asked.antt =====
-- A refund that is requested again, and the provider.
use opod_service_backend.Prelude.{
  ℕ, ◌≡◌, true, Bool-cases, inl, inr, none, String, if◌then◌else◌, arith,
}
use opod_service_backend.Prelude.Text.{trim, non_empty}
use opod_service_backend.Database.{Database, Result, ok, transaction}
use opod_service_backend.Database.PaymentRows.{RefundRow, is_succeeded}
use opod_service_backend.Payments.{Payments}
use opod_service_backend.Purchases.Rows.{require_refund}
use opod_service_backend.Purchases.Refunds.{complete_refund}
use opod_service_backend.Purchases.Requests.{PreparedRefund, prepare_refund}
use opod_service_backend.Purchases.Requests.Repeated.{prepare_again, prepared_checked}
use opod_service_backend.Purchases.Service.{request_refund}

-- What a request does for a refund that the provider was asked for: it is completed if the provider
-- has paid it back, and read otherwise.
abbrev pub without_provider : Payments → ℕ → RefundRow → Database → Result RefundRow × Database
without_provider payments now refund db =
    if is_succeeded refund.status
    then transaction (complete_refund payments now refund.id none) db
    else transaction (require_refund refund.id) db

-- A refund that is prepared under a key and is requested under the same key, at whatever time and by
-- whatever user, before the provider's answer to the first request is kept or if there is none: the
-- provider is not asked. The refund is completed if it was paid back, and is read otherwise.
pub request_again :
    (payments : Payments) (now later user user' purchase : ℕ) (key : String) (db : Database)
    (p : PreparedRefund × Database)
    → non_empty (trim key) ≡ true
    → prepare_refund payments now user purchase (trim key) db ≡ ok p
    → request_refund payments later
        (record { user_id = user'; purchase_id = purchase; idempotency_key = key })
        p.1
      ≡ without_provider payments later p.0.refund.refund p.1
unfolding request_refund
request_again payments now later user user' purchase key db p named e =
    let again = prepare_again payments now later user user' purchase (trim key) db p e in
    let checked = prepared_checked payments now user purchase (trim key) db p e in
    elim (Bool-cases (is_succeeded p.0.refund.refund.status)) [
      | inl paid ↦ ground arith
      | inr open' ↦ ground arith
    ]
