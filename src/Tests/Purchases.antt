-- ===== src/Tests/Purchases.antt =====
-- Purchases and refunds on the small database.
use opod_service_backend.Prelude.{◌≡◌, ◌≤◌, ◌⊎◌, refl, Option, none, some, false, String, update}
use opod_service_backend.Prelude.Int.{pos}
use opod_service_backend.Database.{Database, ok, err, conflict}
use opod_service_backend.Database.PaymentRows.{RefundRow}
use opod_service_backend.Database.ProviderRows.{paid_event, refunded_event}
use opod_service_backend.Purchases.Refunds.{complete_refund}
use opod_service_backend.Purchases.Refunds.Repeated.{complete_again}
use opod_service_backend.Purchases.Quotes.{RefundQuote, refund_quote}
use opod_service_backend.Purchases.Quotes.Bounds.{Bounded, refund_quote_bounds}
use opod_service_backend.Purchases.Reversals.{
  EventOutcome, applied, replayed, CumulativeRefund, refunded_so_far,
}
use opod_service_backend.Purchases.Cumulative.{apply_cumulative_refund}
use opod_service_backend.Purchases.Cumulative.Exact.{cumulative_exact}
use opod_service_backend.Purchases.Events.{is_event, tried_again}
use opod_service_backend.Purchases.Applying.{apply_event}
use opod_service_backend.Purchases.Applying.Repeated.{event_again}
use opod_service_backend.Tests.Shop.{
  run, value, payments, digits, refunding_shop, waiting, shop, open_shop, payment, event,
}

abbrev ended : RefundRow × Database
ended = value (complete_refund payments 600 9 none refunding_shop) (waiting, refunding_shop)

completes : complete_refund payments 600 9 none refunding_shop ≡ ok ended
unfolding run
completes = refl

complete_again_example :
    (complete_refund payments 700 9 none ended.1 ≡ ok ended)
    × (complete_refund payments 700 9 none ended.1 ≡ ok ended)
    × ((complete_refund payments 700 9 (some (event "e4" refunded_event none none)) ended.1
          ≡ ok ended)
        ⊎ (complete_refund payments 700 9 (some (event "e4" refunded_event none none)) ended.1
            ≡ err (conflict "Polar event environment mismatch")))
complete_again_example =
    complete_again payments 600 700 9 none (some (event "e4" refunded_event none none))
      refunding_shop ended completes

abbrev no_quote : RefundQuote × Database
no_quote = (
  record {
    purchase_id = 0;
    provider = "";
    currency = "";
    original_credits = 0;
    remaining_credits = 0;
    locked_credits = 0;
    refundable_credits = 0;
    minimum_credits = 0;
    eligible = false;
    gross_amount = 0;
    fee_amount = 0;
    refund_amount = 0;
    paid_balance_after_refund = pos 0;
    remaining_promotion_credits = 0;
    promotion_recovery_credits = 0;
    free_promotion_recovery_credits = 0;
    expected_debt_increase = 0;
  },
  shop,
)

abbrev quoted : RefundQuote × Database
quoted = value (refund_quote payments 600 1 7 shop) no_quote

quotes : refund_quote payments 600 1 7 shop ≡ ok quoted
unfolding run
quotes = refl

refund_quote_bounds_example : Bounded quoted.0 5000
refund_quote_bounds_example = refund_quote_bounds payments 600 1 7 shop payment quoted refl quotes

-- All that was paid comes back, as a pending refund of 4750 and 250 more.
abbrev all_back : CumulativeRefund
all_back = record {
  event = event "e2" refunded_event (some 5000) (some 5000);
  net_amount = 5000;
  refunded_amount = 5000;
}

abbrev refunded : Option String × Database
refunded =
    value (apply_cumulative_refund payments 600 30 payment all_back refunding_shop)
      (none, refunding_shop)

refunds :
    apply_cumulative_refund payments 600 30 payment all_back refunding_shop ≡ ok (none, refunded.1)
unfolding run
refunds = refl

cumulative_exact_example : (refunded_so_far 8 refunded.1.payment_ledger ≡ 5000) × (5000 ≤ 5000)
cumulative_exact_example =
    cumulative_exact payments 600 30 payment all_back refunding_shop refunded.1 refl (tt, tt)
      refunds

abbrev reported_run : EventOutcome × Database
reported_run =
    value (apply_event payments digits "local" 600 (event "e1" paid_event none none) open_shop)
      (replayed, open_shop)

reports :
    apply_event payments digits "local" 600 (event "e1" paid_event none none) open_shop
    ≡ ok (applied, reported_run.1)
unfolding run
reports = refl

event_again_example :
    apply_event payments digits "local" 900 (event "e1" paid_event none none) reported_run.1
    ≡ ok (
      replayed,
      record reported_run.1 {
        provider_events = update (is_event "local" "e1") tried_again reported_run.1.provider_events;
      },
    )
event_again_example =
    event_again payments digits "local" 600 900 (event "e1" paid_event none none) open_shop
      reported_run.1 refl reports

abbrev reversed : EventOutcome × Database
reversed =
    value (apply_event payments digits "local" 600 (event "e3" refunded_event none none) shop)
      (replayed, shop)

reverses :
    apply_event payments digits "local" 600 (event "e3" refunded_event none none) shop ≡ ok reversed
unfolding run
reverses = refl
