-- ===== src/Purchases/Quotes.antt =====
-- `refundQuoteWithClient` of purchases/purchases.service.ts. The numbers of the code are exact below
-- 2 ^ 53, where `Math.floor (a * b / c)` is the quotient of the naturals and `Math.floor (g * 0.05)`
-- is a twentieth of g.
pub mod Cases
pub mod Bounds
use opod_service_backend.Prelude.{
  ℕ, ◌+◌, ◌-◌, ◌*◌, ◌/◌, Bool, true, false, not, ◌&&◌, Option, none, some, String, ◌==◌, ltb, leb,
  any, if◌then◌else◌, get_or,
}
use opod_service_backend.Prelude.Int.{ℤ, pos, ◌-ℤ◌}
use opod_service_backend.Database.{
  Database, Tx, conflict, not_found, return, reads, throw_if, or_throw, ◌>>=◌, ◌>>◌,
}
use opod_service_backend.Database.PaymentRows.{PurchaseRow, is_completed_purchase}
use opod_service_backend.Database.ProviderRows.{PaymentRow, web, channel_eq}
use opod_service_backend.Credits.Balance.{
  PurchaseCredits, purchase_credits, get_paid_balance, is_active,
}
use opod_service_backend.Payments.{Payments}
use opod_service_backend.Purchases.Rows.{find_purchase, assert_payment_environment, is_polar}

pub record RefundQuote : Type 0 where
  pub purchase_id : ℕ
  pub provider : String
  pub currency : String
  pub original_credits : ℕ
  pub remaining_credits : ℕ
  pub locked_credits : ℕ
  pub refundable_credits : ℕ
  pub minimum_credits : ℕ
  pub eligible : Bool
  pub gross_amount : ℕ
  pub fee_amount : ℕ
  pub refund_amount : ℕ
  pub paid_balance_after_refund : ℤ
  pub remaining_promotion_credits : ℕ
  pub promotion_recovery_credits : ℕ
  pub free_promotion_recovery_credits : ℕ
  pub expected_debt_increase : ℕ

-- `snapshot.locked === 0 ? snapshot.remainingPaid : 0`
abbrev pub refundable : PurchaseCredits → ℕ
refundable c = if c.locked == 0 then c.remaining_paid else 0

abbrev pub original_eligible : PurchaseCredits → ℕ
original_eligible c = c.original_paid + c.original_paid_promotion

abbrev pub remaining_eligible : PurchaseCredits → ℕ
remaining_eligible c = refundable c + c.remaining_paid_promotion

abbrev pub is_eligible : PurchaseRow → PurchaseCredits → Bool
is_eligible purchase c =
    is_completed_purchase purchase.status
    && c.locked == 0
    && ltb 0 (original_eligible c)
    && leb (original_eligible c) (remaining_eligible c * 2)

-- `provider === "polar" ? netAmount : amount`
abbrev pub payment_amount : PaymentRow → Option ℕ
payment_amount payment = if is_polar payment.provider then payment.net_amount else payment.amount

-- What a refund gives back before the fee; nothing for an amount that is missing.
abbrev pub gross_of : Bool → Option ℕ → PurchaseCredits → ℕ
gross_of eligible amount c =
    if eligible then get_or amount 0 * remaining_eligible c / original_eligible c else 0

abbrev pub fee_of : ℕ → ℕ
fee_of gross = gross / 20

abbrev pub quote_from : PurchaseRow → PaymentRow → PurchaseCredits → ℤ → RefundQuote
quote_from purchase payment c paid_balance =
    let eligible = is_eligible purchase c in
    let gross = gross_of eligible (payment_amount payment) c in
    record {
      purchase_id = purchase.id;
      provider = payment.provider;
      currency = get_or payment.currency "KRW";
      original_credits = original_eligible c;
      remaining_credits = remaining_eligible c;
      locked_credits = c.locked;
      refundable_credits = refundable c;
      minimum_credits = (original_eligible c + 1) / 2;
      eligible = eligible;
      gross_amount = gross;
      fee_amount = fee_of gross;
      refund_amount = gross - fee_of gross;
      paid_balance_after_refund =
          paid_balance -ℤ pos (refundable c) -ℤ pos c.remaining_paid_promotion;
      remaining_promotion_credits = c.remaining_promotion;
      promotion_recovery_credits = c.remaining_promotion;
      free_promotion_recovery_credits = c.remaining_promotion - c.remaining_paid_promotion;
      expected_debt_increase = 0;
    }

abbrev pub is_web : PaymentRow → Bool
is_web payment = channel_eq payment.channel web

-- `purchase.payment?.channel === "web"`
abbrev pub web_payment : Option PaymentRow → Option PaymentRow
web_payment none = none
web_payment (some p) = if is_web p then some p else none

abbrev pub lacks_net_amount : PaymentRow → Bool
lacks_net_amount payment =
    is_polar payment.provider && elim payment.net_amount [ none ↦ true | some n ↦ false ]

abbrev pub has_active_reservation : ℕ → ℕ → Database → Bool
has_active_reservation now user db = any (λ r. r.user_id == user && is_active now r) db.reservations

unfoldable pub refund_quote : Payments → ℕ → ℕ → ℕ → Tx RefundQuote
refund_quote payments now user purchase_id = do
  found ← reads (find_purchase (λ q. q.id == purchase_id && q.user_id == user))
  purchase ← or_throw found (not_found "Purchase not found")
  payment ← or_throw (web_payment purchase.payment) (conflict "Store managed refund")
  assert_payment_environment payments payment none
  busy ← reads (has_active_reservation now user)
  throw_if busy (conflict "Credit usage is in progress")
  credits ← reads (purchase_credits now user purchase_id)
  throw_if (lacks_net_amount payment) (conflict "Payment refund amount is unavailable")
  paid_balance ← reads (get_paid_balance now user)
  return (quote_from purchase.purchase payment credits paid_balance)
