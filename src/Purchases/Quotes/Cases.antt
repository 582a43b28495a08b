-- ===== src/Purchases/Quotes/Cases.antt =====
-- What a quote of a refund has found.
use opod_service_backend.Prelude.{
  ℕ, ◌≡◌, Bool-cases, inl, inr, none, some, Option-cases, ◌==◌, ◌&&◌, first-holds, arith,
}
use opod_service_backend.Database.{Database, ok, Result-cases}
use opod_service_backend.Database.PaymentRows.{PurchaseRow}
use opod_service_backend.Database.ProviderRows.{PaymentRow}
use opod_service_backend.Credits.Balance.{purchase_credits, get_paid_balance}
use opod_service_backend.Payments.{Payments}
use opod_service_backend.Purchases.Rows.{
  find_purchase, payment_of, purchase_by, assert_payment_environment,
}
use opod_service_backend.Purchases.Environment.{assert_payment_environment-ok}
use opod_service_backend.Purchases.Quotes.{RefundQuote, refund_quote, quote_from, is_web}

pub record Quoted (payments : Payments) (now user purchase : ℕ) (db : Database)
    (p : RefundQuote × Database) : Type 0 where
  pub row : PurchaseRow
  pub payment : PaymentRow
  pub own : row.id ≡ purchase
  pub paid : payment_of purchase db ≡ some payment
  pub checked : (d : Database) → assert_payment_environment payments payment none d ≡ ok (tt, d)
  pub quote : p ≡ (
    quote_from row payment (purchase_credits now user purchase db) (get_paid_balance now user db),
    db,
  )

pub refund_quote-eq-ok :
    (payments : Payments) (now user purchase : ℕ) (db : Database) {p : RefundQuote × Database}
    → refund_quote payments now user purchase db ≡ ok p
    → Quoted payments now user purchase db p
unfolding refund_quote
refund_quote-eq-ok payments now user purchase db {p} e =
    elim (Option-cases (purchase_by (λ q. q.id == purchase && q.user_id == user) db)) [
      | inl k ↦ let e' = rw (find_purchase, k) at e in ground arith
      | inr (row, k) ↦
          let own : row.id ≡ purchase = ground (
            arith,
            first-holds (λ (q : PurchaseRow). q.id == purchase && q.user_id == user) db.purchases k,
          ) in
          elim (Option-cases (payment_of purchase db)) [
            | inl i ↦ let e' = rw (find_purchase, k, own, i) at e in ground arith
            | inr (payment, i) ↦ elim (Bool-cases (is_web payment)) [
              | inr l ↦ let e' = rw (find_purchase, k, own, i, l) at e in ground arith
              | inl l ↦ elim (Result-cases (assert_payment_environment payments payment none db)) [
                | inr (x, m) ↦ let e' = rw (find_purchase, k, own, i, l, m) at e in ground arith
                | inl (q, m) ↦
                    let (same, again) = assert_payment_environment-ok payments payment none db m in
                    let e' = rw (find_purchase, k, own, i, l, m, same) at e in
                    record {
                      row = row;
                      payment = payment;
                      own = own;
                      paid = i;
                      checked = again;
                      quote = ground arith;
                    }
              ]
            ]
          ]
    ]
