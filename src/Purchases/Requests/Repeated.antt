-- ===== src/Purchases/Requests/Repeated.antt =====
-- A refund that is requested again.
use opod_service_backend.Prelude.{
  ℕ, suc, ◌≡◌, refl, ◌∙◌, ap, true, false, Bool-cases, Option, none, some, Option-cases, inl, inr,
  String, ◌∷◌, ◌==◌, ==_refl, ==→eq, first-holds, arith,
}
use opod_service_backend.Prelude.Text.{eq_refl}
use opod_service_backend.Database.{Database, ok, Result-cases}
use opod_service_backend.Database.PaymentRows.{PurchaseRow, RefundRow}
use opod_service_backend.Database.ProviderRows.{PaymentRow}
use opod_service_backend.Payments.{Payments}
use opod_service_backend.Purchases.Rows.{
  find_refund, join_refund, find_purchase, purchase_by, payment_of, insert_refund,
}
use opod_service_backend.Purchases.Environment.{assert_payment_environment-ok}
use opod_service_backend.Purchases.Writes.{insert_refund-eq-ok}
use opod_service_backend.Purchases.Quotes.{RefundQuote, refund_quote}
use opod_service_backend.Purchases.Quotes.Cases.{Quoted, refund_quote-eq-ok}
use opod_service_backend.Purchases.Requests.{
  PreparedRefund, refund_named, quoted_refund, attach, assert_if_payment, new_refund,
  prepare_refund,
}

module _ (payments : Payments) (now user purchase : ℕ) (key : String) (db : Database) where
  abbrev pub named_refund : RefundQuote → RefundRow
  named_refund quote = quoted_refund now quote purchase key db.next_id

  abbrev pub refunding_db : RefundQuote → Database
  refunding_db quote = record db {
    next_id = suc db.next_id;
    refunds = named_refund quote ∷ db.refunds;
  }

  -- A refund that is new: its quote and its purchase.
  pub record Requested (p : PreparedRefund × Database) : Type 0 where
    pub quote : RefundQuote × Database
    pub quoted : Quoted payments now user purchase db quote
    pub eligible : quote.0.eligible ≡ true
    pub row : PurchaseRow
    pub lookup : purchase_by (λ q. q.id == purchase) db ≡ some row
    pub outcome : p ≡ (
      record {
        refund =
            attach
              (named_refund quote.0)
              (record { purchase = row; payment = payment_of row.id db });
        is_new = true;
      },
      refunding_db quote.0,
    )

  pub new_refund-eq-ok :
      {p : PreparedRefund × Database}
      → new_refund payments now user purchase key db ≡ ok p
      → Requested p
  unfolding new_refund
  new_refund-eq-ok {p} e = elim (Result-cases (refund_quote payments now user purchase db)) [
    | inr (x, k) ↦ let e' = rw k at e in ground arith
    | inl (quote, k) ↦
        let quoted = refund_quote-eq-ok payments now user purchase db k in
        let same : quote.1 ≡ db = (let q = quoted.quote in ground arith) in
        elim (Bool-cases quote.0.eligible) [
          | inr l ↦ let e' = rw (k, l) at e in ground arith
          | inl l ↦
              elim (Result-cases (insert_refund (quoted_refund now quote.0 purchase key) db)) [
                | inr (x, m) ↦ let e' = rw (k, l, same, m) at e in ground arith
                | inl (r, m) ↦
                    let made = insert_refund-eq-ok (quoted_refund now quote.0 purchase key) db m in
                    elim (Option-cases (purchase_by (λ q. q.id == purchase) db)) [
                      | inl n ↦
                          let e' = rw (k, l, same, m, made, find_purchase, n) at e in ground arith
                      | inr (row, n) ↦ record {
                        quote = quote;
                        quoted = quoted;
                        eligible = l;
                        row = row;
                        lookup = n;
                        outcome =
                            (let e' = rw (k, l, same, m, made, find_purchase, n) at e in
                              ground arith);
                      }
                    ]
              ]
        ]
  ]

assert_if_payment-ok :
    (payments : Payments) (payment : Option PaymentRow) (db : Database) {q : Unit {0} × Database}
    → assert_if_payment payments payment db ≡ ok q
    → q ≡ (tt, db)
assert_if_payment-ok payments none db e = ground arith
assert_if_payment-ok payments (some payment) db e =
    (assert_payment_environment-ok payments payment none db e).0

module _ (payments : Payments) (now user purchase : ℕ) (key : String) (db : Database)
    {p : PreparedRefund × Database} (r : Requested payments now user purchase key db p) where
  own_payment : payment_of r.row.id db ≡ some r.quoted.payment
  own_payment =
      ap (λ i. payment_of i db)
        (==→eq r.row.id purchase
          (first-holds (λ (q : PurchaseRow). q.id == purchase) db.purchases r.lookup))
      ∙ r.quoted.paid

  -- The new refund is found by its key.
  find_new_refund :
      find_refund
        (refund_named purchase key)
        (refunding_db payments now user purchase key db r.quote.0)
      ≡ some (
          attach
            (named_refund payments now user purchase key db r.quote.0)
            (record { purchase = r.row; payment = payment_of r.row.id db }))
  find_new_refund = rw (find_refund, ==_refl purchase, eq_refl key, join_refund, r.lookup) refl

-- A refund that is prepared under a key, prepared again under the same key: it is the same refund,
-- not a new one, and nothing changes.
pub prepare_again :
    (payments : Payments) (now later user user' purchase : ℕ) (key : String) (db : Database)
    (p : PreparedRefund × Database)
    → prepare_refund payments now user purchase key db ≡ ok p
    → prepare_refund payments later user' purchase key p.1
      ≡ ok (record { refund = p.0.refund; is_new = false }, p.1)
unfolding prepare_refund
prepare_again payments now later user user' purchase key db p e =
    elim (Option-cases (find_refund (refund_named purchase key) db)) [
      | inr (found, k) ↦ elim (Result-cases (assert_if_payment payments found.payment db)) [
        | inr (x, l) ↦ let e' = rw (k, l) at e in ground arith
        | inl (q, l) ↦
            let kept = assert_if_payment-ok payments found.payment db l in
            let same : p ≡ (record { refund = found; is_new = false }, db) =
              (let e' = rw (k, l, kept) at e in ground arith) in
            rw same (rw (k, l, kept) refl)
      ]
      | inl k ↦
          let r = new_refund-eq-ok payments now user purchase key db (rw k at e) in
          rw r.outcome (
            rw
              (
                find_new_refund payments now user purchase key db r,
                own_payment payments now user purchase key db r,
                r.quoted.checked (refunding_db payments now user purchase key db r.quote.0),
              )
              refl)
    ]

-- The payment of a refund that is prepared passes its check.
pub prepared_checked :
    (payments : Payments) (now user purchase : ℕ) (key : String) (db : Database)
    (p : PreparedRefund × Database)
    → prepare_refund payments now user purchase key db ≡ ok p
    → assert_if_payment payments p.0.refund.payment p.1 ≡ ok (tt, p.1)
unfolding prepare_refund
prepared_checked payments now user purchase key db p e =
    elim (Option-cases (find_refund (refund_named purchase key) db)) [
      | inr (found, k) ↦ elim (Result-cases (assert_if_payment payments found.payment db)) [
        | inr (x, l) ↦ let e' = rw (k, l) at e in ground arith
        | inl (q, l) ↦
            let kept = assert_if_payment-ok payments found.payment db l in
            let same : p ≡ (record { refund = found; is_new = false }, db) =
              (let e' = rw (k, l, kept) at e in ground arith) in
            rw same (l ∙ ap ok kept)
      ]
      | inl k ↦
          let r = new_refund-eq-ok payments now user purchase key db (rw k at e) in
          rw r.outcome (
            rw (own_payment payments now user purchase key db r)
              (r.quoted.checked (refunding_db payments now user purchase key db r.quote.0)))
    ]
