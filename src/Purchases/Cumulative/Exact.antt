-- ===== src/Purchases/Cumulative/Exact.antt =====
-- A cumulative refund leaves in the payment ledger what the provider reports.
use opod_service_backend.Prelude.{
  ℕ, ◌+◌, ◌-◌, ◌≤◌, ◌≡◌, refl, ◌∙◌, subst, ap, String, ==_refl, Option-cases, Bool, true,
  Bool-cases, Option, none, some, inl, inr, List, [], ◌∷◌, ◌==◌, ◌&&◌, ==→eq, ltb, first,
  first-holds, select, All, All-map2, All-select, Distinct, first-Distinct, get_or, arith,
}
use opod_service_backend.Prelude.Sorting.{sort_by, sort_by-All}
use opod_service_backend.Database.{Database, ok, Result-cases}
use opod_service_backend.Database.PaymentRows.{
  PurchaseRow, RefundRow, is_unsettled, is_completed_refund,
}
use opod_service_backend.Database.ProviderRows.{PaymentRow, PaymentLedgerRow, is_outgoing}
use opod_service_backend.Payments.{Payments}
use opod_service_backend.Purchases.Rows.{payment_of}
use opod_service_backend.Purchases.Lookups.{find_refund-eq-some, find_payment-eq-some}
use opod_service_backend.Purchases.Writes.{insert_refund-Aside, recover-Aside, close_purchase-Aside}
use opod_service_backend.Purchases.Refunds.{complete_refund, refund_entry}
use opod_service_backend.Purchases.Refunds.Cases.{complete_refund-eq-ok, settle_refund-eq-ok}
use opod_service_backend.Purchases.Reversals.{
  CumulativeRefund, refunded_so_far, pending_refund, first_of, refund_key, is_amount_mismatch,
  is_currency_mismatch,
}
use opod_service_backend.Purchases.Cumulative.{
  refund_rest, refund_increase, refund_with_pending, apply_cumulative_refund, partial_refund_entry,
}
use opod_service_backend.Purchases.Cumulative.Cases.{refund_increase-eq-ok, increased_db}

abbrev pub refund_id : RefundRow → ℕ
refund_id r = r.id

-- An outgoing entry of the payment adds its amount.
refunded_so_far_entry :
    (payment : ℕ) (x : PaymentLedgerRow) (xs : List PaymentLedgerRow)
    → (x.payment_id == payment) ≡ true
    → is_outgoing x.type ≡ true
    → refunded_so_far payment (x ∷ xs) ≡ get_or x.amount 0 + refunded_so_far payment xs
unfolding refunded_so_far
refunded_so_far_entry payment x xs h k = rw (h, k) refl

increase_adds :
    (now payment_id : ℕ) (r : CumulativeRefund) (increase : ℕ) (db : Database)
    {p : Unit {0} × Database}
    → refund_increase now payment_id r increase db ≡ ok p
    → refunded_so_far payment_id p.1.payment_ledger
      ≡ increase + refunded_so_far payment_id db.payment_ledger
increase_adds now payment_id r increase db {p} e =
    let i = refund_increase-eq-ok now r increase payment_id db e in
    let inserted = (insert_refund-Aside _ db i.inserted).same_ledger in
    let recovered =
      (recover-Aside now i.found _ i.refund.0.id _ i.refund.1 i.recovers).same_ledger in
    let after = increased_db now r increase i.found i.recovered.1 in
    let closed = (close_purchase-Aside i.found r after i.closes).same_ledger in
    let own : (i.found.payment.id == payment_id) ≡ true =
      first-holds (λ (p : PaymentRow). p.id == payment_id) db.payments
        (find_payment-eq-some (λ p. p.id == payment_id) db i.lookup).payment_row in
    rw
      (
        closed,
        refunded_so_far_entry payment_id
            (partial_refund_entry i.found.payment r increase i.recovered.1.next_id)
            i.recovered.1.payment_ledger own refl,
        recovered,
        inserted,
      )
      refl

rest_adds :
    (now payment_id : ℕ) (r : CumulativeRefund) (previous : ℕ) (db : Database)
    {p : Option String × Database}
    → refund_rest now payment_id r previous db ≡ ok p
    → refunded_so_far payment_id p.1.payment_ledger
      ≡ (r.refunded_amount - previous) + refunded_so_far payment_id db.payment_ledger
rest_adds now payment_id r previous db {p} e = elim (Bool-cases (r.refunded_amount == previous)) [
  | inl k ↦
      let same : p ≡ (none, db) = (let e' = rw k at e in ground arith) in
      rw same (ground (arith, k))
  | inr k ↦
      elim (Result-cases (refund_increase now payment_id r (r.refunded_amount - previous) db)) [
        | inl (q, l) ↦
            let same : p ≡ (none, q.1) = (let e' = rw (k, l) at e in ground arith) in
            rw same (increase_adds now payment_id r (r.refunded_amount - previous) db l)
        | inr (x, l) ↦ let e' = rw (k, l) at e in ground arith
      ]
]

-- A pending refund of a purchase is the one of its identifier.
abbrev pub IsPending : ℕ → Database → RefundRow → Type 0
IsPending purchase db r =
    (first (λ (y : RefundRow). y.id == r.id) db.refunds ≡ some r)
    × (r.purchase_id ≡ purchase)
    × (is_unsettled r.status ≡ true)

pub All-select_iff {ℓ} :
    {A : Type ℓ} (p : A → Bool) (xs : List A) → All (λ x. p x ≡ true) (select p xs)
All-select_iff p [] = tt
All-select_iff p (x ∷ xs) = ground (arith, All-select_iff p xs)

first_of-All :
    {A : Type 0} (P : A → Type 0) (xs : List A) {x : A} → All P xs → first_of xs ≡ some x → P x
first_of-All P [] h e = cc
first_of-All P (y ∷ xs) h e = ground (arith, h.0)

pub pending_refund-IsPending :
    (purchase : ℕ) (db : Database) {r : RefundRow}
    → Distinct refund_id db.refunds
    → pending_refund purchase db ≡ some r
    → IsPending purchase db r
unfolding pending_refund
pending_refund-IsPending purchase db {r} distinct e =
    let test = λ (r : RefundRow). r.purchase_id == purchase && is_unsettled r.status in
    let rows = select test db.refunds in
    first_of-All (IsPending purchase db) (sort_by refund_key rows)
      (sort_by-All refund_key (IsPending purchase db) rows (
        All-map2 (λ x. first (λ (y : RefundRow). y.id == x.id) db.refunds ≡ some x)
          (λ x. test x ≡ true) (IsPending purchase db) rows
          (λ x found held. (found, ground arith, ground arith))
          (All-select _ test db.refunds (first-Distinct refund_id db.refunds distinct))
          (All-select_iff test db.refunds)))
      e

-- The completion of a pending refund adds its amount.
completed_adds :
    (payments : Payments) (now inbox purchase : ℕ) (r : CumulativeRefund) (db : Database)
    (pending : RefundRow) (payment : PaymentRow) {p : RefundRow × Database}
    → IsPending purchase db pending
    → payment_of purchase db ≡ some payment
    → complete_refund payments now pending.id (some r.event) db ≡ ok p
    → refunded_so_far payment.id p.1.payment_ledger
      ≡ pending.refund_amount + refunded_so_far payment.id db.payment_ledger
completed_adds payments now inbox purchase r db pending payment {p} is_pending paid e =
    let c = complete_refund-eq-ok payments now pending.id (some r.event) db e in
    let found = c.found in
    let f = find_refund-eq-some (λ r. r.id == pending.id) db c.lookup in
    let refund : found.refund ≡ pending = (let e1 = f.refund_row in let e2 = is_pending.0 in cc) in
    let own : found.purchase.id ≡ found.refund.purchase_id =
      ==→eq found.purchase.id found.refund.purchase_id (
        first-holds (λ (q : PurchaseRow). q.id == found.refund.purchase_id) db.purchases
          f.purchase_row) in
    let same : found.purchase.id ≡ purchase = own ∙ ap (λ r. r.purchase_id) refund ∙ is_pending.1 in
    let of_payment : c.payment ≡ payment =
      (let e1 = f.payment_row in
        let e2 = c.has_payment in let e3 = ap (λ i. payment_of i db) same in cc) in
    elim c.outcome [
      | inl (done, _) ↦
          let unsettled = is_pending.2 in
          let done' : is_completed_refund pending.status ≡ true =
            subst (λ r. is_completed_refund r.status ≡ true) refund done in
          ground arith
      | inr (_, settled) ↦
          rw
            (
              settle_refund-eq-ok now (some r.event) found c.payment db settled,
              of_payment,
              refund,
              refunded_so_far_entry payment.id (refund_entry now pending payment (some r.event) _)
                  db.payment_ledger (==_refl payment.id) refl,
            )
            refl
    ]

-- A cumulative refund that is accepted, of a purchase's only payment: after it the refunds and
-- chargebacks of the payment add up to exactly the amount that the provider reports, which is no
-- more than the net amount; whether or not a refund was pending, and whatever was refunded before.
pub cumulative_exact :
    (payments : Payments) (now inbox : ℕ) (payment : PaymentRow) (r : CumulativeRefund)
    (db db' : Database)
    → payment_of payment.purchase_id db ≡ some payment
    → Distinct refund_id db.refunds
    → apply_cumulative_refund payments now inbox payment r db ≡ ok (none, db')
    → (refunded_so_far payment.id db'.payment_ledger ≡ r.refunded_amount)
      × (r.refunded_amount ≤ r.net_amount)
unfolding apply_cumulative_refund refund_with_pending
cumulative_exact payments now inbox payment r db db' paid distinct e =
    elim (Bool-cases (is_amount_mismatch payment r)) [
      | inl k ↦ let e' = rw k at e in ground arith
      | inr k ↦ elim (Bool-cases (is_currency_mismatch payments payment r.event)) [
        | inl l ↦ let e' = rw (k, l) at e in ground arith
        | inr l ↦
            let previous = refunded_so_far payment.id db.payment_ledger in
            elim (Bool-cases (ltb r.refunded_amount previous)) [
              | inl m ↦ let e' = rw (k, l, m) at e in ground arith
              | inr m ↦ elim (Option-cases (pending_refund payment.purchase_id db)) [
                | inl n ↦
                    let adds = rest_adds now payment.id r previous db (rw (k, l, m, n) at e) in
                    (ground arith, ground arith)
                | inr (pending, n) ↦
                    elim (Bool-cases (ltb (r.refunded_amount - previous) pending.refund_amount)) [
                      | inl o ↦ let e' = rw (k, l, m, n, o) at e in ground arith
                      | inr o ↦
                          elim (Result-cases
                            (complete_refund payments now pending.id (some r.event) db)) [
                              | inr (x, q) ↦ let e' = rw (k, l, m, n, o, q) at e in ground arith
                              | inl (c, q) ↦
                                  let adds =
                                    rest_adds now payment.id r (previous + pending.refund_amount)
                                      c.1 (rw (k, l, m, n, o, q) at e) in
                                  let added =
                                    completed_adds payments now inbox payment.purchase_id r db
                                      pending payment
                                      (pending_refund-IsPending payment.purchase_id db distinct n)
                                      paid q in
                                  (ground arith, ground arith)
                            ]
                    ]
              ]
            ]
      ]
    ]
