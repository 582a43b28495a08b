-- ===== src/Purchases/Refunds/Repeated.antt =====
-- The completion of a refund a second time.
use opod_service_backend.Prelude.{
  ℕ, ◌≡◌, refl, sym, ◌∙◌, true, false, Bool-cases, Option, none, some, ◌⊎◌, inl, inr, if◌then◌else◌,
  arith, ◌==◌, ==_refl, first, first-updated, first-holds,
}
use opod_service_backend.Database.{Database, Result, ok, err, conflict}
use opod_service_backend.Database.PaymentRows.{
  PurchaseRow, PurchaseStatus, RefundRow, is_completed_refund,
}
use opod_service_backend.Database.ProviderRows.{PaymentRow}
use opod_service_backend.Payments.{Payments, PaymentEvent}
use opod_service_backend.Purchases.Rows.{
  RefundWithPurchase, find_refund, join_refund, purchase_by, payment_of, touched, purchase_status,
  assert_payment_environment, is_foreign,
}
use opod_service_backend.Purchases.Environment.{assert_payment_environment-next}
use opod_service_backend.Purchases.Refunds.{complete_refund, completed_refund, refunded_payment}
use opod_service_backend.Purchases.Refunds.Cases.{
  Completion, complete_refund-eq-ok, settle_refund-eq-ok, settled_db,
}
use opod_service_backend.Purchases.Lookups.{FoundRefund, find_refund-eq-some}

-- What the completion of a refund that is completed already gives.
abbrev pub again_or_mismatch :
    PaymentRow → Option PaymentEvent → RefundRow × Database → Result (RefundRow × Database)
again_or_mismatch payment event p =
    if is_foreign payment event then err (conflict "Polar event environment mismatch") else ok p

pub complete_done :
    (payments : Payments) (now id : ℕ) (event : Option PaymentEvent) (db : Database)
    (found : RefundWithPurchase) (payment : PaymentRow)
    → find_refund (λ r. r.id == id) db ≡ some found
    → found.payment ≡ some payment
    → assert_payment_environment payments payment event db ≡ (
        if is_foreign payment event
        then err (conflict "Polar event environment mismatch")
        else ok (tt, db))
    → is_completed_refund found.refund.status ≡ true
    → complete_refund payments now id event db ≡ again_or_mismatch payment event (found.refund, db)
unfolding complete_refund
complete_done payments now id event db found payment k l m done =
    elim (Bool-cases (is_foreign payment event)) [
      | inl foreign ↦ (let m' = rw foreign at m in rw (k, l, m', foreign) refl)
      | inr known ↦ (let m' = rw known at m in rw (k, l, m', known, done) refl)
    ]

passed_known :
    (payments : Payments) (payment : PaymentRow) (event : Option PaymentEvent) (db : Database)
    → assert_payment_environment payments payment event db ≡ ok (tt, db)
    → is_foreign payment event ≡ false
passed_known payments payment event db e =
    let e' = sym (assert_payment_environment-next payments payment event event db db e) ∙ e in
    ground arith

module _ (now : ℕ) (event : Option PaymentEvent) (db : Database) (found : RefundWithPurchase)
    (payment : PaymentRow) where
  abbrev pub paid_back : PaymentRow
  paid_back = touched now (refunded_payment now event) payment

  -- The refund after its completion, with its purchase and payment.
  abbrev pub found_after : RefundWithPurchase
  found_after = record {
    refund = completed_refund now event found.refund;
    purchase = purchase_status PurchaseStatus.refunded found.purchase;
    payment = some paid_back;
  }

  pub find_settled :
      (id : ℕ)
      → found.payment ≡ some payment
      → FoundRefund (λ r. r.id == id) db found
      → find_refund (λ r. r.id == id) (settled_db now event found payment db) ≡ some found_after
  find_settled id l f =
      let after = settled_db now event found payment db in
      let own : (found.purchase.id == found.refund.purchase_id) ≡ true =
        first-holds (λ (q : PurchaseRow). q.id == found.refund.purchase_id) db.purchases
          f.purchase_row in
      let refund : first (λ r. r.id == id) after.refunds
          ≡ some (completed_refund now event found.refund) =
        first-updated (λ (r : RefundRow). r.id == found.refund.id) (λ r. r.id == id)
          (completed_refund now event) db.refunds (λ y. refl) f.refund_row
          (==_refl found.refund.id) in
      let purchase : purchase_by (λ q. q.id == found.refund.purchase_id) after
          ≡ some (purchase_status PurchaseStatus.refunded found.purchase) =
        first-updated (λ (q : PurchaseRow). q.id == found.refund.purchase_id)
          (λ q. q.id == found.refund.purchase_id) (purchase_status PurchaseStatus.refunded)
          db.purchases (λ y. refl) f.purchase_row own in
      let paid : payment_of found.purchase.id after ≡ some paid_back =
        first-updated (λ (p : PaymentRow). p.id == payment.id)
          (λ p. p.purchase_id == found.purchase.id) (touched now (refunded_payment now event))
          db.payments (λ y. refl) (sym f.payment_row ∙ l) (==_refl payment.id) in
      rw (find_refund, refund, join_refund, purchase, paid) refl

-- The payment of a refund that was completed is checked as it was before the completion.
completed_again :
    (payments : Payments) (now later id : ℕ) (event next : Option PaymentEvent) (db : Database)
    (p : RefundRow × Database)
    → (c : Completion payments now id event db p)
    → complete_refund payments later id next p.1 ≡ again_or_mismatch c.payment next p
unfolding assert_payment_environment
completed_again payments now later id event next db p c =
    let found = c.found in
    let payment = c.payment in
    let check : (d : Database) → _ =
      λ d. assert_payment_environment-next payments payment event next db d (c.checked db) in
    elim c.outcome [
      | inl (done, same) ↦ rw same (
          complete_done payments later id next db found payment c.lookup c.has_payment (check db)
            done)
      | inr (_, settled) ↦
          let after = settled_db now event found payment db in
          rw (settle_refund-eq-ok now event found payment db settled) (
            complete_done payments later id next after (found_after now event db found payment)
              (paid_back now event db found payment)
              (find_settled now event db found payment id c.has_payment
                (find_refund-eq-some (λ r. r.id == id) db c.lookup))
              refl (check after) refl)
    ]

-- A refund that is completed, by a report of the provider or by a request, and is then completed
-- again, at whatever time: by the same report, or by a request, it is the same refund and nothing
-- changes; by any other report, it is either that too or the report is refused, since it comes from
-- another environment of the provider.
pub complete_again :
    (payments : Payments) (now later id : ℕ) (event next : Option PaymentEvent) (db : Database)
    (p : RefundRow × Database)
    → complete_refund payments now id event db ≡ ok p
    → (complete_refund payments later id event p.1 ≡ ok p)
      × (complete_refund payments later id none p.1 ≡ ok p)
      × ((complete_refund payments later id next p.1 ≡ ok p)
          ⊎ (complete_refund payments later id next p.1
              ≡ err (conflict "Polar event environment mismatch")))
complete_again payments now later id event next db p e =
    let c = complete_refund-eq-ok payments now id event db e in
    (
      completed_again payments now later id event event db p c
          ∙ (let known = passed_known payments c.payment event db (c.checked db) in rw known refl),
      completed_again payments now later id event none db p c,
      elim (Bool-cases (is_foreign c.payment next)) [
        | inl foreign ↦
            inr (completed_again payments now later id event next db p c ∙ rw foreign refl)
        | inr known ↦ inl (completed_again payments now later id event next db p c ∙ rw known refl)
      ],
    )
