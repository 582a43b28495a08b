-- ===== src/Purchases/Requests/Single.antt =====
-- A purchase has one refund in progress.
use opod_service_backend.Prelude.{
  ℕ, ◌+◌, ◌≤◌, ◌<◌, ◌≡◌, refl, Bool, true, false, Option-cases, inl, inr, String, ==_refl, List, [],
  ◌∷◌, select, sum, opt_is, arith,
}
use opod_service_backend.Database.{Database, ok, Result-cases}
use opod_service_backend.Database.PaymentRows.{PurchaseRow}
use opod_service_backend.Credits.Balance.{
  PurchaseCredits, purchase_credits, locked_of_purchase, grant_state, is_promotion,
  is_paid_promotion, remaining,
}
use opod_service_backend.Payments.{Payments}
use opod_service_backend.Purchases.Rows.{find_refund}
use opod_service_backend.Purchases.Quotes.{remaining_eligible, is_eligible}
use opod_service_backend.Purchases.Requests.{
  PreparedRefund, refund_named, assert_if_payment, prepare_refund,
}
use opod_service_backend.Purchases.Requests.Repeated.{
  Requested, new_refund-eq-ok, named_refund, refunding_db,
}

sum-select-le :
    {A : Type 0} (f : A → ℕ) (p q : A → Bool) (xs : List A)
    → ((x : A) → p x ≡ true → q x ≡ true)
    → sum f (select p xs) ≤ sum f (select q xs)
sum-select-le f p q [] h = omega arith
sum-select-le f p q (x ∷ xs) h = ground (arith, h x, sum-select-le f p q xs h)

promotion-le :
    (now user purchase : ℕ) (db : Database)
    → (purchase_credits now user purchase db).remaining_paid_promotion
      ≤ (purchase_credits now user purchase db).remaining_promotion
unfolding purchase_credits
promotion-le now user purchase db =
    sum-select-le remaining is_paid_promotion is_promotion
      (select (λ s. opt_is s.grant.purchase_id purchase) (grant_state false now user db).snapshots)
      (λ x h. ground arith)

eligible_positive :
    (row : PurchaseRow) (c : PurchaseCredits)
    → is_eligible row c ≡ true
    → (0 < remaining_eligible c) × (c.locked ≡ 0)
eligible_positive row c h = ground arith

module _ (payments : Payments) (now user purchase : ℕ) (key : String) (db : Database) where
  -- A new refund locks credits.
  lock_positive :
      {p : PreparedRefund × Database} (r : Requested payments now user purchase key db p)
      → 0 < (named_refund payments now user purchase key db r.quote.0).locked_amount
  lock_positive r =
      let c = purchase_credits now user purchase db in
      let eligible : is_eligible r.quoted.row c ≡ true =
        (let h = r.eligible in rw r.quoted.quote at h) in
      let positive = (eligible_positive r.quoted.row c eligible).0 in
      rw r.quoted.quote (omega (arith, positive, promotion-le now user purchase db))

  locked_after :
      {p : PreparedRefund × Database} (r : Requested payments now user purchase key db p)
      → locked_of_purchase purchase
          (refunding_db payments now user purchase key db r.quote.0).refunds
        ≡ (named_refund payments now user purchase key db r.quote.0).locked_amount
          + locked_of_purchase purchase db.refunds
  unfolding locked_of_purchase
  locked_after r = rw (==_refl purchase) refl

-- While a new refund of a purchase is in progress, no request makes another one for it: whoever asks,
-- under whatever key, is given a refund that is there already, or an error.
pub no_second_refund :
    (payments : Payments) (now later user user' purchase : ℕ) (key key' : String) (db : Database)
    (p q : PreparedRefund × Database)
    → prepare_refund payments now user purchase key db ≡ ok p
    → p.0.is_new ≡ true
    → prepare_refund payments later user' purchase key' p.1 ≡ ok q
    → q.0.is_new ≡ false
unfolding prepare_refund purchase_credits
no_second_refund payments now later user user' purchase key key' db p q e is_new e' =
    elim (Option-cases (find_refund (refund_named purchase key') p.1)) [
      | inr (found, k) ↦ elim (Result-cases (assert_if_payment payments found.payment p.1)) [
        | inr (x, l) ↦ let h = rw (k, l) at e' in ground arith
        | inl (c, l) ↦ let h = rw (k, l) at e' in ground arith
      ]
      | inl k ↦ elim (Option-cases (find_refund (refund_named purchase key) db)) [
        | inr (found, m) ↦ elim (Result-cases (assert_if_payment payments found.payment db)) [
          | inr (x, l) ↦ let h = rw (m, l) at e in ground arith
          | inl (c, l) ↦ let h = rw (m, l) at e in ground arith
        ]
        | inl m ↦
            let r = new_refund-eq-ok payments now user purchase key db (rw m at e) in
            let r' = new_refund-eq-ok payments later user' purchase key' p.1 (rw k at e') in
            let c = purchase_credits later user' purchase p.1 in
            let eligible : is_eligible r'.quoted.row c ≡ true =
              (let h = r'.eligible in rw r'.quoted.quote at h) in
            let unlocked : locked_of_purchase purchase p.1.refunds ≡ 0 =
              (eligible_positive r'.quoted.row c eligible).1 in
            let unlocked' = rw r.outcome at unlocked in
            let positive = lock_positive payments now user purchase key db r in
            let locked = locked_after payments now user purchase key db r in ground arith
      ]
    ]
