-- ===== src/Purchases/InApp/Repeated.antt =====
-- A purchase in a store that is claimed again.
use opod_service_backend.Prelude.{
  ℕ, suc, ◌≡◌, refl, false, Bool-cases, some, Option-cases, inl, inr, String, ◌∷◌, ◌==◌, ==_refl,
  any, arith,
}
use opod_service_backend.Prelude.Text.{eq_refl}
use opod_service_backend.Database.{Database, ok, err, conflict, >>=-eq-ok}
use opod_service_backend.Database.PaymentRows.{PurchaseRow}
use opod_service_backend.Database.ProviderRows.{PaymentRow, ProductRow}
use opod_service_backend.Credits.Granting.{grant_credits}
use opod_service_backend.Payments.{VerifiedPurchase}
use opod_service_backend.Purchases.Rows.{
  PaymentWithPurchase, find_payment, join_purchase, has_key, insert_payment_entry,
}
use opod_service_backend.Purchases.Events.{has_payment_key}
use opod_service_backend.Purchases.Inserts.{
  insert_purchase, insert_payment, same_checkout, same_transaction_key,
}
use opod_service_backend.Purchases.Products.{PurchaseView}
use opod_service_backend.Purchases.Writes.{grant_credits_kept}
use opod_service_backend.Purchases.InApp.{
  InAppInput, in_app_purchase, in_app_payment, in_app_grant, view_found, record_in_app,
  claim_in_app,
}

pub insert_purchase-eq-ok :
    (row : ℕ → PurchaseRow) (db : Database) {p : PurchaseRow × Database}
    → insert_purchase row db ≡ ok p
    → p ≡ (
      row db.next_id,
      record db { next_id = suc db.next_id; purchases = row db.next_id ∷ db.purchases },
    )
unfolding insert_purchase
insert_purchase-eq-ok row db e =
    elim (Bool-cases
      (any (has_key (row db.next_id).user_id (row db.next_id).idempotency_key) db.purchases)) [
        | inl k ↦ let e' = rw k at e in ground arith
        | inr k ↦ let e' = rw k at e in ground arith
      ]

pub insert_payment-eq-ok :
    (row : ℕ → PaymentRow) (db : Database) {p : PaymentRow × Database}
    → insert_payment row db ≡ ok p
    → p ≡ (
      row db.next_id,
      record db { next_id = suc db.next_id; payments = row db.next_id ∷ db.payments },
    )
unfolding insert_payment
insert_payment-eq-ok row db e =
    let new = row db.next_id in
    elim (Bool-cases (any (same_checkout new) db.payments)) [
      | inl k ↦ let e' = rw k at e in ground arith
      | inr k ↦ elim (Bool-cases (any (same_transaction_key new) db.payments)) [
        | inl l ↦ let e' = rw (k, l) at e in ground arith
        | inr l ↦
            elim (Bool-cases
              (any (λ (p : PaymentRow). p.purchase_id == new.purchase_id) db.payments)) [
                | inl m ↦ let e' = rw (k, l, m) at e in ground arith
                | inr m ↦ let e' = rw (k, l, m) at e in ground arith
              ]
      ]
    ]

module _ (now : ℕ) (input : InAppInput) (product : ProductRow) (external : String)
    (v : VerifiedPurchase) where
  -- The purchase and the payment that are recorded, from the next identifier on.
  abbrev recorded : ℕ → PaymentWithPurchase
  recorded id = record {
    payment = in_app_payment now input external v id (suc id);
    purchase = in_app_purchase now input product v id;
  }

  record_in_app-eq-ok :
      (db : Database) {p : PurchaseView × Database}
      → record_in_app now input product external v db ≡ ok p
      → (p.0 ≡ view_found (recorded db.next_id))
        × (find_payment (has_payment_key v.provider v.transaction_key) p.1
            ≡ some (recorded db.next_id))
  unfolding record_in_app insert_payment_entry
  record_in_app-eq-ok db {p} e =
      let id = db.next_id in
      let (q, inserted, e2) =
        >>=-eq-ok (insert_purchase (in_app_purchase now input product v)) _ db e in
      let q' = insert_purchase-eq-ok (in_app_purchase now input product v) db inserted in
      let (r, paid, e3) =
        >>=-eq-ok (insert_payment (in_app_payment now input external v q.0.id)) _ q.1 e2 in
      let r' = insert_payment-eq-ok (in_app_payment now input external v q.0.id) q.1 paid in
      let grant = in_app_grant input.user_id product.credit_amount q.0.id in
      let (s, granted, e4) = >>=-eq-ok (grant_credits now grant) _ _ e3 in
      let (payments, purchases) = grant_credits_kept now grant _ granted in
      let same : p ≡ (view_found (record { payment = r.0; purchase = q.0 }), s.1) = ground arith in
      let payments_now : p.1.payments ≡ (recorded id).payment ∷ db.payments =
        rw (same, payments, r', q') refl in
      let purchases_now : p.1.purchases ≡ (recorded id).purchase ∷ db.purchases =
        rw (same, purchases, r', q') refl in
      (
        rw (same, r', q') refl,
        rw
            (
              find_payment,
              payments_now,
              eq_refl v.provider,
              eq_refl v.transaction_key,
              join_purchase,
              purchases_now,
              ==_refl id,
            )
            refl,
      )

-- A purchase in a store that a user has claimed, claimed again: by the same user, at whatever time,
-- it is the same purchase and nothing changes, so its credits are granted once; by another user, it
-- is a conflict.
pub claim_in_app_again :
    (now later : ℕ) (input other : InAppInput) (product product' : ProductRow)
    (external external' : String) (v : VerifiedPurchase) (db : Database)
    (p : PurchaseView × Database)
    → (input.user_id == other.user_id) ≡ false
    → claim_in_app now input product external v db ≡ ok p
    → (claim_in_app later input product' external' v p.1 ≡ ok p)
      × (claim_in_app later other product' external' v p.1
          ≡ err (conflict "Purchase already claimed"))
unfolding claim_in_app
claim_in_app_again now later input other product product' external external' v db p differ e =
    elim (Option-cases (find_payment (has_payment_key v.provider v.transaction_key) db)) [
      | inr (found, k) ↦ elim (Bool-cases (found.purchase.user_id == input.user_id)) [
        | inr l ↦ let e' = rw (k, l) at e in ground arith
        | inl l ↦
            let same : p ≡ (view_found found, db) = (let e' = rw (k, l) at e in ground arith) in
            let theirs : (found.purchase.user_id == other.user_id) ≡ false = ground arith in
            rw same (rw (k, l) refl, rw (k, theirs) refl)
      ]
      | inl k ↦
          let (view, found) =
            record_in_app-eq-ok now input product external v db {p = p} (rw k at e) in
          (rw (found, ==_refl input.user_id, view) refl, rw (found, differ) refl)
    ]
