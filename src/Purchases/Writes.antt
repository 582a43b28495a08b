-- ===== src/Purchases/Writes.antt =====
-- What the inserts and updates of purchases/purchases.service.ts leave as it was.
use opod_service_backend.Prelude.{
  ℕ, suc, ◌≡◌, refl, ◌∙◌, Bool-cases, inl, inr, ◌∷◌, String, ◌==◌, ltb, update, if◌then◌else◌,
  arith,
}
use opod_service_backend.Database.{Database, ok, Result-cases}
use opod_service_backend.Database.PaymentRows.{
  PurchaseRow, PurchaseStatus, RefundRow, is_refunded_purchase,
}
use opod_service_backend.Database.CreditRows.{LedgerRow}
use opod_service_backend.Credits.Granting.{
  GrantInput, grant_credits, grant_entry, record_refund_recovery, recovery_entry,
}
use opod_service_backend.Credits.Granting.Cases.{grant_credits-eq-ok}
use opod_service_backend.Credits.Granting.Repeated.{insert_ledger-eq-ok}
use opod_service_backend.Credits.WellFormed.{WellFormed}
use opod_service_backend.Credits.WellFormed.Entries.{frame-WellFormed}
use opod_service_backend.Credits.WellFormed.Holds.{record_refund_recovery-Keeps}
use opod_service_backend.Purchases.Rows.{
  PaymentWithPurchase, insert_refund, refund_key_taken, purchase_status,
}
use opod_service_backend.Purchases.Reversals.{recover, CumulativeRefund}
use opod_service_backend.Purchases.Cumulative.{close_purchase, is_full}

-- A step after which the credit tables are well formed if they were, and the events of the payment
-- providers are the same.
pub record Step (a b : Database) : Type 0 where
  pub keeps : WellFormed a → WellFormed b
  pub same_events : b.provider_events ≡ a.provider_events

pub Step-trans : {a b c : Database} → Step a b → Step b c → Step a c
Step-trans s t = record {
  keeps = λ v. t.keeps (s.keeps v);
  same_events = t.same_events ∙ s.same_events;
}

-- A step after which the payment ledger is the same too.
pub record Aside (a b : Database) : Type 0 where
  pub step : Step a b
  pub same_ledger : b.payment_ledger ≡ a.payment_ledger

pub insert_refund-eq-ok :
    (row : ℕ → RefundRow) (db : Database) {p : RefundRow × Database}
    → insert_refund row db ≡ ok p
    → p ≡ (
      row db.next_id,
      record db { next_id = suc db.next_id; refunds = row db.next_id ∷ db.refunds },
    )
unfolding insert_refund
insert_refund-eq-ok row db e = elim (Bool-cases (refund_key_taken (row db.next_id) db)) [
  | inl k ↦ let e' = rw k at e in ground arith
  | inr k ↦ let e' = rw k at e in ground arith
]

pub insert_refund-Aside :
    (row : ℕ → RefundRow) (db : Database) {p : RefundRow × Database}
    → insert_refund row db ≡ ok p
    → Aside db p.1
insert_refund-Aside row db e = rw (insert_refund-eq-ok row db e) (record {
  step = record { keeps = frame-WellFormed refl refl refl (omega arith); same_events = refl };
  same_ledger = refl;
})

pub recover-Aside :
    (now : ℕ) (found : PaymentWithPurchase) (amount refund : ℕ) (reason : String) (db : Database)
    {p : Unit {0} × Database}
    → recover now found amount refund reason db ≡ ok p
    → Aside db p.1
unfolding record_refund_recovery
recover-Aside now found amount refund reason db {p} e = elim (Bool-cases (ltb 0 amount)) [
  | inr k ↦
      let same : p ≡ (tt, db) = (let e' = rw k at e in ground arith) in
      rw same (record { step = record { keeps = λ v. v; same_events = refl }; same_ledger = refl })
  | inl k ↦
      let m =
        record_refund_recovery now found.purchase.user_id found.payment.purchase_id amount refund
          reason in
      elim (Result-cases (m db)) [
        | inr (x, l) ↦ let e' = rw (k, l) at e in ground arith
        | inl (q, l) ↦
            let same : p ≡ (tt, q.1) = (let e' = rw (k, l) at e in ground arith) in
            rw same (record {
              step = record {
                keeps =
                    record_refund_recovery-Keeps now found.purchase.user_id
                      found.payment.purchase_id amount refund reason db q l;
                same_events =
                    rw
                      (insert_ledger-eq-ok
                        (recovery_entry now found.purchase.user_id found.payment.purchase_id amount
                          refund reason)
                        db l)
                      refl;
              };
              same_ledger =
                  rw
                    (insert_ledger-eq-ok
                      (recovery_entry now found.purchase.user_id found.payment.purchase_id amount
                        refund reason)
                      db l)
                    refl;
            })
      ]
]

pub close_purchase-Aside :
    (found : PaymentWithPurchase) (r : CumulativeRefund) (db : Database) {p : Unit {0} × Database}
    → close_purchase found r db ≡ ok p
    → Aside db p.1
close_purchase-Aside found r db {p} e =
    elim (Bool-cases (is_refunded_purchase found.purchase.status)) [
      | inl k ↦
          let same : p ≡ (tt, db) = (let e' = rw k at e in ground arith) in
          rw same
            (record { step = record { keeps = λ v. v; same_events = refl }; same_ledger = refl })
      | inr k ↦
          let same : p ≡ (
            tt,
            record db {
              purchases =
                  update (λ (q : PurchaseRow). q.id == found.payment.purchase_id)
                    (purchase_status
                      (if is_full r then PurchaseStatus.reversed else PurchaseStatus.completed))
                    db.purchases;
            },
          ) =
            (let e' = rw k at e in ground arith) in
          rw same (record {
            step = record {
              keeps = frame-WellFormed refl refl refl (omega arith);
              same_events = refl;
            };
            same_ledger = refl;
          })
    ]

-- A grant of credits leaves purchases and payments as they are.
pub grant_credits_kept :
    (now : ℕ) (input : GrantInput) (db : Database) {p : LedgerRow × Database}
    → grant_credits now input db ≡ ok p
    → (p.1.payments ≡ db.payments) × (p.1.purchases ≡ db.purchases)
grant_credits_kept now input db e =
    let g = grant_credits-eq-ok now input db e in
    elim g.outcome [
      | inl (_, _, same) ↦ rw same (refl, refl)
      | inr (_, inserted) ↦
          rw (insert_ledger-eq-ok (grant_entry now input g.amount) db inserted) (refl, refl)
    ]
