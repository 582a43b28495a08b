-- ===== src/Purchases/Cumulative/Cases.antt =====
-- What a cumulative refund that succeeds has done.
use opod_service_backend.Prelude.{
  ℕ, suc, ◌≡◌, refl, some, Option-cases, inl, inr, ◌==◌, ◌∷◌, update, arith,
}
use opod_service_backend.Database.{Database, ok, >>=-eq-ok}
use opod_service_backend.Database.PaymentRows.{RefundRow}
use opod_service_backend.Database.ProviderRows.{PaymentRow}
use opod_service_backend.Credits.Balance.{purchase_credits}
use opod_service_backend.Credits.WellFormed.Entries.{frame-WellFormed}
use opod_service_backend.Purchases.Rows.{
  PaymentWithPurchase, find_payment, insert_refund, touched, insert_payment_entry,
}
use opod_service_backend.Purchases.Reversals.{CumulativeRefund, recovered_of, recover}
use opod_service_backend.Purchases.Cumulative.{
  RecoveryPlan, recovery_plan, recovery_of, partial_refund_row, partly_refunded,
  partial_refund_entry, close_purchase, refund_increase,
}
use opod_service_backend.Purchases.Writes.{
  Step, Step-trans, insert_refund-Aside, recover-Aside, close_purchase-Aside,
}

module _ (now : ℕ) (r : CumulativeRefund) (increase : ℕ) where
  abbrev pub plan_of : PaymentWithPurchase → Database → RecoveryPlan
  plan_of found db =
      recovery_plan (purchase_credits now found.purchase.user_id found.payment.purchase_id db) r
        (recovered_of found.payment.purchase_id db)

  -- The payment and the payment ledger after the increase.
  abbrev pub increased_db : PaymentWithPurchase → Database → Database
  increased_db found db = record db {
    next_id = suc db.next_id;
    payments =
        update (λ (p : PaymentRow). p.id == found.payment.id)
          (touched now (partly_refunded r found.payment.status)) db.payments;
    payment_ledger = partial_refund_entry found.payment r increase db.next_id ∷ db.payment_ledger;
  }

  pub record Increase (payment_id : ℕ) (db : Database) (p : Unit {0} × Database) : Type 0 where
    pub found : PaymentWithPurchase
    pub lookup : find_payment (λ p. p.id == payment_id) db ≡ some found
    pub refund : RefundRow × Database
    pub inserted :
        insert_refund (partial_refund_row now found r (plan_of found db) increase) db ≡ ok refund
    pub recovered : Unit {0} × Database
    pub recovers :
        recover now found
          (recovery_of (plan_of found db))
          refund.0.id
          "provider partial refund"
          refund.1
        ≡ ok recovered
    pub closes : close_purchase found r (increased_db found recovered.1) ≡ ok p

  pub refund_increase-eq-ok :
      (payment_id : ℕ) (db : Database) {p : Unit {0} × Database}
      → refund_increase now payment_id r increase db ≡ ok p
      → Increase payment_id db p
  unfolding refund_increase insert_payment_entry
  refund_increase-eq-ok payment_id db {p} e =
      elim (Option-cases (find_payment (λ p. p.id == payment_id) db)) [
        | inl k ↦ let e' = rw k at e in ground arith
        | inr (found, k) ↦
            let e' = rw k at e in
            let row = partial_refund_row now found r (plan_of found db) increase in
            let (refund, inserted, e2) = >>=-eq-ok (insert_refund row) _ db e' in
            let (recovered, recovers, e3) =
              >>=-eq-ok
                (recover now found (recovery_of (plan_of found db)) refund.0.id
                  "provider partial refund")
                _ refund.1 e2 in
            record {
              found = found;
              lookup = k;
              refund = refund;
              inserted = inserted;
              recovered = recovered;
              recovers = recovers;
              closes = e3;
            }
      ]

  increased_db-Step :
      (found : PaymentWithPurchase) (db : Database) → Step db (increased_db found db)
  increased_db-Step found db = record {
    keeps = frame-WellFormed refl refl refl (omega arith);
    same_events = refl;
  }

  pub refund_increase-Step :
      (payment_id : ℕ) (db : Database) {p : Unit {0} × Database}
      → refund_increase now payment_id r increase db ≡ ok p
      → Step db p.1
  refund_increase-Step payment_id db e =
      let i = refund_increase-eq-ok payment_id db e in
      let s1 = (insert_refund-Aside _ db i.inserted).step in
      let s2 = (recover-Aside now i.found _ i.refund.0.id _ i.refund.1 i.recovers).step in
      let s3 = increased_db-Step i.found i.recovered.1 in
      let s4 =
        (close_purchase-Aside i.found r (increased_db i.found i.recovered.1) i.closes).step in
      Step-trans s1 (Step-trans s2 (Step-trans s3 s4))
