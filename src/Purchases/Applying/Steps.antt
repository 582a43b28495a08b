-- ===== src/Purchases/Applying/Steps.antt =====
-- What the effects of an event on payments keep: the credit tables' invariant, and the events.
use opod_service_backend.Prelude.{ℕ, ◌≡◌, refl, Bool-cases, Option, none, inl, inr, String, arith}
use opod_service_backend.Database.{Database, ok, >>=-eq-ok}
use opod_service_backend.Database.CreditRows.{LedgerRow}
use opod_service_backend.Database.PaymentRows.{RefundRow}
use opod_service_backend.Database.ProviderRows.{is_open, is_returned}
use opod_service_backend.Credits.Balance.{purchase_credits}
use opod_service_backend.Credits.Granting.{GrantInput, grant_credits, grant_entry}
use opod_service_backend.Credits.Granting.Cases.{grant_credits-eq-ok}
use opod_service_backend.Credits.Granting.Repeated.{insert_ledger-eq-ok}
use opod_service_backend.Credits.WellFormed.Entries.{frame-WellFormed, entry-WellFormed}
use opod_service_backend.Credits.WellFormed.Holds.{grant_credits-Keeps}
use opod_service_backend.Payments.{Payments, PaymentEvent}
use opod_service_backend.Purchases.Rows.{
  PaymentWithPurchase, insert_refund, insert_payment_entry, create_notification,
}
use opod_service_backend.Purchases.Writes.{Step, Step-trans, insert_refund-Aside, recover-Aside}
use opod_service_backend.Purchases.Refunds.{complete_refund}
use opod_service_backend.Purchases.Refunds.Cases.{
  complete_refund-eq-ok, settle_refund-eq-ok, recovered,
}
use opod_service_backend.Purchases.Reversals.{
  reverse_payment, force_reversal, reversal_row, recover, full_recovery,
}
use opod_service_backend.Purchases.Applying.{fulfil, purchase_grant, apply_failed}

pub Step-refl : {a : Database} → Step a a
Step-refl = record { keeps = λ v. v; same_events = refl }

pub grant_credits-Step :
    (now : ℕ) (input : GrantInput) (db : Database) {p : LedgerRow × Database}
    → grant_credits now input db ≡ ok p
    → Step db p.1
grant_credits-Step now input db {p} e =
    let g = grant_credits-eq-ok now input db e in
    record {
      keeps = grant_credits-Keeps now input db p e;
      same_events = elim g.outcome [
        | inl (_, _, same) ↦ rw same refl
        | inr (_, inserted) ↦
            rw (insert_ledger-eq-ok (grant_entry now input g.amount) db inserted) refl
      ];
    }

pub fulfil-Step :
    (payments : Payments) (digits : ℕ → String) (now : ℕ) (found : PaymentWithPurchase)
    (event : PaymentEvent) (db : Database) {p : Unit {0} × Database}
    → fulfil payments digits now found event db ≡ ok p
    → Step db p.1
unfolding fulfil insert_payment_entry create_notification
fulfil-Step payments digits now found event db {p} e =
    let (q, granted, e') = >>=-eq-ok (grant_credits now (purchase_grant found)) _ db e in
    let s = grant_credits-Step now (purchase_grant found) db granted in
    let t : Step q.1 p.1 = record {
      keeps = λ v. ground (arith, frame-WellFormed {a = q.1} {b = p.1});
      same_events = ground arith;
    } in
    Step-trans s t

pub apply_failed-Step :
    (payments : Payments) (digits : ℕ → String) (now : ℕ) (found : PaymentWithPurchase)
    (db : Database) {p : Option String × Database}
    → apply_failed payments digits now found db ≡ ok p
    → (p.0 ≡ none) × Step db p.1
unfolding apply_failed
apply_failed-Step payments digits now found db {p} e =
    elim (Bool-cases (is_open found.payment.status)) [
      | inl k ↦
          let e' = rw k at e in
          (
            ground arith,
            record {
              keeps = λ v. ground (arith, frame-WellFormed {a = db} {b = p.1});
              same_events = ground arith;
            },
          )
      | inr k ↦
          let same : p ≡ (none, db) = (let e' = rw k at e in ground arith) in
          rw same (refl, Step-refl)
    ]

pub complete_refund-Step :
    (payments : Payments) (now id : ℕ) (event : Option PaymentEvent) (db : Database)
    {p : RefundRow × Database}
    → complete_refund payments now id event db ≡ ok p
    → Step db p.1
complete_refund-Step payments now id event db e =
    let c = complete_refund-eq-ok payments now id event db e in
    elim c.outcome [
      | inl (_, same) ↦ rw same Step-refl
      | inr (_, settled) ↦ rw (settle_refund-eq-ok now event c.found c.payment db settled) (record {
        keeps = λ v.
            frame-WellFormed refl refl refl (omega arith)
              (entry-WellFormed v (recovered now event c.found db.next_id) refl (λ h. cc));
        same_events = refl;
      })
    ]

reverse_payment-Step :
    (now : ℕ) (found : PaymentWithPurchase) (event : PaymentEvent) (db : Database)
    {p : Unit {0} × Database}
    → reverse_payment now found event db ≡ ok p
    → Step db p.1
unfolding reverse_payment insert_payment_entry
reverse_payment-Step now found event db {p} e =
    let credits = purchase_credits now found.purchase.user_id found.payment.purchase_id db in
    let (refund, inserted, e2) =
      >>=-eq-ok (insert_refund (reversal_row now found event credits)) _ db e in
    let (q, recovers, e3) =
      >>=-eq-ok (recover now found (full_recovery credits) refund.0.id "provider reversal") _
        refund.1 e2 in
    let s1 = (insert_refund-Aside _ db inserted).step in
    let s2 = (recover-Aside now found _ refund.0.id _ refund.1 recovers).step in
    let s3 : Step q.1 p.1 = record {
      keeps = λ v. ground (arith, frame-WellFormed {a = q.1} {b = p.1});
      same_events = ground arith;
    } in
    Step-trans s1 (Step-trans s2 s3)

pub force_reversal-Step :
    (now : ℕ) (found : PaymentWithPurchase) (event : PaymentEvent) (db : Database)
    {p : Unit {0} × Database}
    → force_reversal now found event db ≡ ok p
    → Step db p.1
unfolding force_reversal
force_reversal-Step now found event db {p} e =
    elim (Bool-cases (is_returned found.payment.status)) [
      | inl k ↦ let same : p ≡ (tt, db) = (let e' = rw k at e in ground arith) in rw same Step-refl
      | inr k ↦ reverse_payment-Step now found event db (rw k at e)
    ]
