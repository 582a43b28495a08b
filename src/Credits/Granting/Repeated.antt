-- ===== src/Credits/Granting/Repeated.antt =====
-- Grants and recoveries a second time.
use opod_service_backend.Prelude.{
  ℕ, suc, ◌≡◌, refl, sym, subst, true, Option, none, some, ◌∷◌, ==_refl, opt_eq, arith, String, inl,
  inr,
}
use opod_service_backend.Database.{Database, ok, err, unique_violation}
use opod_service_backend.Database.CreditRows.{
  LedgerRow, ExternalReference, signup_bonus, check_in, credit_purchase, credit_reservation,
  credit_refund, reference_eq, CreditKind, free, paid, kind_eq,
}
use opod_service_backend.Credits.Ledger.{insert_ledger}
use opod_service_backend.Credits.Granting.{
  GrantInput, input_kind, is_same_grant, grant_entry, grant_credits, recovery_entry,
  record_refund_recovery,
}
use opod_service_backend.Credits.Granting.Cases.{grant_credits-eq-ok, grant_found}

pub reference_eq_refl : (e : ExternalReference) → reference_eq e e ≡ true
reference_eq_refl (signup_bonus a) = ==_refl a
reference_eq_refl (check_in a m d) = ground arith
reference_eq_refl (credit_purchase a) = ==_refl a
reference_eq_refl (credit_reservation a) = ==_refl a
reference_eq_refl (credit_refund a) = ==_refl a

opt_eq_refl : (o : Option ℕ) → opt_eq o o ≡ true
opt_eq_refl none = refl
opt_eq_refl (some a) = ==_refl a

kind_eq_refl : (k : CreditKind) → kind_eq k k ≡ true
kind_eq_refl free = refl
kind_eq_refl paid = refl

own_grant :
    (now id amount : ℕ) (input : GrantInput)
    → is_same_grant input amount (grant_entry now input amount id) ≡ true
own_grant now id amount input = ground (
  arith,
  ==_refl input.user_id,
  ==_refl amount,
  kind_eq_refl (input_kind input),
  opt_eq_refl input.purchase_id,
)

-- What an insertion into the ledger does.
pub insert_ledger-eq-ok :
    (row : ℕ → LedgerRow) (db : Database) {p : LedgerRow × Database}
    → insert_ledger row db ≡ ok p
    → p ≡ (
      row db.next_id,
      record db { next_id = suc db.next_id; ledger = row db.next_id ∷ db.ledger },
    )
unfolding insert_ledger
insert_ledger-eq-ok row db e = ground arith

-- A grant repeated under its external reference returns the same entry and changes nothing, however
-- much later: the credits are granted once.
pub grant_again :
    (now later : ℕ) (input : GrantInput) (reference : ExternalReference) (db : Database)
    (p : LedgerRow × Database)
    → input.external_reference ≡ some reference
    → grant_credits now input db ≡ ok p
    → grant_credits later input p.1 ≡ ok p
grant_again now later input reference db p named e =
    let g = grant_credits-eq-ok now input db e in
    elim g.outcome [
      | inl (found, same, kept) ↦
          subst (λ d. grant_credits later input d ≡ ok (p.0, d)) (sym kept)
            (grant_found later input db g.amount p.0 g.validated g.paid_linked g.promotion_linked
              found same)
      | inr (fresh, inserted) ↦
          let made = insert_ledger-eq-ok (grant_entry now input g.amount) db inserted in
          let row = grant_entry now input g.amount db.next_id in
          rw made (
            grant_found later input
              (record db { next_id = suc db.next_id; ledger = row ∷ db.ledger }) g.amount row
              g.validated g.paid_linked g.promotion_linked
              (rw named (ground (arith, named, reference_eq_refl reference)))
              (own_grant now db.next_id g.amount input))
    ]

-- A refund is recovered once: a second recovery under the same refund breaks the unique index, so
-- its transaction fails.
pub recovery_again :
    (now later user user' purchase purchase' amount amount' refund : ℕ) (reason reason' : String)
    (db : Database) (p : LedgerRow × Database)
    → record_refund_recovery now user purchase amount refund reason db ≡ ok p
    → record_refund_recovery later user' purchase' amount' refund reason' p.1
      ≡ err (unique_violation "credit_ledger_external_reference_key")
unfolding record_refund_recovery insert_ledger
recovery_again now later user user' purchase purchase' amount amount' refund reason reason' db p e =
    let made = insert_ledger-eq-ok (recovery_entry now user purchase amount refund reason) db e in
    rw made (rw (==_refl refund))
