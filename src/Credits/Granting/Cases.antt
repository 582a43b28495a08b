-- ===== src/Credits/Granting/Cases.antt =====
-- How a grant ends: it finds its entry, or it writes one, or it throws.
use opod_service_backend.Prelude.{
  ℕ, ◌≡◌, true, false, not, none, some, Option-cases, ◌⊎◌, inl, inr, arith, ◌&&◌, is_some,
}
use opod_service_backend.Prelude.Text.{has_text}
use opod_service_backend.Database.{Database, ok}
use opod_service_backend.Database.CreditRows.{LedgerRow, paid, kind_eq}
use opod_service_backend.Credits.Ledger.{insert_ledger}
use opod_service_backend.Credits.Spending.{valid_amount}
use opod_service_backend.Credits.Granting.{
  GrantInput, grant_credits, grant_entry, find_entry, is_same_grant, input_kind,
}

-- What a grant that succeeds has checked and done.
pub record Granted (now : ℕ) (input : GrantInput) (db : Database) (r : LedgerRow × Database)
    : Type 0 where
  pub amount : ℕ
  pub validated : valid_amount input.amount input.reason ≡ some amount
  pub paid_linked : (kind_eq (input_kind input) paid && not (is_some input.purchase_id)) ≡ false
  pub promotion_linked : (has_text input.promotion_code && not (is_some input.purchase_id)) ≡ false
  pub outcome :
      ((find_entry input.external_reference db ≡ some r.0)
        × (is_same_grant input amount r.0 ≡ true)
        × (r.1 ≡ db))
      ⊎ ((find_entry input.external_reference db ≡ none)
          × (insert_ledger (grant_entry now input amount) db ≡ ok r))

pub grant_credits-eq-ok :
    (now : ℕ) (input : GrantInput) (db : Database) {r : LedgerRow × Database}
    → grant_credits now input db ≡ ok r
    → Granted now input db r
unfolding grant_credits
grant_credits-eq-ok now input db {r} e =
    elim (Option-cases (valid_amount input.amount input.reason)) [
      | inl h ↦ ground arith
      | inr (amount, h) ↦ elim (Option-cases (find_entry input.external_reference db)) [
        | inl k ↦ record {
          amount = amount;
          validated = h;
          paid_linked = ground arith;
          promotion_linked = ground arith;
          outcome = inr (k, ground arith);
        }
        | inr (x, k) ↦ record {
          amount = amount;
          validated = h;
          paid_linked = ground arith;
          promotion_linked = ground arith;
          outcome = inl (ground arith, ground arith, ground arith);
        }
      ]
    ]

-- A grant whose entry is there already.
pub grant_found :
    (now : ℕ) (input : GrantInput) (db : Database) (amount : ℕ) (r : LedgerRow)
    → valid_amount input.amount input.reason ≡ some amount
    → (kind_eq (input_kind input) paid && not (is_some input.purchase_id)) ≡ false
    → (has_text input.promotion_code && not (is_some input.purchase_id)) ≡ false
    → find_entry input.external_reference db ≡ some r
    → is_same_grant input amount r ≡ true
    → grant_credits now input db ≡ ok (r, db)
unfolding grant_credits
grant_found now input db amount r valid linked promotion found same =
    rw (valid, linked, promotion, found, same)
