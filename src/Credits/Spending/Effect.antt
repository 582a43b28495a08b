-- ===== src/Credits/Spending/Effect.antt =====
-- The effect of a use of credits on the tables, and on what is available.
use mathlib.Core.Path.{fun_ext}
use opod_service_backend.Prelude.{
  ℕ, suc, ◌+◌, ◌≡◌, ◌≢◌, refl, true, false, Option, none, some, List, [], ◌∷◌, ◌++◌, map, ◌==◌,
  select, All, Distinct, select-Distinct, arith, String, Number, Option-cases, inl, inr, ◌&&◌,
}
use opod_service_backend.Prelude.Text.{trim}
use opod_service_backend.Database.{Database, ok}
use opod_service_backend.Database.CreditRows.{LedgerRow, UsageRow, ExternalReference}
use opod_service_backend.Credits.WellFormed.{WellFormed, HasKind}
use opod_service_backend.Credits.Ledger.{insert_ledger, reference_taken, is_grant}
use opod_service_backend.Credits.Grants.{GrantSnapshot}
use opod_service_backend.Credits.Grants.Distinct.{id_of, sort-All, sort-Distinct}
use opod_service_backend.Credits.Grants.Taken.{
  grant_id, less, walk-less, walk-grants, walk-Distinct,
}
use opod_service_backend.Credits.Balance.{
  grant_state, balance_breakdown, grants_of, used_of, recoveries_of, locks_of,
}
use opod_service_backend.Credits.Allocation.{Allocation, allocation, allocate_usage}
use opod_service_backend.Credits.Allocation.Drawn.{drawn, drawn-le, Kinded}
use opod_service_backend.Credits.Spending.{
  usage_row, usage_entry, use_credits, spend_credits, valid_amount, is_short,
}

-- The database after a use of credits.
abbrev pub used_db :
    ℕ → ℕ → ℕ → String → Option ExternalReference → List Allocation → Database → Database
used_db now user amount reason reference allocations db = record db {
  next_id = suc db.next_id;
  ledger = usage_entry now user amount reason reference db.next_id ∷ db.ledger;
  usages = map (usage_row db.next_id) allocations ++ db.usages;
}

module _ (now user amount : ℕ) (reason : String) (reference : Option ExternalReference)
    (db : Database) where
  abbrev pub used_now : Database
  used_now = used_db now user amount reason reference (allocation now user amount db).0 db

  -- Credits are used exactly if the allocation leaves nothing over and the reference is new.
  pub use_credits_lem :
      (allocation now user amount db).1 ≡ 0
      → reference_taken reference db ≡ false
      → use_credits now user amount reason reference db
        ≡ ok (usage_entry now user amount reason reference db.next_id, used_now)
  unfolding use_credits allocate_usage insert_ledger
  use_credits_lem h k = ground arith

  pub use_credits-eq-ok :
      {p : LedgerRow × Database}
      → use_credits now user amount reason reference db ≡ ok p
      → ((allocation now user amount db).1 ≡ 0)
        × (p ≡ (usage_entry now user amount reason reference db.next_id, used_now))
  unfolding use_credits allocate_usage insert_ledger
  use_credits-eq-ok h = ground arith

pub used_of-append :
    (id i : ℕ) (as' : List Allocation) (us : List UsageRow)
    → used_of (map (usage_row id) as' ++ us) i ≡ used_of us i + drawn i as'
unfolding used_of
used_of-append id i [] us = omega arith
used_of-append id i (a ∷ as') us = ground (arith, used_of-append id i as' us)

abbrev pub snapshots_of : ℕ → ℕ → Database → List GrantSnapshot
snapshots_of now user db = (grant_state true now user db).snapshots

kinded-select :
    (user : ℕ) (rows : List LedgerRow)
    → All HasKind rows
    → All
        (λ (r : LedgerRow). r.credit_kind ≢ none)
        (select (λ r. r.user_id == user && is_grant r.type) rows)
kinded-select user [] h = tt
kinded-select user (r ∷ rows) h = ground (arith, kinded-select user rows h.1, h.0)

module _ (now user : ℕ) {db : Database} (v : WellFormed db) where
  pub snapshots-Distinct : Distinct grant_id (snapshots_of now user db)
  unfolding grant_state grants_of
  snapshots-Distinct =
      walk-Distinct true now (used_of db.usages) (grants_of user db) (recoveries_of user db.ledger)
        (locks_of user db)
        (sort-Distinct (select (λ r. r.user_id == user && is_grant r.type) db.ledger) (
          select-Distinct id_of (λ r. r.user_id == user && is_grant r.type) db.ledger
            v.entries_distinct))

  pub snapshots-Kinded : Kinded (snapshots_of now user db)
  unfolding grant_state grants_of
  snapshots-Kinded =
      walk-grants (λ r. r.credit_kind ≢ none) true now (used_of db.usages) (grants_of user db)
        (recoveries_of user db.ledger) (locks_of user db)
        (sort-All (λ r. r.credit_kind ≢ none)
          (select (λ r. r.user_id == user && is_grant r.type) db.ledger)
          (kinded-select user db.ledger v.grants_kinded))

-- An entry that is neither a grant nor a recovery does not show in what a grant state is made of.
grants_of-usage :
    (user : ℕ) (db : Database) (now amount : ℕ) (reason : String)
    (reference : Option ExternalReference) (as' : List Allocation)
    → grants_of user (used_db now user amount reason reference as' db) ≡ grants_of user db
unfolding grants_of
grants_of-usage user db now amount reason reference as' = ground arith

recoveries_of-usage :
    (user : ℕ) (now amount id : ℕ) (reason : String) (reference : Option ExternalReference)
    (rows : List LedgerRow)
    → recoveries_of user (usage_entry now user amount reason reference id ∷ rows)
      ≡ recoveries_of user rows
unfolding recoveries_of
recoveries_of-usage user now amount id reason reference rows = ground arith

locks_of-usage :
    (user : ℕ) (db : Database) (now amount : ℕ) (reason : String)
    (reference : Option ExternalReference) (as' : List Allocation)
    → locks_of user (used_db now user amount reason reference as' db) ≡ locks_of user db
unfolding locks_of
locks_of-usage user db now amount reason reference as' = refl

module _ (now user amount : ℕ) (reason : String) (reference : Option ExternalReference)
    {db : Database} (v : WellFormed db) where
  abbrev pub drawn_now : ℕ → ℕ
  drawn_now i = drawn i (allocation now user amount db).0

  -- After the use, each snapshot has what was drawn on it less, and the debt is the same.
  pub grant_state-use :
      grant_state true now user (used_now now user amount reason reference db) ≡ record {
        snapshots = map (less drawn_now) (snapshots_of now user db);
        recovery_debt = (grant_state true now user db).recovery_debt;
      }
  unfolding grant_state allocation
  grant_state-use = rw (
    grants_of-usage user db now amount reason reference (allocation now user amount db).0,
    recoveries_of-usage user now amount db.next_id reason reference db.ledger,
    locks_of-usage user db now amount reason reference (allocation now user amount db).0,
    used_after,
    walk-less true now (used_of db.usages) drawn_now (grants_of user db)
        (recoveries_of user db.ledger) (locks_of user db)
        (drawn-le amount _ (snapshots_of now user db) (snapshots-Distinct now user v)),
  )
    where
      used_after :
          used_of (map (usage_row db.next_id) (allocation now user amount db).0 ++ db.usages)
          ≡ (λ i. used_of db.usages i + drawn_now i)
      used_after =
          fun_ext λ i. used_of-append db.next_id i (allocation now user amount db).0 db.usages

-- A spend that succeeds is a use of the validated amount, which the balance covered.
pub spend_credits-eq-ok :
    (now user : ℕ) (n : Number) (reason : String) (db : Database) {r : LedgerRow × Database}
    → spend_credits now user n reason db ≡ ok r
    → (amount : ℕ) × (valid_amount n reason ≡ some amount)
      × (is_short (balance_breakdown now user db) amount ≡ false)
      × (use_credits now user amount (trim reason) none db ≡ ok r)
unfolding spend_credits
spend_credits-eq-ok now user n reason db e = elim (Option-cases (valid_amount n reason)) [
  | inl h ↦ ground arith
  | inr (amount, h) ↦ (amount, h, ground arith, ground arith)
]
