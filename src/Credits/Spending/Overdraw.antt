-- ===== src/Credits/Spending/Overdraw.antt =====
-- A use of credits keeps every grant within its amount, and leaves the grants of other users alone.
use opod_service_backend.Prelude.{
  ℕ, ◌-◌, ◌≤◌, ◌<◌, ◌≡◌, ◌≢◌, Bool, true, false, ◌==◌, ◌&&◌, select, All, All-map, All-map2,
  All-select, Differs, select-All, select-Differs, arith,
}
use opod_service_backend.Database.{Database}
use opod_service_backend.Database.CreditRows.{LedgerRow}
use opod_service_backend.Credits.WellFormed.{WellFormed}
use opod_service_backend.Credits.Ledger.{is_grant}
use opod_service_backend.Credits.Grants.{unspent}
use opod_service_backend.Credits.Grants.Distinct.{id_of, All-sort, sort-All}
use opod_service_backend.Credits.Grants.Taken.{walk-le-unspent, walk-grants, All-walk}
use opod_service_backend.Credits.Balance.{grant_state, grants_of, used_of, recoveries_of, locks_of}
use opod_service_backend.Credits.Allocation.{Allocation, allocation}
use opod_service_backend.Credits.Allocation.Drawn.{drawn, drawn-le, drawn-absent, allocate-grants}
use opod_service_backend.Credits.Spending.Effect.{snapshots_of, snapshots-Distinct}

abbrev pub is_grant_of : ℕ → LedgerRow → Bool
is_grant_of user r = r.user_id == user && is_grant r.type

module _ (now user amount : ℕ) {db : Database} (v : WellFormed db) where
  abbrev pub draws : ℕ → ℕ
  draws i = drawn i (allocation now user amount db).0

  snapshots-Unspent :
      All
        (λ s. s.available ≤ unspent now (used_of db.usages s.grant.id) s.grant)
        (snapshots_of now user db)
  unfolding grant_state
  snapshots-Unspent =
      walk-le-unspent true now (used_of db.usages) (grants_of user db)
        (recoveries_of user db.ledger) (locks_of user db)

  snapshots-Covered :
      All
        (λ s. draws s.grant.id ≤ s.grant.amount - used_of db.usages s.grant.id)
        (snapshots_of now user db)
  unfolding allocation
  snapshots-Covered =
      All-map2 (λ s. s.available ≤ unspent now (used_of db.usages s.grant.id) s.grant)
        (λ s. draws s.grant.id ≤ s.available)
        (λ s. draws s.grant.id ≤ s.grant.amount - used_of db.usages s.grant.id)
        (snapshots_of now user db) (λ s h k. ground arith) snapshots-Unspent
        (drawn-le amount _ (snapshots_of now user db) (snapshots-Distinct now user v))

  -- What is drawn on a grant of the user is covered by what is not used of it.
  pub own-Covered :
      All
        (λ r. is_grant_of user r ≡ true → draws r.id ≤ r.amount - used_of db.usages r.id)
        db.ledger
  unfolding grant_state grants_of
  own-Covered =
      select-All (λ r. draws r.id ≤ r.amount - used_of db.usages r.id) (is_grant_of user) db.ledger
        (All-sort (λ r. draws r.id ≤ r.amount - used_of db.usages r.id)
          (select (is_grant_of user) db.ledger)
          (All-walk (λ r. draws r.id ≤ r.amount - used_of db.usages r.id) true now
            (used_of db.usages) (grants_of user db) (recoveries_of user db.ledger)
            (locks_of user db) snapshots-Covered))

  absent : (i : ℕ) → Differs id_of i (select (is_grant_of user) db.ledger) → draws i ≡ 0
  unfolding grant_state grants_of allocation
  absent i h = drawn-absent i amount _ (snapshots_of now user db) (
      walk-grants (λ r. r.id ≢ i) true now (used_of db.usages) (grants_of user db)
        (recoveries_of user db.ledger) (locks_of user db)
        (sort-All (λ r. r.id ≢ i) (select (is_grant_of user) db.ledger) h))

  -- Nothing is drawn on any other entry.
  pub others-Untouched : All (λ r. is_grant_of user r ≡ false → draws r.id ≡ 0) db.ledger
  others-Untouched =
      All-map
        (λ r. is_grant_of user r ≡ false → Differs id_of r.id (select (is_grant_of user) db.ledger))
        (λ r. is_grant_of user r ≡ false → draws r.id ≡ 0) db.ledger (λ r f e. absent r.id (f e))
        (select-Differs id_of (is_grant_of user) db.ledger v.entries_distinct)

  -- The grants drawn on are in the ledger.
  pub drawn-Below :
      All (λ (a : Allocation). a.grant.id < db.next_id) (allocation now user amount db).0
  unfolding grant_state grants_of allocation
  drawn-Below =
      allocate-grants (λ r. r.id < db.next_id) amount _ (snapshots_of now user db)
        (walk-grants (λ r. r.id < db.next_id) true now (used_of db.usages) (grants_of user db)
          (recoveries_of user db.ledger) (locks_of user db)
          (sort-All (λ r. r.id < db.next_id) (select (is_grant_of user) db.ledger)
            (All-select (λ r. r.id < db.next_id) (is_grant_of user) db.ledger v.entries_below)))
