-- ===== src/Credits/WellFormed.antt =====
-- The invariant of the credit tables: identifiers are distinct and below the next one, every grant
-- has a kind, and no grant is used beyond its amount.
pub mod Entries
pub mod Holds
pub mod Reservations
pub mod History
use opod_service_backend.Prelude.{ℕ, ◌<◌, ◌≤◌, List, ◌≡◌, ◌≢◌, Bool, true, none, All, Distinct}
use opod_service_backend.Database.{Database}
use opod_service_backend.Database.CreditRows.{LedgerRow, UsageRow, ReservationRow}
use opod_service_backend.Credits.Ledger.{is_grant}
use opod_service_backend.Credits.Balance.{used_of}
use opod_service_backend.Credits.Grants.Distinct.{id_of}

abbrev pub reservation_id : ReservationRow → ℕ
reservation_id r = r.id

abbrev pub HasKind : LedgerRow → Type 0
HasKind r = is_grant r.type ≡ true → r.credit_kind ≢ none

-- The uses of a grant add up to no more than its amount.
abbrev pub Within : List UsageRow → LedgerRow → Type 0
Within usages r = is_grant r.type ≡ true → used_of usages r.id ≤ r.amount

pub record WellFormed (db : Database) : Type 0 where
  pub entries_distinct : Distinct id_of db.ledger
  pub entries_below : All (λ r. r.id < db.next_id) db.ledger
  pub grants_kinded : All HasKind db.ledger
  pub usages_below : All (λ u. u.grant_ledger_id < db.next_id) db.usages
  pub not_overdrawn : All (Within db.usages) db.ledger
  pub reservations_distinct : Distinct reservation_id db.reservations
  pub reservations_below : All (λ r. r.id < db.next_id) db.reservations
