-- ===== src/Credits/CheckIns/Repeated.antt =====
-- One check-in a day.
use opod_service_backend.Prelude.{ℕ, ◌≡◌, ap, ==_refl, inl, inr}
use opod_service_backend.Database.{Database, ok, err, conflict}
use opod_service_backend.Database.CreditRows.{LedgerRow}
use opod_service_backend.Credits.Granting.{grant_credits, grant_entry, GrantInput}
use opod_service_backend.Credits.Granting.Cases.{grant_credits-eq-ok}
use opod_service_backend.Credits.Granting.Repeated.{insert_ledger-eq-ok}
use opod_service_backend.Credits.CheckIns.{CheckInResult, check_in_user, insert_check_in}
use opod_service_backend.Credits.CheckIns.Cases.{check_in_user-eq-ok, checked_db, check_in_grant}

-- A grant leaves the rows of the check-ins alone.
grant_credits-check_ins :
    (now : ℕ) (input : GrantInput) (db : Database) {p : LedgerRow × Database}
    → grant_credits now input db ≡ ok p
    → p.1.check_ins ≡ db.check_ins
grant_credits-check_ins now input db e =
    let g = grant_credits-eq-ok now input db e in
    elim g.outcome [
      | inl (_, _, kept) ↦ rw kept
      | inr (_, inserted) ↦
          ap (λ (t : LedgerRow × Database). t.1.check_ins)
            (insert_ledger-eq-ok (grant_entry now input g.amount) db inserted)
    ]

-- After a check-in that succeeds, another one of the same user on the same date, at whatever time
-- and so with no second grant, is refused.
pub check_in_again :
    (now later user month day : ℕ) (db : Database) (p : CheckInResult × Database)
    → check_in_user now user month day db ≡ ok p
    → check_in_user later user month day p.1 ≡ err (conflict "Already checked in today")
unfolding check_in_user insert_check_in
check_in_again now later user month day db p e =
    let c = check_in_user-eq-ok now user month day db e in
    let rows : p.1.check_ins ≡ (checked_db user month day db).check_ins = rw c.kept (
      grant_credits-check_ins now (check_in_grant user month day db) (checked_db user month day db)
        c.granted) in
    rw (rows, ==_refl user, ==_refl month, ==_refl day)
