-- ===== src/Credits/CheckIns/Cases.antt =====
-- How a check-in ends.
use opod_service_backend.Prelude.{ℕ, ◌+◌, ◌≡◌, false, Bool-cases, inl, inr, ◌∷◌, any, arith}
use opod_service_backend.Database.{Database, ok, Result-cases}
use opod_service_backend.Database.CreditRows.{LedgerRow, check_in}
use opod_service_backend.Credits.Pricing.{check_in_milestone_bonus, daily_check_in_credits}
use opod_service_backend.Credits.Granting.{grant_credits, free_grant, GrantInput}
use opod_service_backend.Credits.CheckIns.{
  CheckInResult, check_in_user, insert_check_in, is_check_in, month_count,
}

-- The database with the new row.
abbrev pub checked_db : ℕ → ℕ → ℕ → Database → Database
checked_db user month day db = record db {
  check_ins = record { user_id = user; month = month; day = day } ∷ db.check_ins;
}

abbrev pub check_in_grant : ℕ → ℕ → ℕ → Database → GrantInput
check_in_grant user month day db =
    free_grant user
      (daily_check_in_credits
        + check_in_milestone_bonus (month_count user month (checked_db user month day db)))
      "daily check-in" (check_in user month day)

-- What a check-in that succeeds has done.
pub record CheckedIn (now user month day : ℕ) (db : Database) (r : CheckInResult × Database)
    : Type 0 where
  pub entry : LedgerRow
  pub after : Database
  pub first_today : any (is_check_in user month day) db.check_ins ≡ false
  pub granted :
      grant_credits now (check_in_grant user month day db) (checked_db user month day db)
      ≡ ok (entry, after)
  pub kept : r.1 ≡ after
  pub count : r.0.month_check_in_count ≡ month_count user month (checked_db user month day db)

pub check_in_user-eq-ok :
    (now user month day : ℕ) (db : Database) {r : CheckInResult × Database}
    → check_in_user now user month day db ≡ ok r
    → CheckedIn now user month day db r
unfolding check_in_user insert_check_in
check_in_user-eq-ok now user month day db e =
    elim (Bool-cases (any (is_check_in user month day) db.check_ins)) [
      | inl taken ↦ ground arith
      | inr free ↦
          elim (Result-cases
            (grant_credits now (check_in_grant user month day db) (checked_db user month day db))) [
              | inl ((entry, after), g) ↦ record {
                entry = entry;
                after = after;
                first_today = free;
                granted = g;
                kept = ground arith;
                count = ground arith;
              }
              | inr (f, g) ↦ ground arith
            ]
    ]
