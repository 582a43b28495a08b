-- ===== src/Tests/Granting.antt =====
-- Grants, recoveries and check-ins on the small database.
use opod_service_backend.Prelude.{ℕ, suc, ◌≡◌, refl, none, some, List, [], ◌∷◌, integer}
use opod_service_backend.Prelude.Int.{pos}
use opod_service_backend.Prelude.Text.{trim}
use opod_service_backend.Database.{Database, ok, err, conflict, unique_violation}
use opod_service_backend.Database.CreditRows.{LedgerRow, credit_purchase, paid, check_in}
use opod_service_backend.Credits.Ledger.{insert_ledger}
use opod_service_backend.Credits.Granting.{
  GrantInput, grant_credits, grant_entry, record_refund_recovery, recovery_entry, free_grant,
}
use opod_service_backend.Credits.Granting.Repeated.{grant_again, recovery_again}
use opod_service_backend.Credits.CheckIns.{CheckInResult, check_in_user, insert_check_in}
use opod_service_backend.Credits.CheckIns.Cases.{checked_db}
use opod_service_backend.Credits.CheckIns.Repeated.{check_in_again}
use opod_service_backend.Credits.WellFormed.{WellFormed}
use opod_service_backend.Credits.WellFormed.History.{
  Operation, grants, checks_in, captures, releases, spends, perform_all, perform_all-WellFormed,
}
use opod_service_backend.Tests.Data.{sample, sample-WellFormed}

abbrev with_row : LedgerRow → Database → Database
with_row r db = record db { next_id = suc db.next_id; ledger = r ∷ db.ledger }

abbrev sample_grant : GrantInput
sample_grant = record {
  user_id = 1;
  amount = integer (pos 500);
  reason = "credit purchase";
  credit_kind = some paid;
  purchase_id = some 8;
  promotion_code = none;
  external_reference = some (credit_purchase 8);
  expires_at = none;
}

abbrev granted : LedgerRow × Database
granted = (grant_entry 100 sample_grant 500 3, with_row (grant_entry 100 sample_grant 500 3) sample)

grant_runs : grant_credits 100 sample_grant sample ≡ ok granted
unfolding grant_credits insert_ledger trim
grant_runs = refl

grant_again_example : grant_credits 900 sample_grant granted.1 ≡ ok granted
grant_again_example =
    grant_again 100 900 sample_grant (credit_purchase 8) sample granted refl grant_runs

abbrev recovered : LedgerRow × Database
recovered = (
  recovery_entry 100 1 7 20 9 "user refund" 3,
  with_row (recovery_entry 100 1 7 20 9 "user refund" 3) sample,
)

recovery_runs : record_refund_recovery 100 1 7 20 9 "user refund" sample ≡ ok recovered
unfolding record_refund_recovery insert_ledger
recovery_runs = refl

recovery_again_example :
    record_refund_recovery 300 1 7 20 9 "user refund" recovered.1
    ≡ err (unique_violation "credit_ledger_external_reference_key")
recovery_again_example =
    recovery_again 100 300 1 1 7 7 20 20 9 "user refund" "user refund" sample recovered
      recovery_runs

abbrev check_in_result : CheckInResult × Database
check_in_result = (
  record {
    month = 24310;
    day = 3;
    credits_granted = 10;
    milestone_bonus = 0;
    month_check_in_count = 1;
  },
  with_row (grant_entry 100 (free_grant 1 10 "daily check-in" (check_in 1 24310 3)) 10 3)
      (checked_db 1 24310 3 sample),
)

check_in_runs : check_in_user 100 1 24310 3 sample ≡ ok check_in_result
unfolding check_in_user insert_check_in grant_credits insert_ledger trim
check_in_runs = refl

check_in_again_example :
    check_in_user 200 1 24310 3 check_in_result.1 ≡ err (conflict "Already checked in today")
check_in_again_example = check_in_again 100 200 1 24310 3 sample check_in_result check_in_runs

abbrev sample_history : List (ℕ × Operation)
sample_history =
    (100, grants sample_grant)
    ∷ (110, checks_in 1 24310 3)
    ∷ (120, captures "r1")
    ∷ (130, releases "r1")
    ∷ (140, spends 1 (integer (pos 70)) "stickers")
    ∷ []

perform_all-WellFormed_example : WellFormed (perform_all sample_history sample)
perform_all-WellFormed_example = perform_all-WellFormed sample_history sample sample-WellFormed
