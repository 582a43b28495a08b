-- ===== src/Tests/Spending.antt =====
-- Spending on the small database.
use opod_service_backend.Prelude.{ℕ, ◌≡◌, refl, none, integer, false, if◌then◌else◌, leb}
use opod_service_backend.Prelude.Int.{pos, ◌+ℤ◌, ◌-ℤ◌, ◌≤ℤ◌}
use opod_service_backend.Prelude.Text.{trim}
use opod_service_backend.Database.{Database, ok, err, insufficient_credits}
use opod_service_backend.Credits.Ledger.{insert_ledger}
use opod_service_backend.Credits.Grants.{walk, sort_grants, deduct}
use opod_service_backend.Credits.Balance.{
  balance_breakdown, grant_state, grants_of, used_of, recoveries_of, locks_of, available_of,
  adjusted, reserved_amount,
}
use opod_service_backend.Credits.Allocation.{allocation, allocate, allocate_usage}
use opod_service_backend.Credits.Spending.{spend_credits, use_credits, usage_entry, is_short}
use opod_service_backend.Credits.Spending.Effect.{used_now, snapshots_of}
use opod_service_backend.Credits.Spending.Outcome.{usable, spend_outcome, spend_takes}
use opod_service_backend.Credits.Spending.Order.{use_in_order, Exhausts, InUseOrder}
use opod_service_backend.Credits.Allocation.Drawn.{drawn}
use opod_service_backend.Tests.Data.{sample, sample-WellFormed, adjusted_db, adjusted_db-WellFormed}

-- Everything that a balance and a use of credits compute with.
unfoldable pub evaluated : ℕ
unfolding balance_breakdown grant_state grants_of used_of recoveries_of locks_of available_of
    adjusted reserved_amount ◌+ℤ◌ ◌-ℤ◌ walk deduct sort_grants
evaluated = 0

sample_available : (balance_breakdown 100 1 sample).available_balance ≡ pos 78
unfolding evaluated
sample_available = refl

after_spend : Database
after_spend = used_now 100 1 40 "stickers" none sample

spends :
    spend_credits 100 1 (integer (pos 40)) " stickers " sample
    ≡ ok (usage_entry 100 1 40 "stickers" none 3, after_spend)
unfolding evaluated spend_credits use_credits allocate_usage allocation allocate insert_ledger trim
    after_spend
spends = refl

spend_takes_example :
    let b' = balance_breakdown 100 1 after_spend in
    (b'.available_balance ≡ (balance_breakdown 100 1 sample).available_balance -ℤ pos 40)
    × (pos 0 ≤ℤ b'.available_balance)
    × (pos 0 ≤ℤ b'.paid_balance)
unfolding trim
spend_takes_example =
    spend_takes 100 1 40 (integer (pos 40)) " stickers " sample
      {p = (usage_entry 100 1 40 "stickers" none 3, after_spend)} sample-WellFormed refl spends

-- The balance of the adjusted user covers 10 credits, and no grant does.
spend_outcome_example : spend_credits 100 1 (integer (pos 10)) "stickers" adjusted_db ≡ (
    if is_short (balance_breakdown 100 1 adjusted_db) 10
    then err insufficient_credits
    else if leb 10 (usable 100 1 adjusted_db)
    then ok (
      usage_entry 100 1 10 (trim "stickers") none 3,
      used_now 100 1 10 (trim "stickers") none adjusted_db,
    )
    else err insufficient_credits)
unfolding trim
spend_outcome_example =
    spend_outcome 100 1 adjusted_db-WellFormed 10 (integer (pos 10)) "stickers" refl

adjusted_short : is_short (balance_breakdown 100 1 adjusted_db) 10 ≡ false
unfolding evaluated
adjusted_short = refl

adjusted_refused :
    spend_credits 100 1 (integer (pos 10)) "stickers" adjusted_db ≡ err insufficient_credits
unfolding evaluated spend_credits use_credits allocate_usage allocation allocate insert_ledger trim
adjusted_refused = refl

use_in_order_example :
    InUseOrder (snapshots_of 100 1 sample)
    × Exhausts (λ t. drawn t.grant.id (allocation 100 1 40 sample).0) (snapshots_of 100 1 sample)
use_in_order_example = use_in_order 100 1 40 sample sample-WellFormed
