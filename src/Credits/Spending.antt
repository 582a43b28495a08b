-- ===== src/Credits/Spending.antt =====
-- Use of credits (credits/credits.service.ts): the steps that `spendCredits` and
-- `captureReservationInTx` share, and `spendCredits`.
pub mod Effect
pub mod Charge
pub mod Overdraw
pub mod Outcome
pub mod Order
use opod_service_backend.Prelude.{
  ℕ, Bool, true, false, ◌||◌, Option, none, ◌++◌, map, String, Number, positive_integer,
}
use opod_service_backend.Prelude.Int.{pos, ltb_ℤ}
use opod_service_backend.Prelude.Text.{trim, non_empty}
use opod_service_backend.Database.{
  Tx, bad_request, insufficient_credits, return, reads, modify, throw_if, or_throw, ◌>>=◌, ◌>>◌,
}
use opod_service_backend.Database.CreditRows.{LedgerRow, usage, UsageRow, ExternalReference}
use opod_service_backend.Credits.Ledger.{insert_ledger}
use opod_service_backend.Credits.Balance.{Balance, balance_breakdown}
use opod_service_backend.Credits.Allocation.{Allocation, allocate_usage}

abbrev pub usage_row : ℕ → Allocation → UsageRow
usage_row id a = record { usage_ledger_id = id; grant_ledger_id = a.grant.id; amount = a.amount }

abbrev pub usage_entry : ℕ → ℕ → ℕ → String → Option ExternalReference → ℕ → LedgerRow
usage_entry now user amount reason reference id = record {
  id = id;
  user_id = user;
  type = usage;
  credit_kind = none;
  purchase_id = none;
  promotion_code = none;
  amount = amount;
  expires_at = none;
  reason = reason;
  external_reference = reference;
  created_at = now;
}

-- Allocate, write the usage entry, and write the rows of `credit_usage`.
unfoldable pub use_credits : ℕ → ℕ → ℕ → String → Option ExternalReference → Tx LedgerRow
use_credits now user amount reason reference = do
  allocations ← allocate_usage now user amount
  entry ← insert_ledger (usage_entry now user amount reason reference)
  modify (λ d. record d { usages = map (usage_row entry.id) allocations ++ d.usages })
  return entry

-- `balance.paidBalance < 0 || balance.availableBalance < amount`
abbrev pub is_short : Balance → ℕ → Bool
is_short b amount = ltb_ℤ b.paid_balance (pos 0) || ltb_ℤ b.available_balance (pos amount)

-- `!Number.isInteger(amount) || amount <= 0 || !reason?.trim()`, or the amount.
abbrev pub valid_amount : Number → String → Option ℕ
valid_amount n reason = elim (non_empty (trim reason)) [ true ↦ positive_integer n | false ↦ none ]

unfoldable pub spend_credits : ℕ → ℕ → Number → String → Tx LedgerRow
spend_credits now user number reason = do
  amount ←
      or_throw (valid_amount number reason) (bad_request "Credit amount and reason are required")
  balance ← reads (balance_breakdown now user)
  throw_if (is_short balance amount) insufficient_credits
  use_credits now user amount (trim reason) none
