-- ===== src/Credits/Allocation.antt =====
-- `allocateUsage` of credits/credits.service.ts: which grants a use of credits draws on.
pub mod Drawn
pub mod Order
use opod_service_backend.Prelude.{ℕ, ◌-◌, min, Bool, true, List, [], ◌∷◌, ◌==◌, if◌then◌else◌, ltb}
use opod_service_backend.Prelude.Int.{pos_part}
use opod_service_backend.Database.{
  Database, Tx, insufficient_credits, return, reads, throw_if, ◌>>=◌, ◌>>◌,
}
use opod_service_backend.Database.CreditRows.{LedgerRow, paid}
use opod_service_backend.Credits.Ledger.{is_kind}
use opod_service_backend.Credits.Grants.{GrantSnapshot}
use opod_service_backend.Credits.Balance.{grant_state, balance_breakdown}

pub record Allocation : Type 0 where
  pub grant : LedgerRow
  pub amount : ℕ

abbrev pub is_paid : GrantSnapshot → Bool
is_paid s = is_kind paid s.grant.credit_kind

-- What one snapshot may give, and what it gives.
abbrev pub capacity : ℕ → GrantSnapshot → ℕ
capacity paid_capacity s = if is_paid s then min s.available paid_capacity else s.available

abbrev pub take_from : ℕ → ℕ → GrantSnapshot → ℕ
take_from remaining paid_capacity s = min remaining (capacity paid_capacity s)

-- The loop over the snapshots: the allocations, and what could not be allocated.
unfoldable pub allocate : ℕ → ℕ → List GrantSnapshot → List Allocation × ℕ
allocate remaining paid_capacity [] = ([], remaining)
allocate remaining paid_capacity (s ∷ ss) =
    let take = take_from remaining paid_capacity s in
    let rest =
      allocate (remaining - take) (if is_paid s then paid_capacity - take else paid_capacity) ss in
    if remaining == 0
    then ([], 0)
    else if take == 0
    then rest
    else (record { grant = s.grant; amount = take } ∷ rest.0, rest.1)

-- The allocations that the current state gives.
unfoldable pub allocation : ℕ → ℕ → ℕ → Database → List Allocation × ℕ
allocation now user amount db =
    allocate amount (pos_part (balance_breakdown now user db).paid_balance)
      (grant_state true now user db).snapshots

unfoldable pub allocate_usage : ℕ → ℕ → ℕ → Tx (List Allocation)
allocate_usage now user amount = do
  result ← reads (allocation now user amount)
  throw_if (ltb 0 result.1) insufficient_credits
  return result.0
