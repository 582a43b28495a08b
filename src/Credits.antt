-- ===== src/Credits.antt =====
-- credits/: the ledger of credits, reservations, check-ins and balances.
pub mod Pricing
pub mod Ledger
pub mod Grants
pub mod Balance
pub mod WellFormed
pub mod Allocation
pub mod Spending
pub mod Reservations
pub mod Granting
pub mod CheckIns
