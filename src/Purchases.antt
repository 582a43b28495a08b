-- ===== src/Purchases.antt =====
-- Purchases of credits and their refunds (purchases/purchases.service.ts).
pub mod Rows
pub mod Refunds
pub mod Quotes
pub mod Reversals
pub mod Cumulative
pub mod Events
pub mod Applying
pub mod Products
pub mod Inserts
pub mod InApp
pub mod Listing
pub mod Redirects
pub mod Checkouts
pub mod Ensure
pub mod Requests
pub mod Service
pub mod Environment
pub mod Lookups
pub mod Writes
