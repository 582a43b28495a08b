-- ===== src/Tests.antt =====
-- Runs on small databases, and the theorems at concrete inputs.
mod Data
mod Spending
mod Reservations
mod Granting
mod Worker
mod Shop
mod Purchases
mod Requests
mod Pages
