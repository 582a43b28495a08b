-- ===== src/Credits/Grants.antt =====
-- `grantState` of credits/credits.service.ts: what is left of each grant of a user, in the order
-- in which credits are used, and the recoveries that no grant covers.
mod Walk
mod Sort
pub mod Distinct
pub mod Taken
pub mod Sorted
unfoldable pub use Walk.*
unfoldable pub use Sort.*
