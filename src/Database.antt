-- ===== src/Database.antt =====
-- The part of the database that the services share (core/database), and its transactions.
pub mod CreditRows
pub mod PaymentRows
pub mod ProviderRows
pub mod NotificationRows
pub mod CharacterRows
pub mod MessageRows
pub mod Services
mod Transactions
pub use Transactions.*
