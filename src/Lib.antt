-- ===== src/Lib.antt =====
-- The service backend of a chat application: its users hold credits, which replies of the characters
-- they chat with cost. Credits come from grants (a sign-up bonus, check-ins, purchases, promotions),
-- are reserved before a reply is written, and are captured or released after it.
--
-- The parts and the files that model them:
--
-- src/core/database (schema.ts, database.service.ts): Database and its child modules. `Database` is
-- the state, a list of rows for each table, new rows first; a table's record has the columns that the
-- modelled code reads or writes. An identifier (a UUID v7) is a number, later ones larger; a time is a
-- number of milliseconds (in Paging, where it matters, of microseconds, which the columns have and a
-- `Date` has not). `Tx` is code in a transaction: it has the database and ends with a value
-- or an exception. `transaction` rolls back on an exception. The advisory locks of the services
-- serialise the transactions on one user, so a transaction is one step.
--
-- src/credits/credits.service.ts, credit-pricing.ts: Credits. Grants is `grantState` (sort, and the pass
-- that takes expiry, use, recoveries and refund locks off each grant), Balance is `balanceBreakdown`,
-- `getBalance` and `getPurchaseCreditSnapshotWithClient`, Allocation is `allocateUsage`, Spending is
-- `spendCredits`, Reservations is `reserveCredits`, `captureReservation` and `releaseReservation`,
-- Granting is `grantCredits`, `grantSignupBonus` and `recordRefundRecoveryWithClient`, CheckIns is
-- `checkIn`. Their child modules hold the proofs, Credits/WellFormed the invariant of the tables.
--
-- src/messages/message-reply.worker.ts, and messages.service.ts as far as it appends messages:
-- Messages. Append is `appendMessageWithClient`, Claiming is `findClaimable` and `claim`, Context is
-- `replyContext`, Worker is `process`, `complete`, `handleFailure` and `finalizeFailure`. The workers of
-- all instances take their transactions on the same database, in any order. What
-- `pg_try_advisory_xact_lock` and the provider of replies gave are arguments.
--
-- src/payments: Payments. A provider's network calls are functions of its record, and so are the platform's
-- upper case and SHA-256; Calls are the methods of `PaymentsService` that a provider answers.
--
-- src/purchases/purchases.service.ts: Purchases. Rows has the searches, updates and inserts, Refunds is
-- `completeRefundWithClient`, Quotes is `refundQuoteWithClient`, Reversals is `forceReversal`, Cumulative
-- is `applyCumulativeRefund`, Events has the checks of an event and Applying is `applyEvent`. InApp is
-- `verifyInApp`, Redirects is `assertCheckoutRedirects`, Checkouts and Ensure are `createCheckout` with
-- `ensureCheckout`, Requests and Service are `requestRefund`, `getByCheckoutId` and `applyProviderEvent`.
-- What is more than one transaction is a `Service` (Database.Services): each of its steps is committed
-- at once. Providers' events, which grant and recover credits, go through Credits.Granting.
--
-- src/shared/utils/page.ts, uuid.ts: Paging, with the query of a page that the services have in common;
-- Cursors has the cursors and `isUuid`; Order, Lookup, Walk and Batch are about a client that follows the
-- cursors. The microseconds of a row's time are a function of its identifier, `below`. src/notifications: Notifications, with Sync for
-- `syncFollowNotifications`; the lists of purchases (Purchases.Listing) and of notifications are pages.
--
-- Prelude has the lists, tests, integers and texts that the parts share; Tests a small database, with
-- runs of the operations on it.
--
-- Choices: amounts are natural numbers, since the services write no negative ones; the signed
-- `adjustment` entries of the ledger (written by account restoration and by the administration) are
-- rows of a table of their own; the columns' 32-bit bound is not modelled. An operation reads the clock
-- once, where the code does several times. What the platform computes is an argument: random
-- references, the date in Korea. External references are constructors in place of the texts. The loops
-- are structural recursions, so there is no fuel; `follow`, the client of the pages, has a bound on their
-- number, one more than there are rows, and that is enough.
--
-- The amounts that a provider reports are natural numbers; a quotient that the code computes with floating
-- point numbers and rounds down is the quotient of the naturals, as it is exact below 2^53. The unique
-- index on a refund's identifier at its provider is not modelled. `accountToken`, a keyed hash, `new URL`,
-- the texts of JSON, of base64url and of identifiers, and a number's digits are arguments.
--
-- Not modelled: the payment providers' clients, the worker's timer and its options, the reads that only
-- display (histories, check-in status, the list of products), the HTTP layer and the other
-- services.
pub mod Credits
pub mod Database
pub mod Messages
pub mod Notifications
pub mod Paging
pub mod Payments
pub mod Prelude
pub mod Purchases
pub mod Tests
