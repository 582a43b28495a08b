-- ===== src/Database/Transactions.antt =====
-- The state of the database, and a transaction on it as a state and exception monad.
use opod_service_backend.Prelude.{
  ℕ, Bool, true, false, Option, none, some, List, String, ◌≡◌, ◌⊎◌, inl, inr, refl, suc,
}
use opod_service_backend.Database.CreditRows.{
  LedgerRow, Adjustment, UsageRow, ReservationRow, CheckInRow,
}
use opod_service_backend.Database.PaymentRows.{PurchaseRow, RefundRow}
use opod_service_backend.Database.ProviderRows.{
  PaymentRow, PaymentLedgerRow, ProviderEventRow, ProductRow, ProductMappingRow,
}
use opod_service_backend.Database.NotificationRows.{NotificationRow}
use opod_service_backend.Database.CharacterRows.{FollowRow, CharacterRow, PostRow, StoryRow}
use opod_service_backend.Database.MessageRows.{JobRow, MessageRow, ConversationRow}

pub record Database : Type 0 where
  pub next_id : ℕ
  pub ledger : List LedgerRow
  pub adjustments : List Adjustment
  pub usages : List UsageRow
  pub reservations : List ReservationRow
  pub check_ins : List CheckInRow
  pub purchases : List PurchaseRow
  pub refunds : List RefundRow
  pub payments : List PaymentRow
  pub payment_ledger : List PaymentLedgerRow
  pub provider_events : List ProviderEventRow
  pub products : List ProductRow
  pub product_mappings : List ProductMappingRow
  pub notifications : List NotificationRow
  pub follows : List FollowRow
  pub characters : List CharacterRow
  pub posts : List PostRow
  pub stories : List StoryRow
  pub jobs : List JobRow
  pub messages : List MessageRow
  pub conversations : List ConversationRow

-- The exceptions of the framework that the services throw, and a constraint of the database that
-- an insert breaks.
pub data Error : Type 0 where
  bad_request conflict not_found service_unavailable : String → Error
  insufficient_credits : Error
  unique_violation : String → Error
  -- an error of another class, by its name
  other_error : String → Error

pub data Result {ℓ} (A : Type ℓ) : Type ℓ where
  ok : A → Result A
  err : Error → Result A

-- Code that runs in a transaction.
abbrev pub Tx : Type 0 → Type 0
Tx A = Database → Result (A × Database)

abbrev pub return : {A : Type 0} → A → Tx A
return a db = ok (a, db)

abbrev pub throw : {A : Type 0} → Error → Tx A
throw e db = err e

abbrev pub bind_result : {A B : Type 0} → Result (A × Database) → (A → Tx B) → Result (B × Database)
bind_result (ok (a, db)) f = f a db
bind_result (err e) f = err e

infixl 5 ◌>>=◌ ◌>>◌
abbrev pub ◌>>=◌ : {A B : Type 0} → Tx A → (A → Tx B) → Tx B
◌>>=◌ m f db = bind_result (m db) f

abbrev pub ◌>>◌ : {A B : Type 0} → Tx A → Tx B → Tx B
m >> k = m >>= λ _. k

abbrev pub throw_if : Bool → Error → Tx (Unit {0})
throw_if true e = throw e
throw_if false e = return tt

abbrev pub reads : {A : Type 0} → (Database → A) → Tx A
reads f db = ok (f db, db)

abbrev pub modify : (Database → Database) → Tx (Unit {0})
modify f db = ok (tt, f db)

abbrev pub or_throw : {A : Type 0} → Option A → Error → Tx A
or_throw none e = throw e
or_throw (some a) e = return a

-- A result that is computed without the database.
abbrev pub from_result : {A : Type 0} → Result A → Tx A
from_result (ok a) = return a
from_result (err e) = throw e

-- A new row's identifier.
abbrev pub new_id : Tx ℕ
new_id db = ok (db.next_id, record db { next_id = suc db.next_id })

-- `database.client.transaction`: an exception rolls everything back.
abbrev pub transaction : {A : Type 0} → Tx A → Database → Result A × Database
transaction m db = elim (m db) [ ok (a, db') ↦ (ok a, db') | err e ↦ (err e, db) ]

pub >>=-eq-ok :
    {A B : Type 0} (m : Tx A) (f : A → Tx B) (db : Database) {r : B × Database}
    → (m >>= f) db ≡ ok r
    → (p : A × Database) × (m db ≡ ok p) × (f p.0 p.1 ≡ ok r)
>>=-eq-ok {A} {B} m f db {r} h = go (m db) h
  where
    go :
        (q : Result (A × Database))
        → bind_result q f ≡ ok r
        → (p : A × Database) × (q ≡ ok p) × (f p.0 p.1 ≡ ok r)
    go (ok p) h = (p, refl, h)
    go (err e) h = cc

-- What a transaction keeps: a property of the database, whenever it succeeds.
abbrev pub Keeps : (Database → Type 0) → {A : Type 0} → Tx A → Type 0
Keeps Inv {A} m = (db : Database) (r : A × Database) → m db ≡ ok r → Inv db → Inv r.1

pub Result-cases :
    {A : Type 0} (q : Result A) → ((a : A) × (q ≡ ok a)) ⊎ ((e : Error) × (q ≡ err e))
Result-cases (ok a) = inl (a, refl)
Result-cases (err e) = inr (e, refl)
