-- ===== src/Database/CreditRows.antt =====
-- The credit tables of core/database/schema.ts. An identifier (a UUID v7) is a number, later ones
-- larger; a time is a number of milliseconds. Amounts that this program writes are never negative.
use opod_service_backend.Prelude.{ℕ, Bool, true, false, Option, String, ◌&&◌, ◌==◌}
use opod_service_backend.Prelude.Int.{ℤ}

pub data CreditKind : Type 0 where
  free paid : CreditKind

abbrev pub kind_eq : CreditKind → CreditKind → Bool
kind_eq free free = true
kind_eq paid paid = true
kind_eq _ _ = false

-- The `adjustment` entries, which alone may be negative, are rows of a type of their own below.
pub data LedgerType : Type 0 where
  grant usage refund_recovery : LedgerType

-- `external_reference`: the text `signup_bonus:${userId}` is `signup_bonus user`, and so on. Two
-- texts are equal exactly if the constructors and their arguments are.
pub data ExternalReference : Type 0 where
  signup_bonus : ℕ → ExternalReference
  check_in : ℕ → ℕ → ℕ → ExternalReference
  credit_purchase : ℕ → ExternalReference
  credit_reservation : ℕ → ExternalReference
  credit_refund : ℕ → ExternalReference

abbrev pub reference_eq : ExternalReference → ExternalReference → Bool
reference_eq (signup_bonus a) (signup_bonus b) = a == b
reference_eq (check_in a m d) (check_in b n e) = a == b && m == n && d == e
reference_eq (credit_purchase a) (credit_purchase b) = a == b
reference_eq (credit_reservation a) (credit_reservation b) = a == b
reference_eq (credit_refund a) (credit_refund b) = a == b
reference_eq _ _ = false

pub record LedgerRow : Type 0 where
  pub id : ℕ
  pub user_id : ℕ
  pub type : LedgerType
  pub credit_kind : Option CreditKind
  pub purchase_id : Option ℕ
  pub promotion_code : Option String
  pub amount : ℕ
  pub expires_at : Option ℕ
  pub reason : String
  pub external_reference : Option ExternalReference
  pub created_at : ℕ

pub record Adjustment : Type 0 where
  pub user_id : ℕ
  pub credit_kind : CreditKind
  pub amount : ℤ

pub record UsageRow : Type 0 where
  pub usage_ledger_id : ℕ
  pub grant_ledger_id : ℕ
  pub amount : ℕ

pub data ReservationStatus : Type 0 where
  reserved captured released : ReservationStatus

abbrev pub is_reserved : ReservationStatus → Bool
is_reserved reserved = true
is_reserved _ = false

pub record ReservationRow : Type 0 where
  pub id : ℕ
  pub user_id : ℕ
  pub action_type : String
  pub amount : ℕ
  pub status : ReservationStatus
  pub reference : String
  pub expires_at : Option ℕ
  pub created_at : ℕ

-- A date of the calendar in Korea, `check_in_date`: the month (year * 12 + month) and the day.
pub record CheckInRow : Type 0 where
  pub user_id : ℕ
  pub month : ℕ
  pub day : ℕ
