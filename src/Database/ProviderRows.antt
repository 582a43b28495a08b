-- ===== src/Database/ProviderRows.antt =====
-- The tables of payments, of the payment ledger, of the providers' events and of the products, in
-- core/database/schema.ts.
use opod_service_backend.Prelude.{ℕ, Bool, true, false, Option, String}

pub data PaymentChannel : Type 0 where
  web apple google : PaymentChannel

abbrev pub channel_eq : PaymentChannel → PaymentChannel → Bool
channel_eq web web = true
channel_eq apple apple = true
channel_eq google google = true
channel_eq _ _ = false

pub data PaymentStatus : Type 0 where
  pending verified processing paid failed canceled partially_refunded refunded reversed :
      PaymentStatus

-- `["pending", "verified", "processing"].includes(status)`
abbrev pub is_open : PaymentStatus → Bool
is_open pending = true
is_open verified = true
is_open processing = true
is_open _ = false

abbrev pub is_pending : PaymentStatus → Bool
is_pending pending = true
is_pending _ = false

abbrev pub is_processing : PaymentStatus → Bool
is_processing processing = true
is_processing _ = false

abbrev pub is_paid_status : PaymentStatus → Bool
is_paid_status paid = true
is_paid_status _ = false

abbrev pub is_refunded : PaymentStatus → Bool
is_refunded refunded = true
is_refunded _ = false

-- `status === "reversed" || status === "refunded"`
abbrev pub is_returned : PaymentStatus → Bool
is_returned refunded = true
is_returned reversed = true
is_returned _ = false

pub record PaymentRow : Type 0 where
  pub id : ℕ
  pub purchase_id : ℕ
  pub channel : PaymentChannel
  pub provider : String
  pub status : PaymentStatus
  pub amount : Option ℕ
  pub net_amount : Option ℕ
  pub tax_amount : Option ℕ
  pub currency : Option String
  pub provider_checkout_id : Option String
  pub provider_checkout_url : Option String
  pub provider_transaction_id : Option String
  pub provider_transaction_key : Option String
  pub provider_product_id : String
  pub provider_environment : Option String
  pub paid_at : Option ℕ
  pub refunded_at : Option ℕ
  pub created_at : ℕ
  pub updated_at : ℕ

-- The type `adjustment` is written by the administration alone.
pub data PaymentLedgerType : Type 0 where
  capture refund chargeback adjustment : PaymentLedgerType

-- `inArray(type, ["refund", "chargeback"])`
abbrev pub is_outgoing : PaymentLedgerType → Bool
is_outgoing refund = true
is_outgoing chargeback = true
is_outgoing _ = false

pub data PaymentDirection : Type 0 where
  inflow outflow : PaymentDirection

pub record PaymentLedgerRow : Type 0 where
  pub id : ℕ
  pub payment_id : ℕ
  pub type : PaymentLedgerType
  pub direction : PaymentDirection
  pub amount : Option ℕ
  pub currency : Option String
  pub provider_transaction_id : Option String
  pub provider_event_id : Option String
  pub occurred_at : ℕ

-- The column `event_type` holds the type of an event.
pub data EventType : Type 0 where
  paid_event refunded_event reversed_event failed_event ignored_event : EventType

abbrev pub event_type_eq : EventType → EventType → Bool
event_type_eq paid_event paid_event = true
event_type_eq refunded_event refunded_event = true
event_type_eq reversed_event reversed_event = true
event_type_eq failed_event failed_event = true
event_type_eq ignored_event ignored_event = true
event_type_eq _ _ = false

pub data ProviderEventStatus : Type 0 where
  processing processed failed : ProviderEventStatus

abbrev pub is_processed : ProviderEventStatus → Bool
is_processed processed = true
is_processed _ = false

pub record ProviderEventRow : Type 0 where
  pub id : ℕ
  pub payment_id : Option ℕ
  pub provider : String
  pub external_event_id : String
  pub event_type : EventType
  pub status : ProviderEventStatus
  pub attempts : ℕ
  pub last_error_code : Option String
  pub processed_at : Option ℕ

pub record ProductRow : Type 0 where
  pub id : ℕ
  pub code : String
  pub name : String
  pub credit_amount : ℕ
  pub is_active : Bool
  pub display_order : ℕ

pub record ProductMappingRow : Type 0 where
  pub id : ℕ
  pub credit_product_id : ℕ
  pub channel : PaymentChannel
  pub provider : String
  pub environment : String
  pub provider_product_id : String
  pub price_amount : Option ℕ
  pub currency : Option String
  pub is_active : Bool
