-- ===== src/Database/PaymentRows.antt =====
-- The purchase and refund tables of core/database/schema.ts.
use opod_service_backend.Prelude.{ℕ, Bool, true, false, Option, String}

pub data PurchaseStatus : Type 0 where
  pending payment_processing completed failed canceled refunded reversed : PurchaseStatus

pub record PurchaseRow : Type 0 where
  pub id : ℕ
  pub user_id : ℕ
  pub credit_product_id : ℕ
  pub product_id : String
  pub status : PurchaseStatus
  pub credit_amount : ℕ
  pub idempotency_key : String
  pub created_at : ℕ
  pub fulfilled_at : Option ℕ

pub data RefundStatus : Type 0 where
  reserved payment_processing payment_succeeded completed failed canceled : RefundStatus

-- The states in which `locked_amount` is withheld from the balance.
abbrev pub is_locking : RefundStatus → Bool
is_locking reserved = true
is_locking RefundStatus.payment_processing = true
is_locking payment_succeeded = true
is_locking _ = false

pub record RefundRow : Type 0 where
  pub id : ℕ
  pub purchase_id : ℕ
  pub status : RefundStatus
  pub reason : String
  pub idempotency_key : String
  pub credit_amount : ℕ
  pub promotion_amount : ℕ
  pub free_promotion_amount : ℕ
  pub locked_amount : ℕ
  pub recovery_amount : ℕ
  pub debt_amount : ℕ
  pub gross_amount : ℕ
  pub fee_amount : ℕ
  pub refund_amount : ℕ
  pub currency : String
  pub provider : String
  pub provider_refund_id : Option String
  pub provider_transaction_id : Option String
  pub completed_at : Option ℕ
  pub created_at : ℕ

abbrev pub is_completed_refund : RefundStatus → Bool
is_completed_refund completed = true
is_completed_refund _ = false

-- `inArray(status, ["payment_processing", "payment_succeeded"])`
abbrev pub is_unsettled : RefundStatus → Bool
is_unsettled RefundStatus.payment_processing = true
is_unsettled payment_succeeded = true
is_unsettled _ = false

abbrev pub is_succeeded : RefundStatus → Bool
is_succeeded payment_succeeded = true
is_succeeded _ = false

abbrev pub is_pending_purchase : PurchaseStatus → Bool
is_pending_purchase pending = true
is_pending_purchase _ = false

abbrev pub is_completed_purchase : PurchaseStatus → Bool
is_completed_purchase completed = true
is_completed_purchase _ = false

abbrev pub is_refunded_purchase : PurchaseStatus → Bool
is_refunded_purchase refunded = true
is_refunded_purchase _ = false
