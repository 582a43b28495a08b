-- ===== src/Purchases/Inserts.antt =====
-- Inserts of purchases and payments, with the unique indexes of core/database/schema.ts.
use opod_service_backend.Prelude.{ℕ, Bool, ◌&&◌, ◌∷◌, ◌==◌, any}
use opod_service_backend.Prelude.Text.{str_eq}
use opod_service_backend.Database.{
  Tx, return, reads, modify, new_id, throw_if, ◌>>=◌, ◌>>◌, unique_violation,
}
use opod_service_backend.Database.PaymentRows.{PurchaseRow}
use opod_service_backend.Database.ProviderRows.{PaymentRow}
use opod_service_backend.Purchases.Rows.{has_key, same_text}

unfoldable pub insert_purchase : (ℕ → PurchaseRow) → Tx PurchaseRow
insert_purchase row = do
  id ← new_id
  taken ← reads (λ db. any (has_key (row id).user_id (row id).idempotency_key) db.purchases)
  throw_if taken (unique_violation "credit_purchases_user_id_idempotency_key_key")
  modify (λ d. record d { purchases = row id ∷ d.purchases })
  return (row id)

-- The same provider and the same checkout, and the same transaction key.
abbrev pub same_checkout : PaymentRow → PaymentRow → Bool
same_checkout a b =
    str_eq a.provider b.provider && same_text a.provider_checkout_id b.provider_checkout_id

abbrev pub same_transaction_key : PaymentRow → PaymentRow → Bool
same_transaction_key a b =
    str_eq a.provider b.provider && same_text a.provider_transaction_key b.provider_transaction_key

unfoldable pub insert_payment : (ℕ → PaymentRow) → Tx PaymentRow
insert_payment row = do
  id ← new_id
  checkout ← reads (λ db. any (same_checkout (row id)) db.payments)
  throw_if checkout (unique_violation "payments_provider_provider_checkout_id_key")
  keyed ← reads (λ db. any (same_transaction_key (row id)) db.payments)
  throw_if keyed (unique_violation "payments_provider_provider_transaction_key_key")
  paid_for ←
      reads (λ db. any (λ (p : PaymentRow). p.purchase_id == (row id).purchase_id) db.payments)
  throw_if paid_for (unique_violation "payments_purchase_id_key")
  modify (λ d. record d { payments = row id ∷ d.payments })
  return (row id)
