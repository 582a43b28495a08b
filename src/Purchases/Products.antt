-- ===== src/Purchases/Products.antt =====
-- The product of a purchase, and what is shown of a purchase: `resolveProduct` and `toPurchase` of
-- purchases/purchases.service.ts.
use opod_service_backend.Prelude.{ℕ, Bool, ◌&&◌, not, Option, none, some, String, ◌==◌, first}
use opod_service_backend.Prelude.Text.{str_eq}
use opod_service_backend.Database.{
  Tx, bad_request, conflict, return, reads, throw_if, or_throw, from_result, ◌>>=◌, ◌>>◌,
}
use opod_service_backend.Database.PaymentRows.{PurchaseStatus}
use opod_service_backend.Database.ProviderRows.{
  PaymentChannel, channel_eq, PaymentStatus, PaymentRow, ProductRow, ProductMappingRow,
}
use opod_service_backend.Payments.{Payments, PaymentProvider, provider_for_channel}
use opod_service_backend.Purchases.Rows.{PurchaseWithPayment}

pub record ResolvedProduct : Type 0 where
  pub product : ProductRow
  pub mapping : ProductMappingRow
  pub provider : PaymentProvider

-- An active mapping of the product at the provider.
abbrev pub maps_to : ℕ → PaymentChannel → PaymentProvider → ProductMappingRow → Bool
maps_to product channel provider m =
    m.credit_product_id == product
    && channel_eq m.channel channel
    && str_eq m.provider provider.name
    && str_eq m.environment provider.environment
    && m.is_active

-- `resolveProduct`
unfoldable pub resolve_product : Payments → String → PaymentChannel → Tx ResolvedProduct
resolve_product payments code channel = do
  named ← reads (λ db. first (λ (p : ProductRow). str_eq p.code code) db.products)
  product ← or_throw named (bad_request "Unknown credit product")
  throw_if (not product.is_active) (conflict "Credit product is unavailable")
  provider ← from_result (provider_for_channel payments channel)
  mapped ← reads (λ db. first (maps_to product.id channel provider) db.product_mappings)
  mapping ← or_throw mapped (conflict "Credit product is unavailable")
  return (record { product = product; mapping = mapping; provider = provider })

pub record PaymentView : Type 0 where
  pub channel : PaymentChannel
  pub provider : String
  pub status : PaymentStatus
  pub amount : Option ℕ
  pub currency : Option String

pub record PurchaseView : Type 0 where
  pub id : ℕ
  pub product_id : String
  pub status : PurchaseStatus
  pub credit_amount : ℕ
  pub created_at : ℕ
  pub payment : Option PaymentView

abbrev pub to_payment : Option PaymentRow → Option PaymentView
to_payment none = none
to_payment (some p) = some (record {
  channel = p.channel;
  provider = p.provider;
  status = p.status;
  amount = p.amount;
  currency = p.currency;
})

-- `toPurchase`
abbrev pub to_purchase : PurchaseWithPayment → PurchaseView
to_purchase row = record {
  id = row.purchase.id;
  product_id = row.purchase.product_id;
  status = row.purchase.status;
  credit_amount = row.purchase.credit_amount;
  created_at = row.purchase.created_at;
  payment = to_payment row.payment;
}
