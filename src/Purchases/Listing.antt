-- ===== src/Purchases/Listing.antt =====
-- `list` of purchases/purchases.service.ts.
use opod_service_backend.Prelude.{ℕ, map, select, ◌==◌}
use opod_service_backend.Database.{Database, Result, ok, err}
use opod_service_backend.Database.PaymentRows.{PurchaseRow}
use opod_service_backend.Paging.{Page, PageInput, CursorCodec, microseconds, list_page}
use opod_service_backend.Purchases.Rows.{payment_of}
use opod_service_backend.Purchases.Products.{PurchaseView, to_purchase}

abbrev pub purchase_key : PurchaseRow → ℕ
purchase_key q = q.id

-- `below` has the microseconds below the milliseconds that a row's time is kept in, by its identifier.
abbrev pub purchase_time : (ℕ → ℕ) → PurchaseRow → ℕ
purchase_time below q = microseconds q.created_at (below q.id)

abbrev pub view_row : Database → PurchaseRow → PurchaseView
view_row db q = to_purchase (record { purchase = q; payment = payment_of q.id db })

abbrev pub view_page : Database → Result (Page PurchaseRow) → Result (Page PurchaseView)
view_page db (err e) = err e
view_page db (ok page) =
    ok (record { items = map (view_row db) page.items; next_cursor = page.next_cursor })

-- The joined payments do not matter to the order, so the rows are joined on the page.
unfoldable pub list_purchases :
    CursorCodec → (ℕ → ℕ) → ℕ → PageInput → Database → Result (Page PurchaseView)
list_purchases codec below user input db = view_page db (
    list_page codec purchase_key (purchase_time below)
      (select (λ q. q.user_id == user) db.purchases) input)
