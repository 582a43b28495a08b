-- ===== src/Purchases/Events.antt =====
-- `applyEvent` of purchases/purchases.service.ts: what a payment provider reports, each event once.
use opod_service_backend.Prelude.{
  ℕ, suc, ◌+◌, Bool, true, false, not, ◌&&◌, Option, none, some, List, [], ◌∷◌, String, ◌==◌, any,
  first, update, if◌then◌else◌,
}
use opod_service_backend.Prelude.Text.{non_empty, str_eq}
use opod_service_backend.Database.{Database, Tx, return, reads, modify, new_id, ◌>>=◌, ◌>>◌}
use opod_service_backend.Database.ProviderRows.{
  PaymentRow, is_open, is_paid_status, ProviderEventRow, ProviderEventStatus,
}
use opod_service_backend.Payments.{Payments, PaymentEvent}
use opod_service_backend.Purchases.Rows.{PaymentWithPurchase, find_payment}
use opod_service_backend.Purchases.Refunds.{or_else}
use opod_service_backend.Purchases.Reversals.{is_currency_mismatch}

abbrev pub is_event : String → String → ProviderEventRow → Bool
is_event provider id e = str_eq e.provider provider && str_eq e.external_event_id id

abbrev pub new_event_row : String → PaymentEvent → ℕ → ProviderEventRow
new_event_row provider event id = record {
  id = id;
  payment_id = none;
  provider = provider;
  external_event_id = event.event_id;
  event_type = event.type;
  status = ProviderEventStatus.processing;
  attempts = 1;
  last_error_code = none;
  processed_at = none;
}

abbrev pub tried_again : ProviderEventRow → ProviderEventRow
tried_again e = record e { attempts = suc e.attempts }

-- `insert … onConflictDoUpdate … returning`
unfoldable pub receive_event : String → PaymentEvent → Tx ProviderEventRow
receive_event provider event = do
  found ← reads (λ db. first (is_event provider event.event_id) db.provider_events)
  elim found [
    | some e ↦ do
      modify (λ d. record d {
        provider_events = update (is_event provider event.event_id) tried_again d.provider_events;
      })
      return (tried_again e)
    | none ↦ do
      id ← new_id
      modify
          (λ d. record d { provider_events = new_event_row provider event id ∷ d.provider_events })
      return (new_event_row provider event id)
  ]

abbrev pub processed_row : ℕ → ProviderEventRow → ProviderEventRow
processed_row now e = record e { status = ProviderEventStatus.processed; processed_at = some now }

abbrev pub has_payment_key : String → String → PaymentRow → Bool
has_payment_key provider key p =
    str_eq p.provider provider
    && elim p.provider_transaction_key [ none ↦ false | some k ↦ str_eq k key ]

abbrev pub has_transaction : String → String → PaymentRow → Bool
has_transaction provider id p =
    str_eq p.provider provider
    && elim p.provider_transaction_id [ none ↦ false | some t ↦ str_eq t id ]

-- `!key`, for texts
abbrev pub truthy : Option String → Option String
truthy none = none
truthy (some s) = if non_empty s then some s else none

module _ (payments : Payments) where
  -- `event.transactionKey ?? (provider === "google_play" && event.transactionId ? sha256 : undefined)`
  abbrev pub lookup_key : String → PaymentEvent → Option String
  lookup_key provider event = or_else event.transaction_key (elim (truthy event.transaction_id) [
    | none ↦ none
    | some t ↦ if str_eq provider "google_play" then some (payments.sha256 t) else none
  ])

  -- The payment with the key, or else with the transaction.
  abbrev pub find_by_transaction : String → PaymentEvent → Database → Option PaymentWithPurchase
  find_by_transaction provider event db = elim (truthy (lookup_key provider event)) [
    | some key ↦ find_payment (has_payment_key provider key) db
    | none ↦ elim event.transaction_id [
      | none ↦ none
      | some t ↦ find_payment (has_transaction provider t) db
    ]
  ]

  -- `event.transactionKey || event.transactionId`
  abbrev pub has_identity : PaymentEvent → Bool
  has_identity event = elim (truthy event.transaction_key) [
    | some k ↦ true
    | none ↦ elim (truthy event.transaction_id) [ some t ↦ true | none ↦ false ]
  ]

  abbrev pub find_by_purchase : String → PaymentEvent → Database → Option PaymentWithPurchase
  find_by_purchase provider event db = elim event.purchase_id [
    | none ↦ none
    | some id ↦ find_payment (λ p. p.purchase_id == id && str_eq p.provider provider) db
  ]

  -- The payment that an event is about.
  unfoldable pub event_payment : String → PaymentEvent → Database → Option PaymentWithPurchase
  event_payment provider event db = elim (find_by_purchase provider event db) [
    | some p ↦ some p
    | none ↦ if has_identity event then find_by_transaction provider event db else none
  ]

-- `event.providerProductId && event.providerProductId !== payment.providerProductId`
abbrev pub is_product_mismatch : PaymentRow → PaymentEvent → Bool
is_product_mismatch payment event = elim (truthy event.provider_product_id) [
  | none ↦ false
  | some p ↦ not (str_eq p payment.provider_product_id)
]

-- The net amount and the tax do not add up to the amount.
abbrev pub is_unbalanced : Option ℕ → Option ℕ → Option ℕ → Bool
is_unbalanced (some net) (some tax) (some amount) = not (amount == net + tax)
is_unbalanced _ _ _ = false

abbrev pub reported : Option ℕ → List ℕ
reported none = []
reported (some a) = a ∷ []

abbrev pub lacks : Option ℕ → List ℕ → Bool
lacks none amounts = true
lacks (some a) amounts = not (any (λ b. b == a) amounts)

-- Amounts are reported, and the payment's amount is none of them.
abbrev pub is_amount_foreign : PaymentRow → PaymentEvent → Bool
is_amount_foreign payment event = elim event.net_amount [
  | some n ↦ lacks payment.amount (n ∷ reported event.amount)
  | none ↦ elim event.amount [ none ↦ false | some a ↦ lacks payment.amount (a ∷ []) ]
]

abbrev pub other_transaction : Option String → Option String → Bool
other_transaction (some a) (some b) = non_empty a && non_empty b && not (str_eq a b)
other_transaction _ _ = false

-- A second capture of a payment that is paid.
abbrev pub is_duplicate_capture : PaymentRow → PaymentEvent → Bool
is_duplicate_capture payment event =
    is_paid_status payment.status
    && other_transaction event.transaction_id payment.provider_transaction_id

-- The checks of an event of the type `paid`, in their order.
unfoldable pub paid_error : Payments → PaymentRow → PaymentEvent → Option String
paid_error payments payment event =
    if is_product_mismatch payment event
    then some "product_mismatch"
    else if is_unbalanced event.net_amount event.tax_amount event.amount
    then some "amount_mismatch"
    else if is_amount_foreign payment event
    then some "amount_mismatch"
    else if is_currency_mismatch payments payment event
    then some "currency_mismatch"
    else if is_duplicate_capture payment event
    then some "duplicate_capture"
    else if not (is_paid_status payment.status) && not (is_open payment.status)
    then some "invalid_transition"
    else none
