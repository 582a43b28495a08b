-- ===== src/Purchases/Applying/Received.antt =====
-- How `applyEvent` ends.
use opod_service_backend.Prelude.{
  ℕ, suc, ◌≡◌, refl, Bool, not, ◌&&◌, Bool-cases, Option, none, some, Option-cases, ◌⊎◌, inl, inr,
  String, ◌∷◌, ◌==◌, ==_refl, first, first-holds, first-updated, update, arith,
}
use opod_service_backend.Prelude.Text.{eq_refl}
use opod_service_backend.Database.{Database, ok, Result-cases, >>=-eq-ok}
use opod_service_backend.Database.ProviderRows.{ProviderEventRow, is_processed}
use opod_service_backend.Credits.WellFormed.{WellFormed}
use opod_service_backend.Credits.WellFormed.Entries.{frame-WellFormed}
use opod_service_backend.Payments.{Payments, PaymentEvent}
use opod_service_backend.Purchases.Rows.{
  PaymentWithPurchase, is_polar, require_payment, assert_payment_environment,
}
use opod_service_backend.Purchases.Environment.{assert_payment_environment-ok}
use opod_service_backend.Purchases.Reversals.{EventOutcome, replayed}
use opod_service_backend.Purchases.Events.{
  is_event, new_event_row, tried_again, receive_event, event_payment,
}
use opod_service_backend.Purchases.Applying.{
  apply_by_type, conclude, apply_to_payment, apply_known, apply_received, is_ignored,
}
use opod_service_backend.Purchases.Applying.Effects.{Effect, apply_by_type-Effect}

-- The event is in the inbox, and the credit tables are as they were.
pub record Received (provider : String) (event : PaymentEvent) (db : Database)
    (p : ProviderEventRow × Database) : Type 0 where
  pub found : first (is_event provider event.event_id) p.1.provider_events ≡ some p.0
  pub keeps : WellFormed db → WellFormed p.1

pub receive_event-eq-ok :
    (provider : String) (event : PaymentEvent) (db : Database) {p : ProviderEventRow × Database}
    → receive_event provider event db ≡ ok p
    → Received provider event db p
unfolding receive_event
receive_event-eq-ok provider event db {p} e =
    let test = is_event provider event.event_id in
    elim (Option-cases (first test db.provider_events)) [
      | inr (row, k) ↦
          let same : p ≡ (
            tried_again row,
            record db { provider_events = update test tried_again db.provider_events },
          ) =
            (let e' = rw k at e in ground arith) in
          rw same (record {
            found =
                first-updated test test tried_again db.provider_events (λ y. refl) k
                  (first-holds test db.provider_events k);
            keeps = frame-WellFormed refl refl refl (omega arith);
          })
      | inl k ↦
          let row = new_event_row provider event db.next_id in
          let same : p ≡ (
            row,
            record db { next_id = suc db.next_id; provider_events = row ∷ db.provider_events },
          ) =
            (let e' = rw k at e in ground arith) in
          rw same (record {
            found = rw (eq_refl provider, eq_refl event.event_id) refl;
            keeps = frame-WellFormed refl refl refl (omega arith);
          })
    ]

-- An event that is worked on: `base` is the database before its effects, where `row` is the event's.
pub record Worked (now : ℕ) (inbox : ProviderEventRow) (test : ProviderEventRow → Bool)
    (db : Database) (r : EventOutcome × Database) : Type 0 where
  pub base : Database
  pub row : ProviderEventRow
  pub found : first test base.provider_events ≡ some row
  pub same_id : row.id ≡ inbox.id
  pub same_type : row.event_type ≡ inbox.event_type
  pub keeps : WellFormed db → WellFormed base
  pub code : Option String
  pub after : Database
  pub effect : Effect base (code, after)

module _ (payments : Payments) (digits : ℕ → String) (provider : String) (now : ℕ)
    (inbox : ProviderEventRow) (event : PaymentEvent) (db : Database)
    (found : first (is_event provider event.event_id) db.provider_events ≡ some inbox) where
  abbrev pub Ends : EventOutcome × Database → Type 0
  Ends r =
      (r ≡ (replayed, db))
      ⊎ ((w : Worked now inbox (is_event provider event.event_id) db r) × (conclude payments digits
              now inbox.id w.code w.after
            ≡ ok r))

  abbrev linked : ℕ → ProviderEventRow → ProviderEventRow
  linked payment e = record e { payment_id = some payment }

  abbrev linked_db : ℕ → Database
  linked_db payment = record db {
    provider_events =
        update (λ (e : ProviderEventRow). e.id == inbox.id) (linked payment) db.provider_events;
  }

  to_payment-Ends :
      (payment : PaymentWithPurchase) {r : EventOutcome × Database}
      → apply_to_payment payments digits now inbox payment event db ≡ ok r
      → Ends r
  unfolding apply_to_payment
  to_payment-Ends payment {r} e =
      let ((code, after), worked, ends) =
        >>=-eq-ok (apply_by_type payments digits event.type now inbox.id payment event) _
          (linked_db payment.payment.id) e in
      inr (
        record {
          base = linked_db payment.payment.id;
          row = linked payment.payment.id inbox;
          found =
              first-updated (λ (e : ProviderEventRow). e.id == inbox.id)
                (is_event provider event.event_id) (linked payment.payment.id) db.provider_events
                (λ y. refl) found (==_refl inbox.id);
          same_id = refl;
          same_type = refl;
          keeps = frame-WellFormed refl refl refl (omega arith);
          code = code;
          after = after;
          effect =
              apply_by_type-Effect payments digits event.type now inbox.id payment event
                (linked_db payment.payment.id) worked;
        },
        ends,
      )

  known-Ends :
      {r : EventOutcome × Database}
      → apply_known payments digits provider now inbox event db ≡ ok r
      → Ends r
  unfolding apply_known
  known-Ends {r} e = elim (Option-cases (event_payment payments provider event db)) [
    | inl k ↦ let e' = rw k at e in ground arith
    | inr (known, k) ↦ elim (Result-cases (require_payment known.payment.id db)) [
      | inr (x, l) ↦ let e' = rw (k, l) at e in ground arith
      | inl ((payment, after), l) ↦
          let same : after ≡ db = ground arith in
          elim (Result-cases
            (assert_payment_environment payments payment.payment (some event) db)) [
              | inr (x, m) ↦ let e' = rw (k, l, same, m) at e in ground arith
              | inl (q, m) ↦
                  let checked =
                    (assert_payment_environment-ok payments payment.payment (some event) db m).0 in
                  elim (Bool-cases (is_processed inbox.status)) [
                    | inl n ↦ inl (let e' = rw (k, l, same, m, checked, n) at e in ground arith)
                    | inr n ↦ to_payment-Ends payment (rw (k, l, same, m, checked, n) at e)
                  ]
            ]
    ]
  ]

  pub apply_received-Ends :
      {r : EventOutcome × Database}
      → apply_received payments digits provider now inbox event db ≡ ok r
      → Ends r
  unfolding apply_received
  apply_received-Ends {r} e =
      elim (Bool-cases (is_processed inbox.status && not (is_polar provider))) [
        | inl k ↦ inl (let e' = rw k at e in ground arith)
        | inr k ↦ elim (Bool-cases (is_ignored payments digits event.type)) [
          | inr l ↦ known-Ends (rw (k, l) at e)
          | inl l ↦ inr (
            record {
              base = db;
              row = inbox;
              found = found;
              same_id = refl;
              same_type = refl;
              keeps = λ v. v;
              code = none;
              after = db;
              effect = record { keeps = λ v. v; same_events = λ _. refl };
            },
            rw (k, l) at e,
          )
        ]
      ]
