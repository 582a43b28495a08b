-- ===== src/Purchases/Applying/Repeated.antt =====
-- Events that a provider reports again.
use opod_service_backend.Prelude.{
  ℕ, ◌≡◌, refl, true, false, Bool-cases, some, Option-cases, inl, inr, String, ◌==◌, ==_refl, first,
  first-updated, update, arith,
}
use opod_service_backend.Database.{Database, ok, Result-cases}
use opod_service_backend.Database.ProviderRows.{ProviderEventRow, is_processed, event_type_eq}
use opod_service_backend.Payments.{Payments, PaymentEvent, assert_environment}
use opod_service_backend.Purchases.Rows.{is_polar}
use opod_service_backend.Purchases.Environment.{assert_environment-ok}
use opod_service_backend.Purchases.Reversals.{EventOutcome, applied, replayed}
use opod_service_backend.Purchases.Events.{is_event, tried_again, receive_event, processed_row}
use opod_service_backend.Purchases.Applying.{apply_event, apply_received, conclude}
use opod_service_backend.Purchases.Applying.Received.{
  Received, receive_event-eq-ok, Worked, apply_received-Ends, Ends,
}

module _ (payments : Payments) (digits : ℕ → String) (provider : String) where
  -- An event whose handling succeeds: its row in the inbox, and how it ends.
  record Handled (now : ℕ) (event : PaymentEvent) (db : Database) (r : EventOutcome × Database)
      : Type 0 where
    pub checked :
        (d : Database) → assert_environment payments provider event.environment d ≡ ok (tt, d)
    pub inbox : ProviderEventRow
    pub before : Database
    pub received : Received provider event db (inbox, before)
    pub typed : event_type_eq inbox.event_type event.type ≡ true
    pub ends : Ends payments digits provider now inbox event before received.found r

  apply_event-eq-ok :
      (now : ℕ) (event : PaymentEvent) (db : Database) {r : EventOutcome × Database}
      → apply_event payments digits provider now event db ≡ ok r
      → Handled now event db r
  unfolding apply_event
  apply_event-eq-ok now event db {r} e =
      elim (Result-cases (assert_environment payments provider event.environment db)) [
        | inr (x, k) ↦ let e' = rw k at e in ground arith
        | inl (q, k) ↦
            let (same, again) = assert_environment-ok payments provider event.environment db k in
            elim (Result-cases (receive_event provider event db)) [
              | inr (x, l) ↦ let e' = rw (k, same, l) at e in ground arith
              | inl ((inbox, before), l) ↦
                  elim (Bool-cases (event_type_eq inbox.event_type event.type)) [
                    | inr m ↦ let e' = rw (k, same, l, m) at e in ground arith
                    | inl m ↦
                        let received = receive_event-eq-ok provider event db l in
                        record {
                          checked = again;
                          inbox = inbox;
                          before = before;
                          received = received;
                          typed = m;
                          ends =
                              apply_received-Ends payments digits provider now inbox event before
                                received.found (rw (k, same, l, m) at e);
                        }
                  ]
            ]
      ]

  -- The event's row after it is applied.
  record Processed (event : PaymentEvent) (db : Database) : Type 0 where
    pub row : ProviderEventRow
    pub found : first (is_event provider event.event_id) db.provider_events ≡ some row
    pub processed : is_processed row.status ≡ true
    pub typed : event_type_eq row.event_type event.type ≡ true

  conclude-Processed :
      (now : ℕ) (inbox : ProviderEventRow) (event : PaymentEvent) (db db' : Database)
      (w : Worked now inbox (is_event provider event.event_id) db (applied, db'))
      → conclude payments digits now inbox.id w.code w.after ≡ ok (applied, db')
      → event_type_eq inbox.event_type event.type ≡ true
      → Processed event db'
  conclude-Processed now inbox event db db' w ends typed = elim (Option-cases w.code) [
    | inr (code, k) ↦ let e' = rw k at ends in ground arith
    | inl k ↦
        let test = is_event provider event.event_id in
        let events : db'.provider_events
            ≡ update (λ (e : ProviderEventRow). e.id == inbox.id) (processed_row now)
                w.base.provider_events =
          (let e' = rw k at ends in let same = w.effect.same_events k in ground arith) in
        record {
          row = processed_row now w.row;
          found = rw events (
              first-updated (λ (e : ProviderEventRow). e.id == inbox.id) test (processed_row now)
                w.base.provider_events (λ y. refl) w.found (rw w.same_id (==_refl inbox.id)));
          processed = refl;
          typed = rw w.same_type typed;
        }
  ]

  applied_row :
      (now : ℕ) (event : PaymentEvent) (db db' : Database)
      → Handled now event db (applied, db')
      → Processed event db'
  applied_row now event db db' h = elim h.ends [
    | inl same ↦ ground arith
    | inr (w, ends) ↦ conclude-Processed now h.inbox event h.before db' w ends h.typed
  ]

  -- An event that was applied and is delivered again, at whatever time, by a provider other than
  -- polar (which re-checks its payment first): it is a replay, and nothing changes but the count of
  -- its attempts.
  pub event_again :
      (now later : ℕ) (event : PaymentEvent) (db db' : Database)
      → is_polar provider ≡ false
      → apply_event payments digits provider now event db ≡ ok (applied, db')
      → apply_event payments digits provider later event db'
        ≡ ok (
          replayed,
          record db' {
            provider_events =
                update (is_event provider event.event_id) tried_again db'.provider_events;
          },
        )
  unfolding apply_event receive_event apply_received
  event_again now later event db db' other e =
      let h = apply_event-eq-ok now event db e in
      let p = applied_row now event db db' h in
      rw (h.checked db', p.found, p.typed, p.processed, other) refl
