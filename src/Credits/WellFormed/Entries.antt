-- ===== src/Credits/WellFormed/Entries.antt =====
-- The steps from which the operations are made keep the credit tables well formed: a new ledger
-- entry, new rows of use, a new reservation, a change of a reservation's status.
use opod_service_backend.Prelude.{
  ℕ, suc, ◌<◌, ◌≤◌, ◌≡◌, refl, Bool, List, [], ◌∷◌, ◌++◌, update, All, All-map, All-append,
  Below→Differs, update-All, update-Distinct, arith,
}
use opod_service_backend.Database.{Database}
use opod_service_backend.Database.MessageRows.{JobRow, MessageRow, ConversationRow}
use opod_service_backend.Database.CreditRows.{LedgerRow, UsageRow, ReservationRow}
use opod_service_backend.Credits.Balance.{used_of}
use opod_service_backend.Credits.Grants.Distinct.{id_of}
use opod_service_backend.Credits.WellFormed.{WellFormed, HasKind, Within, reservation_id}

weaken-below {ℓ} :
    {A : Type ℓ} (key : A → ℕ) (n : ℕ) (xs : List A)
    → All (λ a. key a < n) xs
    → All (λ a. key a < suc n) xs
weaken-below key n xs h = All-map _ _ xs (λ a k. omega arith) h

used_of-fresh :
    (n : ℕ) (us : List UsageRow) → All (λ u. u.grant_ledger_id < n) us → used_of us n ≡ 0
unfolding used_of
used_of-fresh n [] h = refl
used_of-fresh n (u ∷ us) h = ground (arith, used_of-fresh n us h.1)

module _ {db : Database} (v : WellFormed db) where
  abbrev pub with_entry : LedgerRow → Database
  with_entry r = record db { next_id = suc db.next_id; ledger = r ∷ db.ledger }

  pub entry-WellFormed : (r : LedgerRow) → r.id ≡ db.next_id → HasKind r → WellFormed (with_entry r)
  entry-WellFormed r e k = record {
    entries_distinct =
        (rw e (Below→Differs id_of db.next_id db.ledger v.entries_below), v.entries_distinct);
    entries_below = (omega arith, weaken-below id_of db.next_id db.ledger v.entries_below);
    grants_kinded = (k, v.grants_kinded);
    usages_below =
        weaken-below (λ (u : UsageRow). u.grant_ledger_id) db.next_id db.usages v.usages_below;
    not_overdrawn = (
      (λ _. rw (e, used_of-fresh db.next_id db.usages v.usages_below) (omega arith)),
      v.not_overdrawn,
    );
    reservations_distinct = v.reservations_distinct;
    reservations_below =
        weaken-below reservation_id db.next_id db.reservations v.reservations_below;
  }

  pub reservation-WellFormed :
      (r : ReservationRow)
      → r.id ≡ db.next_id
      → WellFormed (record db { next_id = suc db.next_id; reservations = r ∷ db.reservations })
  reservation-WellFormed r e = record {
    entries_distinct = v.entries_distinct;
    entries_below = weaken-below id_of db.next_id db.ledger v.entries_below;
    grants_kinded = v.grants_kinded;
    usages_below =
        weaken-below (λ (u : UsageRow). u.grant_ledger_id) db.next_id db.usages v.usages_below;
    not_overdrawn = v.not_overdrawn;
    reservations_distinct = (
      rw e (Below→Differs reservation_id db.next_id db.reservations v.reservations_below),
      v.reservations_distinct,
    );
    reservations_below =
        (omega arith, weaken-below reservation_id db.next_id db.reservations v.reservations_below);
  }

  pub update-WellFormed :
      (p : ReservationRow → Bool) (f : ReservationRow → ReservationRow)
      → ((r : ReservationRow) → (f r).id ≡ r.id)
      → WellFormed (record db { reservations = update p f db.reservations })
  update-WellFormed p f same = record {
    entries_distinct = v.entries_distinct;
    entries_below = v.entries_below;
    grants_kinded = v.grants_kinded;
    usages_below = v.usages_below;
    not_overdrawn = v.not_overdrawn;
    reservations_distinct =
        update-Distinct reservation_id p f db.reservations same v.reservations_distinct;
    reservations_below =
        update-All reservation_id (λ k. k < db.next_id) p f db.reservations same
          v.reservations_below;
  }

  -- Rows of use whose draws the grants cover.
  pub usages-WellFormed :
      (us : List UsageRow)
      → All (λ u. u.grant_ledger_id < db.next_id) us
      → All (Within (us ++ db.usages)) db.ledger
      → WellFormed (record db { usages = us ++ db.usages })
  usages-WellFormed us below within = record {
    entries_distinct = v.entries_distinct;
    entries_below = v.entries_below;
    grants_kinded = v.grants_kinded;
    usages_below =
        All-append (λ u. u.grant_ledger_id < db.next_id) us db.usages below v.usages_below;
    not_overdrawn = within;
    reservations_distinct = v.reservations_distinct;
    reservations_below = v.reservations_below;
  }

-- The tables of messages do not matter.
pub messages-WellFormed :
    (jobs : List JobRow) (messages : List MessageRow) (conversations : List ConversationRow)
    {db : Database}
    → WellFormed db
    → WellFormed (record db { jobs = jobs; messages = messages; conversations = conversations })
messages-WellFormed jobs messages conversations v = record {
  entries_distinct = v.entries_distinct;
  entries_below = v.entries_below;
  grants_kinded = v.grants_kinded;
  usages_below = v.usages_below;
  not_overdrawn = v.not_overdrawn;
  reservations_distinct = v.reservations_distinct;
  reservations_below = v.reservations_below;
}

-- Tables that differ in what is no part of the credit tables.
pub frame-WellFormed :
    {a b : Database}
    → b.ledger ≡ a.ledger
    → b.usages ≡ a.usages
    → b.reservations ≡ a.reservations
    → a.next_id ≤ b.next_id
    → WellFormed a
    → WellFormed b
frame-WellFormed {a} {b} l u r n v = record {
  entries_distinct = rw l v.entries_distinct;
  entries_below = rw l (All-map _ _ a.ledger (λ x k. omega arith) v.entries_below);
  grants_kinded = rw l v.grants_kinded;
  usages_below = rw u (All-map _ _ a.usages (λ x k. omega arith) v.usages_below);
  not_overdrawn = rw (l, u) v.not_overdrawn;
  reservations_distinct = rw r v.reservations_distinct;
  reservations_below = rw r (All-map _ _ a.reservations (λ x k. omega arith) v.reservations_below);
}
