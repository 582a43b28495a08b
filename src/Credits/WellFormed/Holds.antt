-- ===== src/Credits/WellFormed/Holds.antt =====
-- Uses of credits, grants, recoveries and check-ins keep the credit tables well formed.
use opod_service_backend.Prelude.{
  ℕ, suc, ◌-◌, ◌≤◌, ◌<◌, ◌≡◌, ◌≢◌, refl, true, false, Bool-cases, inl, inr, Option, none, some,
  List, [], ◌∷◌, ◌++◌, map, All, All-map2, arith, String, Number,
}
use opod_service_backend.Database.{Database, Keeps}
use opod_service_backend.Database.CreditRows.{LedgerRow, ExternalReference, CheckInRow}
use opod_service_backend.Credits.Ledger.{insert_ledger}
use opod_service_backend.Credits.Balance.{used_of}
use opod_service_backend.Credits.Allocation.{Allocation, allocation}
use opod_service_backend.Credits.Spending.{usage_row, usage_entry, use_credits, spend_credits}
use opod_service_backend.Credits.Spending.Effect.{
  used_now, use_credits-eq-ok, spend_credits-eq-ok, used_of-append,
}
use opod_service_backend.Credits.Spending.Overdraw.{
  own-Covered, others-Untouched, draws, is_grant_of, drawn-Below,
}
use opod_service_backend.Credits.Granting.{
  GrantInput, grant_credits, grant_entry, record_refund_recovery, recovery_entry,
}
use opod_service_backend.Credits.Granting.Cases.{grant_credits-eq-ok}
use opod_service_backend.Credits.CheckIns.{check_in_user}
use opod_service_backend.Credits.CheckIns.Cases.{check_in_user-eq-ok, checked_db}
use opod_service_backend.Credits.WellFormed.{WellFormed, HasKind, Within}
use opod_service_backend.Credits.WellFormed.Entries.{
  entry-WellFormed, usages-WellFormed, with_entry,
}

some-ne-none {ℓ} : {A : Type ℓ} {a : A} → some a ≢ none
some-ne-none e = cc

All-usage_row :
    (n id : ℕ) (as' : List Allocation)
    → All (λ (a : Allocation). a.grant.id < n) as'
    → All (λ u. u.grant_ledger_id < suc n) (map (usage_row id) as')
All-usage_row n id [] h = tt
All-usage_row n id (a ∷ as') h = (omega arith, All-usage_row n id as' h.1)

module _ (now user amount : ℕ) (reason : String) (reference : Option ExternalReference)
    {db : Database} (v : WellFormed db) where
  used_now-Within :
      All
        (Within (map (usage_row db.next_id) (allocation now user amount db).0 ++ db.usages))
        db.ledger
  used_now-Within =
      All-map2
        (λ r.
          (is_grant_of user r ≡ true
            → draws now user amount v r.id ≤ r.amount - used_of db.usages r.id)
          × Within db.usages r)
        (λ r. is_grant_of user r ≡ false → draws now user amount v r.id ≡ 0)
        (Within (map (usage_row db.next_id) (allocation now user amount db).0 ++ db.usages))
        db.ledger
        (λ r own other g. elim (Bool-cases (is_grant_of user r)) [
          | inl e ↦
              rw (used_of-append db.next_id r.id (allocation now user amount db).0 db.usages)
                (omega (arith, own.0 e, own.1 g))
          | inr e ↦
              rw (used_of-append db.next_id r.id (allocation now user amount db).0 db.usages)
                (omega (arith, other e, own.1 g))
        ])
        (All-map2 _ _ _ db.ledger (λ r h k. (h, k)) (own-Covered now user amount v) v.not_overdrawn)
        (others-Untouched now user amount v)

  used_now-Below :
      All
        (λ u. u.grant_ledger_id < suc db.next_id)
        (map (usage_row db.next_id) (allocation now user amount db).0)
  used_now-Below = All-usage_row db.next_id db.next_id _ (drawn-Below now user amount v)

  pub used_now-WellFormed : WellFormed (used_now now user amount reason reference db)
  used_now-WellFormed =
      usages-WellFormed
        (entry-WellFormed v (usage_entry now user amount reason reference db.next_id) refl
          (λ e. cc))
        (map (usage_row db.next_id) (allocation now user amount db).0) used_now-Below
        ((λ e. cc), used_now-Within)

pub use_credits-Keeps :
    (now user amount : ℕ) (reason : String) (reference : Option ExternalReference)
    → Keeps WellFormed (use_credits now user amount reason reference)
use_credits-Keeps now user amount reason reference db r e v =
    rw ((use_credits-eq-ok now user amount reason reference db e).1)
      (used_now-WellFormed now user amount reason reference v)

pub spend_credits-Keeps :
    (now user : ℕ) (n : Number) (reason : String)
    → Keeps WellFormed (spend_credits now user n reason)
spend_credits-Keeps now user n reason db r e v =
    let (amount, _, _, used) = spend_credits-eq-ok now user n reason db e in
    use_credits-Keeps now user amount _ none db r used v

pub insert_ledger-Keeps :
    (row : ℕ → LedgerRow)
    → ((id : ℕ) → (row id).id ≡ id)
    → ((id : ℕ) → HasKind (row id))
    → Keeps WellFormed (insert_ledger row)
unfolding insert_ledger
insert_ledger-Keeps row ids kinds db r e v =
    let p : r ≡ (row db.next_id, with_entry v (row db.next_id)) = ground arith in
    rw p (entry-WellFormed v (row db.next_id) (ids db.next_id) (kinds db.next_id))

pub grant_credits-Keeps :
    (now : ℕ) (input : GrantInput) → Keeps WellFormed (grant_credits now input)
grant_credits-Keeps now input db r e v =
    let g = grant_credits-eq-ok now input db e in
    elim g.outcome [
      | inl (_, _, same) ↦ rw same v
      | inr (_, inserted) ↦
          insert_ledger-Keeps (grant_entry now input g.amount) (λ id. refl) (λ id _. some-ne-none)
            db r inserted v
    ]

pub record_refund_recovery-Keeps :
    (now user purchase amount refund : ℕ) (reason : String)
    → Keeps WellFormed (record_refund_recovery now user purchase amount refund reason)
unfolding record_refund_recovery
record_refund_recovery-Keeps now user purchase amount refund reason =
    insert_ledger-Keeps (recovery_entry now user purchase amount refund reason) (λ id. refl)
      (λ id e. cc)

-- The check-in rows are no part of the credit tables.
check_ins-WellFormed :
    {db : Database} (rows : List CheckInRow)
    → WellFormed db
    → WellFormed (record db { check_ins = rows })
check_ins-WellFormed rows v = record {
  entries_distinct = v.entries_distinct;
  entries_below = v.entries_below;
  grants_kinded = v.grants_kinded;
  usages_below = v.usages_below;
  not_overdrawn = v.not_overdrawn;
  reservations_distinct = v.reservations_distinct;
  reservations_below = v.reservations_below;
}

pub check_in_user-Keeps :
    (now user month day : ℕ) → Keeps WellFormed (check_in_user now user month day)
check_in_user-Keeps now user month day db r e v =
    let c = check_in_user-eq-ok now user month day db e in
    rw c.kept (
      grant_credits-Keeps now _ (checked_db user month day db) (c.entry, c.after) c.granted
        (check_ins-WellFormed _ v))
