-- ===== src/Credits/Balance.antt =====
-- `grantState`, `balanceBreakdown`, `getBalance` and `getPurchaseCreditSnapshotWithClient` of
-- credits/credits.service.ts. An operation reads the clock several times; here it reads it once.
use opod_service_backend.Prelude.{
  ℕ, Bool, true, false, not, ◌&&◌, Option, none, some, List, [], ◌∷◌, ◌==◌, if◌then◌else◌, select,
  sum, any, Amounts, add_to_group, total, opt_is,
}
use opod_service_backend.Prelude.Int.{ℤ, pos, ◌+ℤ◌, ◌-ℤ◌, ltb_ℤ}
use opod_service_backend.Prelude.Text.{has_text}
use opod_service_backend.Database.{Database}
use opod_service_backend.Database.CreditRows.{
  LedgerRow, Adjustment, UsageRow, ReservationRow, CreditKind, free, paid, kind_eq, is_reserved,
}
use opod_service_backend.Database.PaymentRows.{RefundRow, is_locking}
use opod_service_backend.Credits.Ledger.{is_grant, is_recovery, is_kind}
use opod_service_backend.Credits.Grants.{GrantSnapshot, walk, sort_grants, is_past}

-- The user's grants, in the order of use.
unfoldable pub grants_of : ℕ → Database → List LedgerRow
unfolding sort_grants
grants_of user db = sort_grants (select (λ r. r.user_id == user && is_grant r.type) db.ledger)

-- The rows of `credit_usage` of one grant. (The query's join keeps the rows of the user's grants,
-- and those are all that is looked up.)
unfoldable pub used_of : List UsageRow → ℕ → ℕ
used_of usages g = sum (λ u. u.amount) (select (λ u. u.grant_ledger_id == g) usages)

abbrev pub add_recovery : LedgerRow → Amounts → Amounts
add_recovery r m = elim r.purchase_id [ none ↦ m | some p ↦ add_to_group p r.amount m ]

group_recoveries : List LedgerRow → Amounts
group_recoveries [] = []
group_recoveries (r ∷ rs) = add_recovery r (group_recoveries rs)

-- The recoveries of refunds, by purchase.
unfoldable pub recoveries_of : ℕ → List LedgerRow → Amounts
unfolding group_recoveries
recoveries_of user ledger =
    group_recoveries (select (λ r. r.user_id == user && is_recovery r.type) ledger)

abbrev pub is_purchase_of : ℕ → Database → ℕ → Bool
is_purchase_of user db p = any (λ q. q.id == p && q.user_id == user) db.purchases

group_locks : List RefundRow → Amounts
group_locks [] = []
group_locks (r ∷ rs) = add_to_group r.purchase_id r.locked_amount (group_locks rs)

-- What refunds in progress withhold, by purchase.
unfoldable pub locks_of : ℕ → Database → Amounts
unfolding group_locks
locks_of user db =
    group_locks
      (select (λ r. is_purchase_of user db r.purchase_id && is_locking r.status) db.refunds)

pub record GrantState : Type 0 where
  pub snapshots : List GrantSnapshot
  pub recovery_debt : ℕ

unfoldable pub grant_state : Bool → ℕ → ℕ → Database → GrantState
grant_state with_locks now user db =
    let (snapshots, recoveries) =
      walk with_locks now (used_of db.usages) (grants_of user db) (recoveries_of user db.ledger)
        (locks_of user db) in
    record { snapshots = snapshots; recovery_debt = total recoveries }

-- `activeReservationCondition`
abbrev pub is_active : ℕ → ReservationRow → Bool
is_active now r = is_reserved r.status && not (is_past now r.expires_at)

unfoldable pub reserved_amount : ℕ → ℕ → List ReservationRow → ℕ
reserved_amount now user rows =
    sum (λ r. r.amount) (select (λ r. r.user_id == user && is_active now r) rows)

-- `sumByKind`
unfoldable pub adjusted : CreditKind → ℕ → List Adjustment → ℤ
adjusted kind user [] = pos 0
adjusted kind user (a ∷ as') =
    let rest = adjusted kind user as' in
    if a.user_id == user && kind_eq a.credit_kind kind then a.amount +ℤ rest else rest

-- `availableByKind`
unfoldable pub available_of : CreditKind → List GrantSnapshot → ℕ
available_of kind snapshots =
    sum (λ s. s.available) (select (λ s. is_kind kind s.grant.credit_kind) snapshots)

pub record Balance : Type 0 where
  pub paid_balance : ℤ
  pub free_balance : ℤ
  pub available_balance : ℤ

-- The balance from its parts: a negative paid balance hides all the rest.
abbrev pub balance_from : ℤ → ℤ → ℕ → Balance
balance_from p f reserved = record {
  paid_balance = p;
  free_balance = f;
  available_balance = if ltb_ℤ p (pos 0) then p else p +ℤ f -ℤ pos reserved;
}

unfoldable pub balance_breakdown : ℕ → ℕ → Database → Balance
balance_breakdown now user db =
    let s = grant_state true now user db in
    balance_from
      (pos (available_of paid s.snapshots)
        -ℤ pos s.recovery_debt
        +ℤ adjusted paid user db.adjustments)
      (pos (available_of free s.snapshots) +ℤ adjusted free user db.adjustments)
      (reserved_amount now user db.reservations)

-- What `getBalance` shows of a balance: the free part only while the paid part is not negative.
pub record ShownBalance : Type 0 where
  pub balance : ℤ
  pub paid_balance : ℤ
  pub free_balance : Option ℤ

pub get_balance : ℕ → ℕ → Database → ShownBalance
get_balance now user db =
    let b = balance_breakdown now user db in
    if ltb_ℤ b.paid_balance (pos 0)
    then record { balance = b.paid_balance; paid_balance = b.paid_balance; free_balance = none }
    else record {
      balance = b.available_balance;
      paid_balance = b.paid_balance;
      free_balance = some b.free_balance;
    }

-- `getPaidBalanceWithClient`
unfoldable pub get_paid_balance : ℕ → ℕ → Database → ℤ
get_paid_balance now user db = (balance_breakdown now user db).paid_balance

pub record PurchaseCredits : Type 0 where
  pub original_paid : ℕ
  pub original_promotion : ℕ
  pub original_paid_promotion : ℕ
  pub remaining_paid : ℕ
  pub remaining_promotion : ℕ
  pub remaining_paid_promotion : ℕ
  pub locked : ℕ

abbrev pub is_base : GrantSnapshot → Bool
is_base s = is_kind paid s.grant.credit_kind && not (has_text s.grant.promotion_code)

abbrev pub is_promotion : GrantSnapshot → Bool
is_promotion s = has_text s.grant.promotion_code

abbrev pub is_paid_promotion : GrantSnapshot → Bool
is_paid_promotion s = is_kind paid s.grant.credit_kind && has_text s.grant.promotion_code

abbrev pub original : GrantSnapshot → ℕ
original s = s.grant.amount

abbrev pub remaining : GrantSnapshot → ℕ
remaining s = s.available

unfoldable pub locked_of_purchase : ℕ → List RefundRow → ℕ
locked_of_purchase p rows =
    sum (λ r. r.locked_amount) (select (λ r. r.purchase_id == p && is_locking r.status) rows)

-- The sums over the grants of one purchase.
unfoldable pub purchase_credits_from : List GrantSnapshot → ℕ → PurchaseCredits
purchase_credits_from grants locked = record {
  original_paid = sum original (select is_base grants);
  original_promotion = sum original (select is_promotion grants);
  original_paid_promotion = sum original (select is_paid_promotion grants);
  remaining_paid = sum remaining (select is_base grants);
  remaining_promotion = sum remaining (select is_promotion grants);
  remaining_paid_promotion = sum remaining (select is_paid_promotion grants);
  locked = locked;
}

-- `getPurchaseCreditSnapshotWithClient`, on the grant state without the refund locks.
unfoldable pub purchase_credits : ℕ → ℕ → ℕ → Database → PurchaseCredits
unfolding purchase_credits_from
purchase_credits now user p db =
    purchase_credits_from
      (select (λ s. opt_is s.grant.purchase_id p) (grant_state false now user db).snapshots)
      (locked_of_purchase p db.refunds)
