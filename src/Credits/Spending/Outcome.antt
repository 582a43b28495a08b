-- ===== src/Credits/Spending/Outcome.antt =====
-- When credits can be spent, and what a spend does to the balance.
use opod_service_backend.Prelude.{
  ℕ, ◌+◌, ◌-◌, min, ◌≡◌, ap, false, none, some, leb, if◌then◌else◌, arith, String, Number,
}
use opod_service_backend.Prelude.Int.{pos, pos_part, neg_part, ◌-ℤ◌, ◌≤ℤ◌, int_laws}
use opod_service_backend.Prelude.Text.{trim}
use opod_service_backend.Database.{Database, ok, err, insufficient_credits}
use opod_service_backend.Database.CreditRows.{LedgerRow, free, paid}
use opod_service_backend.Credits.WellFormed.{WellFormed}
use opod_service_backend.Credits.Ledger.{insert_ledger}
use opod_service_backend.Credits.Balance.{Balance, balance_breakdown, available_of}
use opod_service_backend.Credits.Allocation.{allocation, allocate_usage}
use opod_service_backend.Credits.Allocation.Drawn.{leftover_lem}
use opod_service_backend.Credits.Spending.{
  usage_entry, use_credits, spend_credits, valid_amount, is_short,
}
use opod_service_backend.Credits.Spending.Effect.{
  used_now, use_credits-eq-ok, spend_credits-eq-ok, snapshots_of, snapshots-Kinded,
}
use opod_service_backend.Credits.Spending.Charge.{used_now-Charged}

pub not_short-covers :
    (b : Balance) (n : ℕ)
    → is_short b n ≡ false
    → (pos 0 ≤ℤ b.paid_balance) × (pos n ≤ℤ b.available_balance)
not_short-covers b n h = ground arith

-- What the grants of a user can give: all of the free ones, and of the paid ones no more than the
-- paid balance.
abbrev pub usable : ℕ → ℕ → Database → ℕ
usable now user db =
    available_of free (snapshots_of now user db)
    + min (available_of paid (snapshots_of now user db))
        (pos_part (balance_breakdown now user db).paid_balance)

module _ (now user : ℕ) {db : Database} (v : WellFormed db) where
  pub leftover_now : (amount : ℕ) → (allocation now user amount db).1 ≡ amount - usable now user db
  unfolding allocation
  leftover_now amount =
      leftover_lem amount _ (snapshots_of now user db) (snapshots-Kinded now user v)

  -- On well-formed tables, a valid spend ends in one of three ways: the balance does not cover it,
  -- the grants do not, or it is made.
  pub spend_outcome :
      (amount : ℕ) (n : Number) (reason : String)
      → valid_amount n reason ≡ some amount
      → spend_credits now user n reason db ≡ (
          if is_short (balance_breakdown now user db) amount
          then err insufficient_credits
          else if leb amount (usable now user db)
          then ok (
            usage_entry now user amount (trim reason) none db.next_id,
            used_now now user amount (trim reason) none db,
          )
          else err insufficient_credits)
  unfolding spend_credits use_credits allocate_usage insert_ledger
  spend_outcome amount n reason valid = ground (arith, leftover_now amount)

-- On well-formed tables, a spend that succeeds takes exactly its amount off the available balance,
-- which stays at zero or more, and the paid balance stays at zero or more.
pub spend_takes :
    (now user amount : ℕ) (n : Number) (reason : String) (db : Database) {p : LedgerRow × Database}
    → WellFormed db
    → valid_amount n reason ≡ some amount
    → spend_credits now user n reason db ≡ ok p
    → let b = balance_breakdown now user db in
      let b' = balance_breakdown now user p.1 in
      (b'.available_balance ≡ b.available_balance -ℤ pos amount)
      × (pos 0 ≤ℤ b'.available_balance)
      × (pos 0 ≤ℤ b'.paid_balance)
spend_takes now user amount n reason db {p} v valid e =
    let (k, valid', short, used) = spend_credits-eq-ok now user n reason db e in
    let same : k ≡ amount = cc valid' in
    let (covered, done) = use_credits-eq-ok now user k (trim reason) none db used in
    let b = balance_breakdown now user db in
    let c = used_now-Charged now user k (trim reason) none v covered in
    let (h, enough) = not_short-covers b k short in
    rw done (
      rw (← same) (c.falls h),
      omega (int_laws, ap pos_part (c.falls h), ap neg_part (c.falls h)),
      c.no_debt h,
    )
