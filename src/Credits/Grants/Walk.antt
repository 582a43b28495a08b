-- ===== src/Credits/Grants/Walk.antt =====
-- The pass over the sorted grants, which takes expiry, use, recoveries and refund locks off each.
use opod_service_backend.Prelude.{
  ℕ, ◌-◌, min, Bool, true, false, Option, none, some, List, [], ◌∷◌, leb, if◌then◌else◌, Amounts,
  amount_at, put,
}
use opod_service_backend.Database.CreditRows.{LedgerRow}

pub record GrantSnapshot : Type 0 where
  pub grant : LedgerRow
  pub available : ℕ

-- `expiresAt && expiresAt <= now`
abbrev pub is_past : ℕ → Option ℕ → Bool
is_past now none = false
is_past now (some t) = leb t now

-- What expiry and use leave of a grant.
abbrev pub unspent : ℕ → ℕ → LedgerRow → ℕ
unspent now used g = if is_past now g.expires_at then 0 else g.amount - used

-- What is available, and what is left of the recoveries and of the locks.
pub record Deduction : Type 0 where
  pub available : ℕ
  pub recoveries : Amounts
  pub locks : Amounts

-- The locks of a purchase, taken off what is left of one of its grants.
unfoldable pub deduct_lock : Bool → ℕ → ℕ → Amounts → Amounts → Deduction
deduct_lock false p left recoveries locks = record {
  available = left;
  recoveries = recoveries;
  locks = locks;
}
deduct_lock true p left recoveries locks =
    let locked = min left (amount_at p locks) in
    record {
      available = left - locked;
      recoveries = recoveries;
      locks = put p (amount_at p locks - locked) locks;
    }

unfoldable pub deduct : Bool → Option ℕ → ℕ → Amounts → Amounts → Deduction
unfolding deduct_lock
deduct with_locks none available recoveries locks = record {
  available = available;
  recoveries = recoveries;
  locks = locks;
}
deduct with_locks (some p) available recoveries locks =
    let recovered = min available (amount_at p recoveries) in
    deduct_lock with_locks p (available - recovered)
      (put p (amount_at p recoveries - recovered) recoveries) locks

-- The snapshots, and the recoveries that no grant covered.
unfoldable pub walk :
    Bool → ℕ → (ℕ → ℕ) → List LedgerRow → Amounts → Amounts → List GrantSnapshot × Amounts
unfolding deduct
walk with_locks now used [] recoveries locks = ([], recoveries)
walk with_locks now used (g ∷ gs) recoveries locks =
    let d = deduct with_locks g.purchase_id (unspent now (used g.id) g) recoveries locks in
    let rest = walk with_locks now used gs d.recoveries d.locks in
    (record { grant = g; available = d.available } ∷ rest.0, rest.1)
