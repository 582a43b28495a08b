-- ===== src/Credits/Spending/Charge.antt =====
-- What a use of credits does to the balance.
use opod_service_backend.Prelude.{ℕ, ◌≡◌, ap, subst, true, Option, List, String}
use opod_service_backend.Prelude.Int.{
  ℤ, pos, pos_part, neg_part, ◌+ℤ◌, ◌-ℤ◌, ◌≤ℤ◌, ◌<ℤ◌, int_laws, parts_apart, not_negative, negative,
}
use opod_service_backend.Database.{Database}
use opod_service_backend.Database.CreditRows.{ExternalReference, free, paid}
use opod_service_backend.Credits.WellFormed.{WellFormed}
use opod_service_backend.Credits.Grants.{GrantSnapshot}
use opod_service_backend.Credits.Balance.{
  Balance, balance_breakdown, balance_from, grant_state, available_of, adjusted, reserved_amount,
}
use opod_service_backend.Credits.Allocation.{allocation}
use opod_service_backend.Credits.Allocation.Drawn.{Conserved, allocate-Conserved, after}
use opod_service_backend.Credits.Spending.Effect.{
  used_now, snapshots_of, snapshots-Distinct, snapshots-Kinded, grant_state-use,
}

-- The balance, from what is available of each kind.
abbrev pub balance_of : ℕ → ℤ → ℤ → ℕ → List GrantSnapshot → Balance
balance_of debt adjusted_paid adjusted_free reserved ss =
    balance_from (pos (available_of paid ss) -ℤ pos debt +ℤ adjusted_paid)
      (pos (available_of free ss) +ℤ adjusted_free) reserved

-- The available balance falls by the amount, and the paid balance does not fall below zero; a
-- balance that is negative already stays as it is.
pub record Charged (amount : ℕ) (before now : Balance) : Type 0 where
  pub falls :
      pos 0 ≤ℤ before.paid_balance → now.available_balance ≡ before.available_balance -ℤ pos amount
  pub no_debt : pos 0 ≤ℤ before.paid_balance → pos 0 ≤ℤ now.paid_balance
  pub kept : before.paid_balance <ℤ pos 0 → now.available_balance ≡ before.available_balance
  pub paid_falls : now.paid_balance ≤ℤ before.paid_balance

available-not_negative :
    (p f : ℤ) (reserved : ℕ)
    → pos 0 ≤ℤ p
    → (balance_from p f reserved).available_balance ≡ p +ℤ f -ℤ pos reserved
available-not_negative p f reserved h = rw (not_negative p h)

available-negative :
    (p f : ℤ) (reserved : ℕ) → p <ℤ pos 0 → (balance_from p f reserved).available_balance ≡ p
available-negative p f reserved h = rw (negative p h)

-- The two balances over integers: the paid parts `p` and `q`, the free parts `f` and `g`.
charge :
    (amount reserved : ℕ) (p f q g : ℤ)
    → q +ℤ g +ℤ pos amount ≡ p +ℤ f
    → p ≤ℤ q +ℤ pos (pos_part p)
    → q ≤ℤ p
    → Charged amount (balance_from p f reserved) (balance_from q g reserved)
charge amount reserved p f q g total within falls = record {
  falls = λ h.
      let k : pos 0 ≤ℤ q = omega (int_laws, parts_apart p) in
      rw (available-not_negative p f reserved h, available-not_negative q g reserved k)
        (omega (int_laws, ap pos_part total, ap neg_part total));
  no_debt = λ h. omega (int_laws, parts_apart p);
  kept = λ h.
      let k : q <ℤ pos 0 = omega (int_laws, parts_apart p) in
      rw (available-negative p f reserved h, available-negative q g reserved k)
        (omega (int_laws, parts_apart p));
  paid_falls = falls;
}

Conserved-Charged :
    (debt amount reserved : ℕ) (p f : ℤ) (before now : List GrantSnapshot)
    → Conserved amount (pos_part (balance_of debt p f reserved before).paid_balance) 0 before now
    → Charged amount (balance_of debt p f reserved before) (balance_of debt p f reserved now)
Conserved-Charged debt amount reserved p f before now c =
    charge amount reserved _ _ _ _ (omega (int_laws, c.total)) (omega (int_laws, c.paid_within))
      (omega (int_laws, c.paid_falls))

module _ (now user amount : ℕ) (reason : String) (reference : Option ExternalReference)
    {db : Database} (v : WellFormed db) where
  -- A use of credits that is covered charges the amount to the balance.
  pub used_now-Charged :
      (allocation now user amount db).1 ≡ 0
      → Charged amount
          (balance_breakdown now user db)
          (balance_breakdown now user (used_now now user amount reason reference db))
  unfolding balance_breakdown allocation
  used_now-Charged covered =
      let b = balance_breakdown now user db in
      let ss = snapshots_of now user db in
      rw (grant_state-use now user amount reason reference v) (
        Conserved-Charged (grant_state true now user db).recovery_debt amount
          (reserved_amount now user db.reservations) (adjusted paid user db.adjustments)
          (adjusted free user db.adjustments) ss (after amount (pos_part b.paid_balance) ss)
          (subst
            (λ left.
              Conserved amount (pos_part b.paid_balance) left ss
                (after amount (pos_part b.paid_balance) ss))
            covered
            (allocate-Conserved amount (pos_part b.paid_balance) ss (snapshots-Distinct now user v)
              (snapshots-Kinded now user v))))
