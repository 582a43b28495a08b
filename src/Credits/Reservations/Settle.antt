-- ===== src/Credits/Reservations/Settle.antt =====
-- What a capture does to the balance.
use opod_service_backend.Prelude.{
  ℕ, ◌≡◌, refl, ap, subst, ◌∙◌, true, Option, some, ◌==◌, ==_refl, arith, String, Bool-cases, inl,
  inr,
}
use opod_service_backend.Prelude.Int.{
  pos, ◌≤ℤ◌, ◌<ℤ◌, int_laws, parts_apart, ltb_ℤ, not_negative, negative,
}
use opod_service_backend.Database.{Database, ok}
use opod_service_backend.Database.CreditRows.{
  LedgerRow, ReservationRow, captured, credit_reservation, ExternalReference,
}
use opod_service_backend.Credits.WellFormed.Holds.{used_now-WellFormed}
use opod_service_backend.Credits.Allocation.{allocation}
use opod_service_backend.Credits.WellFormed.{WellFormed}
use opod_service_backend.Credits.Balance.{Balance, balance_breakdown, is_active}
use opod_service_backend.Credits.Spending.Effect.{use_credits-eq-ok, used_now}
use opod_service_backend.Credits.Spending.Charge.{Charged, used_now-Charged}
use opod_service_backend.Credits.Reservations.{find_reservation, Capture, capture_in_tx}
use opod_service_backend.Credits.Reservations.Cases.{
  capture_in_tx-eq-ok, Captured, already, expires, uses, status_db,
}
use opod_service_backend.Credits.Reservations.Release.{Freed, ended-Freed}

-- A charge whose amount a reservation held, and the end of that reservation.
abbrev Settled : Balance → Balance → Type 0
Settled before after =
    (after.available_balance ≡ before.available_balance)
    × (ltb_ℤ after.paid_balance (pos 0) ≡ ltb_ℤ before.paid_balance (pos 0))

same_sign :
    (n : ℕ) (b₀ b₁ : Balance)
    → Charged n b₀ b₁
    → ltb_ℤ b₁.paid_balance (pos 0) ≡ ltb_ℤ b₀.paid_balance (pos 0)
same_sign n b₀ b₁ charged = elim (Bool-cases (ltb_ℤ b₀.paid_balance (pos 0))) [
  | inl debt ↦
      let h : b₀.paid_balance <ℤ pos 0 = ground arith in
      rw debt (
        negative b₁.paid_balance (
          omega (
            int_laws,
            charged.paid_falls,
            parts_apart b₀.paid_balance,
            parts_apart b₁.paid_balance,
          )))
  | inr no_debt ↦
      let h : pos 0 ≤ℤ b₀.paid_balance = ground arith in
      rw no_debt (not_negative b₁.paid_balance (charged.no_debt h))
]

settle : (n : ℕ) (b₀ b₁ b₂ : Balance) → Charged n b₀ b₁ → Freed n b₁ b₂ → Settled b₀ b₂
settle n b₀ b₁ b₂ charged (paid, _, gives, stays) = (
  elim (Bool-cases (ltb_ℤ b₀.paid_balance (pos 0))) [
    | inl debt ↦
        let h : b₀.paid_balance <ℤ pos 0 = ground arith in
        stays (
          omega (
            int_laws,
            charged.paid_falls,
            parts_apart b₀.paid_balance,
            parts_apart b₁.paid_balance,
          ))
        ∙ charged.kept h
    | inr no_debt ↦
        let h : pos 0 ≤ℤ b₀.paid_balance = ground arith in
        gives (charged.no_debt h) ∙ rw (charged.falls h) (omega int_laws)
  ],
  rw paid (same_sign n b₀ b₁ charged),
)

module _ (now : ℕ) {db : Database} (v : WellFormed db) (reference : String) (r : ReservationRow)
    (found : find_reservation reference db ≡ some r) where
  use-Settled :
      (reason : String) (e : Option ExternalReference)
      → is_active now r ≡ true
      → (allocation now r.user_id r.amount db).1 ≡ 0
      → Settled (balance_breakdown now r.user_id db) (
          balance_breakdown now r.user_id
            (status_db r.id captured (used_now now r.user_id r.amount reason e db)))
  use-Settled reason e active covered =
      settle r.amount _ _ _ (used_now-Charged now r.user_id r.amount reason e v covered) (
        ended-Freed now reference (used_now-WellFormed now r.user_id r.amount reason e v) r found
          (λ q. q.id == r.id) captured (==_refl r.id) (λ t ne. ground arith) refl active)

  Captured-Settled :
      (p : Capture × Database)
      → is_active now r ≡ true
      → Captured now db r p
      → Settled (balance_breakdown now r.user_id db) (balance_breakdown now r.user_id p.1)
  Captured-Settled p active (already s _) = ground arith
  Captured-Settled p active (expires s past _) = ground arith
  Captured-Settled p active (uses entry used s open' ue done) =
      let k =
        use_credits-eq-ok now r.user_id r.amount r.action_type (some (credit_reservation r.id)) db
          ue in
      rw (ap (λ (t : Capture × Database). t.1) done, ap (λ (t : LedgerRow × Database). t.1) k.1)
        (use-Settled r.action_type (some (credit_reservation r.id)) active k.0)

  -- On well-formed tables, a capture of an active reservation that succeeds leaves the available
  -- balance as it was: what the use takes, the reservation gives back. The paid balance does not
  -- change its sign.
  pub capture_keeps_available :
      (p : Capture × Database)
      → is_active now r ≡ true
      → capture_in_tx now reference db ≡ ok p
      → let b = balance_breakdown now r.user_id db in
        let b' = balance_breakdown now r.user_id p.1 in
        (b'.available_balance ≡ b.available_balance)
        × (ltb_ℤ b'.paid_balance (pos 0) ≡ ltb_ℤ b.paid_balance (pos 0))
  capture_keeps_available p active e =
      let (q, f, how) = capture_in_tx-eq-ok now reference db e in
      let same : q ≡ r = cc f in
      Captured-Settled p active (subst (λ t. Captured now db t p) same how)
