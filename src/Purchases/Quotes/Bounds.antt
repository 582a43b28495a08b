-- ===== src/Purchases/Quotes/Bounds.antt =====
-- The bounds of a refund's quote.
use opod_service_backend.Prelude.{
  ℕ, ◌+◌, ◌-◌, ◌*◌, ◌≤◌, ◌<◌, ◌≡◌, refl, Bool, true, false, Option, some, List, [], ◌∷◌, All,
  All-map, All-select, sum, get_or, opt_is, arith,
}
use native.Mathlib.Nat.{div-le_of_le-mul, mul-le-mul_left}
use opod_service_backend.Prelude.Int.{ℤ}
use opod_service_backend.Database.{Database, ok}
use opod_service_backend.Database.ProviderRows.{PaymentRow}
use opod_service_backend.Database.PaymentRows.{PurchaseRow}
use opod_service_backend.Credits.Balance.{
  PurchaseCredits, grant_state, purchase_credits, original, remaining, is_base, is_paid_promotion,
  get_paid_balance,
}
use opod_service_backend.Credits.Grants.Taken.{walk-le-unspent}
use opod_service_backend.Payments.{Payments}
use opod_service_backend.Purchases.Rows.{payment_of}
use opod_service_backend.Purchases.Quotes.Cases.{refund_quote-eq-ok}
use opod_service_backend.Purchases.Quotes.{
  RefundQuote, refund_quote, quote_from, fee_of, payment_amount, original_eligible,
  remaining_eligible, is_eligible, gross_of,
}

sum-le : {A : Type 0} (f g : A → ℕ) (xs : List A) → All (λ x. f x ≤ g x) xs → sum f xs ≤ sum g xs
sum-le f g [] h = omega arith
sum-le f g (x ∷ xs) h = omega (arith, h.0, sum-le f g xs h.1)

-- No grant has more left than its amount.
snapshots-le :
    (b : Bool) (now user : ℕ) (db : Database)
    → All (λ s. remaining s ≤ original s) (grant_state b now user db).snapshots
unfolding grant_state
snapshots-le b now user db =
    All-map _ _ _ (λ s h. ground (arith, h)) (walk-le-unspent b now _ _ _ _)

-- No purchase has more left than it gave.
pub remaining_eligible-le :
    (now user purchase : ℕ) (db : Database)
    → remaining_eligible (purchase_credits now user purchase db)
      ≤ original_eligible (purchase_credits now user purchase db)
unfolding purchase_credits
remaining_eligible-le now user purchase db =
    let own =
      All-select (λ s. remaining s ≤ original s) (λ s. opt_is s.grant.purchase_id purchase) _
        (snapshots-le false now user db) in
    ground (
      arith,
      sum-le remaining original _ (All-select _ is_base _ own),
      sum-le remaining original _ (All-select _ is_paid_promotion _ own),
    )

pub gross_of-le :
    (eligible : Bool) (amount : Option ℕ) (c : PurchaseCredits)
    → remaining_eligible c ≤ original_eligible c
    → gross_of eligible amount c ≤ get_or amount 0
gross_of-le false amount c h = omega arith
gross_of-le true amount c h =
    div-le_of_le-mul (original_eligible c) (omega (arith, mul-le-mul_left (get_or amount 0) h))

is_eligible_parts :
    (row : PurchaseRow) (c : PurchaseCredits)
    → is_eligible row c ≡ true
    → (c.locked ≡ 0) × (original_eligible c ≤ remaining_eligible c * 2)
is_eligible_parts row c h = ground arith

fee_of_bounds :
    (gross : ℕ)
    → (gross - fee_of gross + fee_of gross ≡ gross)
      × (fee_of gross * 20 ≤ gross)
      × (gross < fee_of gross * 20 + 20)
fee_of_bounds gross = (omega arith, omega arith, omega arith)

no_refund :
    (eligible : Bool) (amount : Option ℕ) (c : PurchaseCredits)
    → eligible ≡ false
    → gross_of eligible amount c - fee_of (gross_of eligible amount c) ≡ 0
no_refund true amount c e = cc
no_refund false amount c e = refl

-- The bounds of a quote, by its parts.
abbrev pub Bounded : RefundQuote → ℕ → Type 0
Bounded q amount =
    (q.refund_amount + q.fee_amount ≡ q.gross_amount)
    × (q.gross_amount ≤ amount)
    × (q.fee_amount * 20 ≤ q.gross_amount)
    × (q.gross_amount < q.fee_amount * 20 + 20)
    × (q.remaining_credits ≤ q.original_credits)
    × (q.eligible ≡ true → (q.locked_credits ≡ 0) × (q.original_credits ≤ q.remaining_credits * 2))
    × (q.eligible ≡ false → q.refund_amount ≡ 0)

quote_from_bounds :
    (row : PurchaseRow) (payment : PaymentRow) (c : PurchaseCredits) (balance : ℤ)
    → remaining_eligible c ≤ original_eligible c
    → Bounded (quote_from row payment c balance) (get_or (payment_amount payment) 0)
quote_from_bounds row payment c balance fewer =
    let eligible = is_eligible row c in
    let (adds, fee, rest) = fee_of_bounds (gross_of eligible (payment_amount payment) c) in
    (
      adds,
      gross_of-le eligible (payment_amount payment) c fewer,
      fee,
      rest,
      fewer,
      is_eligible_parts row c,
      no_refund eligible (payment_amount payment) c,
    )

-- A refund's quote, when there is one: the refund and its fee add up to the gross amount, which is
-- no more than what was paid; the fee is a twentieth of it, rounded down; and the refund is eligible
-- only if nothing of the purchase is locked and at least half of its paid credits are left. It is
-- nothing otherwise.
pub refund_quote_bounds :
    (payments : Payments) (now user purchase : ℕ) (db : Database) (payment : PaymentRow)
    (p : RefundQuote × Database)
    → payment_of purchase db ≡ some payment
    → refund_quote payments now user purchase db ≡ ok p
    → Bounded p.0 (get_or (payment_amount payment) 0)
refund_quote_bounds payments now user purchase db payment p paid e =
    let q = refund_quote-eq-ok payments now user purchase db e in
    let same : q.payment ≡ payment = (let k = q.paid in cc) in
    rw (q.quote, same)
      (quote_from_bounds q.row payment (purchase_credits now user purchase db)
        (get_paid_balance now user db) (remaining_eligible-le now user purchase db))
