-- ===== src/Credits/Spending/Order.antt =====
-- The order in which a use of credits draws on a user's grants.
use opod_service_backend.Prelude.{
  ℕ, zero, suc, ◌⊎◌, inl, inr, refl, ap, ◌≤◌, ◌<◌, ◌≡◌, Option, some, Bool-cases, ltb, ◌||◌, ◌≢◌,
  List, [], ◌∷◌, true, none, ◌==◌, ◌&&◌, select, All, All-map2, arith,
}
use opod_service_backend.Database.{Database}
use opod_service_backend.Credits.WellFormed.{WellFormed}
use opod_service_backend.Credits.Ledger.{is_grant}
use opod_service_backend.Credits.Grants.{
  GrantSnapshot, sort_key, kind_rank, null_rank, time_or_zero,
}
use opod_service_backend.Database.CreditRows.{LedgerRow, CreditKind, free, paid}
use opod_service_backend.Prelude.Sorting.{lex_leb}
use opod_service_backend.Credits.Grants.Sorted.{Precedes, SortedSnapshots, sort-Sorted, walk-Sorted}
use opod_service_backend.Credits.Balance.{grant_state, grants_of, used_of, recoveries_of, locks_of}
use opod_service_backend.Credits.Allocation.{allocation, is_paid}
use opod_service_backend.Credits.Allocation.Drawn.{drawn, Kinded}
use opod_service_backend.Credits.Allocation.Order.{InOrder, allocate-InOrder}
use opod_service_backend.Credits.Spending.Effect.{
  snapshots_of, snapshots-Distinct, snapshots-Kinded,
}

-- Behind a paid grant there are only paid ones.
paid_last :
    (s t : GrantSnapshot)
    → Precedes s.grant t.grant
    → t.grant.credit_kind ≢ none
    → is_paid s ≡ true
    → is_paid t ≡ true
unfolding lex_leb sort_key
paid_last s t before kind p = ground arith

-- A grant gives something only if every grant before it gives all that it has.
abbrev pub Exhausts : (GrantSnapshot → ℕ) → List GrantSnapshot → Type 0
Exhausts given [] = Unit
Exhausts given (s ∷ ss) = All (λ t. (given t ≡ 0) ⊎ (given s ≡ s.available)) ss × Exhausts given ss

nothing_or : {P : Type 0} (n : ℕ) → (0 < n → P) → (n ≡ 0) ⊎ P
nothing_or zero f = inl refl
nothing_or (suc n) f = inr (f (omega arith))

InOrder-Exhausts :
    (given : GrantSnapshot → ℕ) (ss : List GrantSnapshot)
    → SortedSnapshots ss
    → Kinded ss
    → InOrder given ss
    → Exhausts given ss
InOrder-Exhausts given [] sorted kinded order = tt
InOrder-Exhausts given (s ∷ ss) sorted kinded order = (
  All-map2 (λ t. Precedes s.grant t.grant × (t.grant.credit_kind ≢ none))
      (λ t. 0 < given t → (is_paid s ≡ true → is_paid t ≡ true) → given s ≡ s.available)
      (λ t. (given t ≡ 0) ⊎ (given s ≡ s.available)) ss
      (λ t h k. nothing_or (given t) (λ pos. k pos (paid_last s t h.0 h.1)))
      (All-map2 (λ t. Precedes s.grant t.grant) (λ t. t.grant.credit_kind ≢ none)
        (λ t. Precedes s.grant t.grant × (t.grant.credit_kind ≢ none)) ss (λ t h k. (h, k)) sorted.0
        kinded.1)
      order.0,
  InOrder-Exhausts given ss sorted.1 kinded.1 order.1,
)

snapshots-Sorted : (now user : ℕ) (db : Database) → SortedSnapshots (snapshots_of now user db)
unfolding grant_state grants_of
snapshots-Sorted now user db =
    walk-Sorted true now (used_of db.usages) (grants_of user db) (recoveries_of user db.ledger)
      (locks_of user db)
      (sort-Sorted (select (λ r. r.user_id == user && is_grant r.type) db.ledger))

snapshots-InOrder :
    (now user amount : ℕ) {db : Database}
    → WellFormed db
    → InOrder (λ t. drawn t.grant.id (allocation now user amount db).0) (snapshots_of now user db)
unfolding allocation
snapshots-InOrder now user amount {db} v =
    allocate-InOrder amount _ (snapshots_of now user db) (snapshots-Distinct now user v)

age_lem :
    (c d i j : ℕ)
    → (ltb c d || (c == d && lex_leb (i ∷ []) (j ∷ []))) ≡ true
    → (c < d) ⊎ ((c ≡ d) × (i ≤ j))
unfolding lex_leb
age_lem c d i j h = elim (Bool-cases (ltb c d)) [
  | inl k ↦ inl (ground arith)
  | inr k ↦ inr (ground arith, ground arith)
]

-- The first expiry comes before the second one; a grant that never expires comes last.
abbrev pub Sooner : Option ℕ → Option ℕ → Type 0
Sooner (some t) (some u) = t < u
Sooner (some t) none = Unit
Sooner none e = ◌≡◌ {A = ℕ} 0 1

-- The first grant is to be used before the second one: it is free and the other paid; or both are of
-- one kind, and it expires sooner, or expires with the other and is older, or as old and has the
-- smaller identifier.
abbrev pub UsedBefore : LedgerRow → LedgerRow → Type 0
UsedBefore g h =
    ((g.credit_kind ≡ some free) × (h.credit_kind ≡ some paid))
    ⊎ ((g.credit_kind ≡ h.credit_kind)
        × (Sooner g.expires_at h.expires_at
            ⊎ ((g.expires_at ≡ h.expires_at)
                × ((g.created_at < h.created_at)
                    ⊎ ((g.created_at ≡ h.created_at) × (g.id ≤ h.id))))))

abbrev pub InUseOrder : List GrantSnapshot → Type 0
InUseOrder [] = Unit
InUseOrder (s ∷ ss) = All (λ t. UsedBefore s.grant t.grant) ss × InUseOrder ss

expiry_lem :
    (e f : Option ℕ) (c d i j : ℕ)
    → lex_leb
        (null_rank e ∷ time_or_zero e ∷ c ∷ i ∷ [])
        (null_rank f ∷ time_or_zero f ∷ d ∷ j ∷ [])
      ≡ true
    → Sooner e f ⊎ ((e ≡ f) × ((c < d) ⊎ ((c ≡ d) × (i ≤ j))))
unfolding lex_leb
expiry_lem none none c d i j h = inr (refl, age_lem c d i j (ground arith))
expiry_lem (some t) none c d i j h = inl tt
expiry_lem none (some u) c d i j h = ground arith
expiry_lem (some t) (some u) c d i j h = elim (Bool-cases (ltb t u)) [
  | inl k ↦ inl (ground arith)
  | inr k ↦ let same : t ≡ u = ground arith in inr (ap some same, age_lem c d i j (ground arith))
]

kind_lem :
    (k l : Option CreditKind) (g h : List ℕ)
    → k ≢ none
    → l ≢ none
    → lex_leb (kind_rank k ∷ g) (kind_rank l ∷ h) ≡ true
    → ((k ≡ some free) × (l ≡ some paid)) ⊎ ((k ≡ l) × (lex_leb g h ≡ true))
unfolding lex_leb
kind_lem none l g h a b e = absurd (a refl)
kind_lem (some k) none g h a b e = absurd (b refl)
kind_lem (some free) (some paid) g h a b e = inl (refl, refl)
kind_lem (some free) (some free) g h a b e = inr (refl, ground arith)
kind_lem (some paid) (some paid) g h a b e = inr (refl, ground arith)
kind_lem (some paid) (some free) g h a b e = ground arith

used_before :
    (g h : LedgerRow) → g.credit_kind ≢ none → h.credit_kind ≢ none → Precedes g h → UsedBefore g h
unfolding sort_key
used_before g h a b e = elim (kind_lem g.credit_kind h.credit_kind _ _ a b e) [
  | inl k ↦ inl k
  | inr (k, rest) ↦
      inr (k, expiry_lem g.expires_at h.expires_at g.created_at h.created_at g.id h.id rest)
]

sorted-InUseOrder : (ss : List GrantSnapshot) → SortedSnapshots ss → Kinded ss → InUseOrder ss
sorted-InUseOrder [] sorted kinded = tt
sorted-InUseOrder (s ∷ ss) sorted kinded = (
  All-map2 (λ t. Precedes s.grant t.grant) (λ t. t.grant.credit_kind ≢ none)
      (λ t. UsedBefore s.grant t.grant) ss
      (λ t before kind. used_before s.grant t.grant kinded.0 kind before) sorted.0 kinded.1,
  sorted-InUseOrder ss sorted.1 kinded.1,
)

-- On well-formed tables, the grants are tried in this order: free ones first, then by expiry (those
-- that never expire last), then by the time of the entry, then by identifier. A use of credits draws
-- on a grant only if every grant before it gives all that it has.
pub use_in_order :
    (now user amount : ℕ) (db : Database)
    → WellFormed db
    → InUseOrder (snapshots_of now user db)
      × Exhausts
          (λ t. drawn t.grant.id (allocation now user amount db).0)
          (snapshots_of now user db)
use_in_order now user amount db v = (
  sorted-InUseOrder (snapshots_of now user db) (snapshots-Sorted now user db)
      (snapshots-Kinded now user v),
  InOrder-Exhausts (λ t. drawn t.grant.id (allocation now user amount db).0)
      (snapshots_of now user db) (snapshots-Sorted now user db) (snapshots-Kinded now user v)
      (snapshots-InOrder now user amount v),
)
