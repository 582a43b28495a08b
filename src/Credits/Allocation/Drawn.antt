-- ===== src/Credits/Allocation/Drawn.antt =====
-- How much an allocation draws on each grant, and on the grants of each kind.
use opod_service_backend.Prelude.{
  ℕ, ◌+◌, ◌-◌, ◌≤◌, min, ◌≡◌, ◌≢◌, refl, none, List, [], ◌∷◌, map, ◌==◌, if◌then◌else◌, sum, All,
  All-map, All-map2, Distinct, Differs, arith,
}
use opod_service_backend.Database.CreditRows.{LedgerRow, free, paid}
use opod_service_backend.Credits.Grants.{GrantSnapshot}
use opod_service_backend.Credits.Grants.Taken.{grant_id, less}
use opod_service_backend.Credits.Balance.{available_of}
use opod_service_backend.Credits.Allocation.{Allocation, allocate, take_from, is_paid}

-- What an allocation draws on one grant.
abbrev pub drawn : ℕ → List Allocation → ℕ
drawn i = sum (λ (a : Allocation). if a.grant.id == i then a.amount else 0)

-- The paid capacity that a snapshot leaves.
abbrev pub rest_capacity : ℕ → ℕ → GrantSnapshot → ℕ
rest_capacity r c s = if is_paid s then c - take_from r c s else c

allocate-zero : (c : ℕ) (ss : List GrantSnapshot) → allocate 0 c ss ≡ ([], 0)
unfolding allocate
allocate-zero c [] = refl
allocate-zero c (s ∷ ss) = refl

module _ (r c : ℕ) (s : GrantSnapshot) (ss : List GrantSnapshot) where
  abbrev pub rest_allocation : List Allocation × ℕ
  rest_allocation = allocate (r - take_from r c s) (rest_capacity r c s) ss

  -- One round of the loop, whichever way it ends.
  pub drawn-cons :
      (i : ℕ)
      → drawn i (allocate r c (s ∷ ss)).0
        ≡ (if s.grant.id == i then take_from r c s else 0) + drawn i rest_allocation.0
  unfolding allocate
  drawn-cons i = ground (arith, allocate-zero (rest_capacity r c s) ss)

  pub leftover-cons : (allocate r c (s ∷ ss)).1 ≡ rest_allocation.1
  unfolding allocate
  leftover-cons = ground (arith, allocate-zero (rest_capacity r c s) ss)

  pub amounts-cons :
      sum (λ (a : Allocation). a.amount) (allocate r c (s ∷ ss)).0
      ≡ take_from r c s + sum (λ (a : Allocation). a.amount) rest_allocation.0
  unfolding allocate
  amounts-cons = ground (arith, allocate-zero (rest_capacity r c s) ss)

-- The allocations add up to what was asked, less the leftover.
pub amounts-add-leftover :
    (r c : ℕ) (ss : List GrantSnapshot)
    → sum (λ (a : Allocation). a.amount) (allocate r c ss).0 + (allocate r c ss).1 ≡ r
unfolding allocate
amounts-add-leftover r c [] = omega arith
amounts-add-leftover r c (s ∷ ss) = omega (
  arith,
  amounts-cons r c s ss,
  leftover-cons r c s ss,
  amounts-add-leftover (r - take_from r c s) (rest_capacity r c s) ss,
)

pub drawn-absent :
    (i r c : ℕ) (ss : List GrantSnapshot) → Differs grant_id i ss → drawn i (allocate r c ss).0 ≡ 0
unfolding allocate
drawn-absent i r c [] h = refl
drawn-absent i r c (s ∷ ss) h = ground (
  arith,
  drawn-cons r c s ss i,
  drawn-absent i (r - take_from r c s) (rest_capacity r c s) ss h.1,
)

-- No grant gives more than it has available.
pub drawn-le :
    (r c : ℕ) (ss : List GrantSnapshot)
    → Distinct grant_id ss
    → All (λ s. drawn s.grant.id (allocate r c ss).0 ≤ s.available) ss
drawn-le r c [] h = tt
drawn-le r c (s ∷ ss) h =
    let r' = r - take_from r c s in
    let c' = rest_capacity r c s in
    (
      ground (arith, drawn-cons r c s ss s.grant.id, drawn-absent s.grant.id r' c' ss h.0),
      All-map2 (λ t. t.grant.id ≢ s.grant.id)
          (λ t. drawn t.grant.id (allocate r' c' ss).0 ≤ t.available)
          (λ t. drawn t.grant.id (allocate r c (s ∷ ss)).0 ≤ t.available) ss
          (λ t ne le. ground (arith, drawn-cons r c s ss t.grant.id)) h.0 (drawn-le r' c' ss h.1),
    )

map-less-congr :
    (f g : ℕ → ℕ) (ss : List GrantSnapshot)
    → All (λ s. f s.grant.id ≡ g s.grant.id) ss
    → map (less f) ss ≡ map (less g) ss
map-less-congr f g [] h = refl
map-less-congr f g (s ∷ ss) h = rw (h.0, map-less-congr f g ss h.1)

-- The snapshots after the first grant's part, with the rest's allocation taken off.
less-rest :
    (r c : ℕ) (s : GrantSnapshot) (ss : List GrantSnapshot)
    → Differs grant_id s.grant.id ss
    → map (less (λ i. drawn i (allocate r c (s ∷ ss)).0)) ss
      ≡ map (less (λ i. drawn i (rest_allocation r c s ss).0)) ss
less-rest r c s ss h =
    map-less-congr (λ i. drawn i (allocate r c (s ∷ ss)).0)
      (λ i. drawn i (rest_allocation r c s ss).0) ss
      (All-map (λ t. t.grant.id ≢ s.grant.id)
        (λ t.
          drawn t.grant.id (allocate r c (s ∷ ss)).0
          ≡ drawn t.grant.id (rest_allocation r c s ss).0)
        ss (λ t ne. ground (arith, drawn-cons r c s ss t.grant.id)) h)

-- Every grant has a kind, as `grantCreditsWithClient` gives it one.
abbrev pub Kinded : List GrantSnapshot → Type 0
Kinded = All (λ s. s.grant.credit_kind ≢ none)

abbrev pub after : ℕ → ℕ → List GrantSnapshot → List GrantSnapshot
after r c ss = map (less (λ i. drawn i (allocate r c ss).0)) ss

-- What is left available of each kind when an allocation has been used.
pub record Conserved (r c left : ℕ) (before now : List GrantSnapshot) : Type 0 where
  pub total :
      available_of free now + available_of paid now + r
      ≡ available_of free before + available_of paid before + left
  pub paid_within : available_of paid before ≤ available_of paid now + c
  pub paid_falls : available_of paid now ≤ available_of paid before
  pub free_falls : available_of free now ≤ available_of free before

pub first-taken :
    (r c : ℕ) (s : GrantSnapshot) (ss : List GrantSnapshot)
    → Differs grant_id s.grant.id ss
    → drawn s.grant.id (allocate r c (s ∷ ss)).0 ≡ take_from r c s
first-taken r c s ss h = ground (
  arith,
  drawn-cons r c s ss s.grant.id,
  drawn-absent s.grant.id (r - take_from r c s) (rest_capacity r c s) ss h,
)

cons-Conserved :
    (r c left : ℕ) (s : GrantSnapshot) (before now : List GrantSnapshot)
    → s.grant.credit_kind ≢ none
    → Conserved (r - take_from r c s) (rest_capacity r c s) left before now
    → Conserved r c left (s ∷ before) (record s { available = s.available - take_from r c s } ∷ now)
unfolding available_of
cons-Conserved r c left s before now k h = ground arith

pub allocate-Conserved :
    (r c : ℕ) (ss : List GrantSnapshot)
    → Distinct grant_id ss
    → Kinded ss
    → Conserved r c (allocate r c ss).1 ss (after r c ss)
unfolding allocate available_of
allocate-Conserved r c [] d k = ground arith
allocate-Conserved r c (s ∷ ss) d k =
    rw (first-taken r c s ss d.0, less-rest r c s ss d.0, leftover-cons r c s ss)
      (cons-Conserved r c (rest_allocation r c s ss).1 s ss
        (map (less (λ i. drawn i (rest_allocation r c s ss).0)) ss) k.0
        (allocate-Conserved (r - take_from r c s) (rest_capacity r c s) ss d.1 k.1))

-- The leftover: an allocation covers all that the free grants and, up to the paid capacity, the
-- paid grants can give.
pub leftover_lem :
    (r c : ℕ) (ss : List GrantSnapshot)
    → Kinded ss
    → (allocate r c ss).1 ≡ r - (available_of free ss + min (available_of paid ss) c)
unfolding allocate available_of
leftover_lem r c [] k = omega arith
leftover_lem r c (s ∷ ss) k =
    ground (
      arith,
      leftover-cons r c s ss,
      leftover_lem (r - take_from r c s) (rest_capacity r c s) ss k.1,
    )

-- Allocations are on grants of the snapshots.
pub allocate-grants :
    (P : LedgerRow → Type 0) (r c : ℕ) (ss : List GrantSnapshot)
    → All (λ s. P s.grant) ss
    → All (λ (a : Allocation). P a.grant) (allocate r c ss).0
unfolding allocate
allocate-grants P r c [] h = tt
allocate-grants P r c (s ∷ ss) h =
    ground (arith, allocate-grants P (r - take_from r c s) (rest_capacity r c s) ss h.1)
