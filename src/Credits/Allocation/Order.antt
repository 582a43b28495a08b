-- ===== src/Credits/Allocation/Order.antt =====
-- Credits are used in the order of the grants: one is touched only when those before it are used
-- up.
use opod_service_backend.Prelude.{
  ℕ, ◌-◌, ◌≤◌, ◌<◌, ◌≡◌, ◌≢◌, Bool-cases, inl, inr, true, List, [], ◌∷◌, All, All-map, All-map2,
  Distinct, arith,
}
use opod_service_backend.Credits.Grants.{GrantSnapshot}
use opod_service_backend.Credits.Grants.Taken.{grant_id}
use opod_service_backend.Credits.Allocation.{allocate, take_from, is_paid}
use opod_service_backend.Credits.Allocation.Drawn.{drawn, drawn-cons, rest_capacity, first-taken}

-- What the grant of `t` gives of a request for `r` with paid capacity `c`.
abbrev gives : ℕ → ℕ → List GrantSnapshot → GrantSnapshot → ℕ
gives r c ss t = drawn t.grant.id (allocate r c ss).0

-- No more than is asked is drawn, nor than the paid capacity on a paid grant.
abbrev IsBounded : ℕ → ℕ → List GrantSnapshot → GrantSnapshot → Type 0
IsBounded r c ss t = (gives r c ss t ≤ r) × (is_paid t ≡ true → gives r c ss t ≤ c)

gives-IsBounded :
    (r c : ℕ) (ss : List GrantSnapshot) → Distinct grant_id ss → All (IsBounded r c ss) ss
gives-IsBounded r c [] h = tt
gives-IsBounded r c (s ∷ ss) h =
    let r' = r - take_from r c s in
    let c' = rest_capacity r c s in
    (
      (
        rw (first-taken r c s ss h.0) (omega arith),
        (λ paid. rw (first-taken r c s ss h.0) (ground arith)),
      ),
      All-map2 (λ t. t.grant.id ≢ s.grant.id) (IsBounded r' c' ss) (IsBounded r c (s ∷ ss)) ss
          (λ t ne b. (
            ground (arith, drawn-cons r c s ss t.grant.id, b.0),
            (λ paid. ground (arith, drawn-cons r c s ss t.grant.id, b.1 paid)),
          ))
          h.0 (gives-IsBounded r' c' ss h.1),
    )

-- Whenever a later grant gives something, an earlier one has given all it had, except that a paid
-- grant may be held back by the paid balance while a free one still gives.
abbrev pub InOrder : (GrantSnapshot → ℕ) → List GrantSnapshot → Type 0
InOrder given [] = Unit
InOrder given (s ∷ ss) =
    All (λ t. 0 < given t → (is_paid s ≡ true → is_paid t ≡ true) → given s ≡ s.available) ss
    × InOrder given ss

InOrder-congr :
    (f g : GrantSnapshot → ℕ) (ss : List GrantSnapshot)
    → All (λ s. f s ≡ g s) ss
    → InOrder f ss
    → InOrder g ss
InOrder-congr f g [] h k = tt
InOrder-congr f g (s ∷ ss) h k = (
  All-map2 (λ t. f t ≡ g t)
      (λ t. 0 < f t → (is_paid s ≡ true → is_paid t ≡ true) → f s ≡ s.available)
      (λ t. 0 < g t → (is_paid s ≡ true → is_paid t ≡ true) → g s ≡ s.available) ss
      (λ t e k pos paid. rw (← h.0) (k (rw e pos) paid)) h.1 k.0,
  InOrder-congr f g ss h.1 k.1,
)

-- If something is left for a later grant, this one has given all it had.
all_given :
    (r c : ℕ) (s : GrantSnapshot) (n : ℕ)
    → 0 < n
    → n ≤ r - take_from r c s
    → (is_paid s ≡ true → n ≤ rest_capacity r c s)
    → take_from r c s ≡ s.available
all_given r c s n pos left capacity = ground arith

pub allocate-InOrder :
    (r c : ℕ) (ss : List GrantSnapshot) → Distinct grant_id ss → InOrder (gives r c ss) ss
allocate-InOrder r c [] h = tt
allocate-InOrder r c (s ∷ ss) h =
    let r' = r - take_from r c s in
    let c' = rest_capacity r c s in
    (
      All-map2 (λ t. t.grant.id ≢ s.grant.id) (IsBounded r' c' ss)
          (λ t.
            0 < gives r c (s ∷ ss) t
            → (is_paid s ≡ true → is_paid t ≡ true)
            → gives r c (s ∷ ss) s ≡ s.available)
          ss
          (λ t ne b some_given paid.
            let later : 0 < gives r' c' ss t = ground (arith, drawn-cons r c s ss t.grant.id) in
            rw (first-taken r c s ss h.0) (elim (Bool-cases (is_paid s)) [
              | inl p ↦ all_given r c s _ later b.0 (λ _. b.1 (paid p))
              | inr f ↦ all_given r c s _ later b.0 (λ p. cc)
            ]))
          h.0 (gives-IsBounded r' c' ss h.1),
      InOrder-congr (gives r' c' ss) (gives r c (s ∷ ss)) ss
          (All-map (λ t. t.grant.id ≢ s.grant.id) (λ t. gives r' c' ss t ≡ gives r c (s ∷ ss) t) ss
            (λ t ne. ground (arith, drawn-cons r c s ss t.grant.id)) h.0)
          (allocate-InOrder r' c' ss h.1),
    )
