-- ===== src/Prelude/Keys.antt =====
-- Lists whose entries have distinct numbers as keys.
use Prim.Native.Nat.{ℕ, ◌<◌}
use mathlib.Core.Path.{◌≡◌, refl}
use mathlib.Core.Logic.{◌≢◌}
use mathlib.Core.Bool.{Bool, false}
use mathlib.Core.List.{List, [], ◌∷◌}
use mathlib.Core.Option.{some}
use native.Mathlib.Omega.{arith}
use opod_service_backend.Prelude.Tests.{if◌then◌else◌, ◌==◌, ==_refl}
use opod_service_backend.Prelude.Lists.{first, All, All-map2, All-select, select, update}

module _ {ℓ} {A : Type ℓ} (key : A → ℕ) where
  abbrev pub Differs : ℕ → List A → Type 0
  Differs k = All (λ a. key a ≢ k)

  abbrev pub Distinct : List A → Type 0
  Distinct [] = Unit
  Distinct (x ∷ xs) = Differs (key x) xs × Distinct xs

  pub Below→Differs : (n : ℕ) (xs : List A) → All (λ a. key a < n) xs → Differs n xs
  Below→Differs n [] h = tt
  Below→Differs n (x ∷ xs) h = (omega arith, Below→Differs n xs h.1)

  pub select-Distinct : (p : A → Bool) (xs : List A) → Distinct xs → Distinct (select p xs)
  select-Distinct p [] h = tt
  select-Distinct p (x ∷ xs) h =
      ground (arith, All-select (λ a. key a ≢ key x) p xs h.0, select-Distinct p xs h.1)

  pub update-All :
      (P : ℕ → Type 0) (p : A → Bool) (f : A → A) (xs : List A)
      → ((a : A) → key (f a) ≡ key a)
      → All (λ a. P (key a)) xs
      → All (λ a. P (key a)) (update p f xs)
  update-All P p f [] same h = tt
  update-All P p f (x ∷ xs) same h = ground (arith, same x, update-All P p f xs same h.1)

  -- An entry that is not selected differs from all that are.
  pub select-Differs :
      (p : A → Bool) (xs : List A)
      → Distinct xs
      → All (λ x. p x ≡ false → Differs (key x) (select p xs)) xs
  select-Differs p [] h = tt
  select-Differs p (x ∷ xs) h = (
    (λ e. rw e (All-select (λ a. key a ≢ key x) p xs h.0)),
    All-map2 (λ a. key a ≢ key x) (λ a. p a ≡ false → Differs (key a) (select p xs))
        (λ a. p a ≡ false → Differs (key a) (select p (x ∷ xs))) xs
        (λ a ne f e. ground (arith, f e)) h.0 (select-Differs p xs h.1),
  )

  pub update-Distinct :
      (p : A → Bool) (f : A → A) (xs : List A)
      → ((a : A) → key (f a) ≡ key a)
      → Distinct xs
      → Distinct (update p f xs)
  update-Distinct p f [] same h = tt
  update-Distinct p f (x ∷ xs) same h =
      let e : key (if p x then f x else x) ≡ key x = ground (arith, same x) in
      (rw e (update-All (λ k. k ≢ key x) p f xs same h.0), update-Distinct p f xs same h.1)

  -- A search by the key of an entry finds that entry.
  pub first-Distinct :
      (xs : List A) → Distinct xs → All (λ x. first (λ y. key y == key x) xs ≡ some x) xs
  first-Distinct [] h = tt
  first-Distinct (x ∷ xs) h = (
    rw (==_refl (key x)) refl,
    All-map2 (λ a. key a ≢ key x) (λ a. first (λ y. key y == key a) xs ≡ some a)
        (λ a. first (λ y. key y == key a) (x ∷ xs) ≡ some a) xs (λ a ne f. ground (arith, f, ne))
        h.0 (first-Distinct xs h.1),
  )
