-- ===== src/Prelude/Sorting.antt =====
-- `ORDER BY` and `sort`: insertion sort by keys, which are lists of numbers in lexicographic order.
use Prim.Native.Nat.{ℕ, suc}
use mathlib.Core.Path.{◌≡◌, refl}
use mathlib.Core.Bool.{Bool, true, false, ◌&&◌, ◌||◌}
use mathlib.Core.Logic.{◌≢◌, inl, inr}
use mathlib.Core.List.{List, [], ◌∷◌}
use native.Mathlib.Omega.{arith}
use opod_service_backend.Prelude.Tests.{ltb, ◌==◌, if◌then◌else◌, Bool-cases}
use opod_service_backend.Prelude.Lists.{All, All-map, length}
use opod_service_backend.Prelude.Keys.{Differs, Distinct}

unfoldable pub lex_leb : List ℕ → List ℕ → Bool
lex_leb [] ys = true
lex_leb (x ∷ xs) [] = false
lex_leb (x ∷ xs) (y ∷ ys) = ltb x y || (x == y && lex_leb xs ys)

pub lex_leb-total : (xs ys : List ℕ) → lex_leb xs ys ≡ false → lex_leb ys xs ≡ true
unfolding lex_leb
lex_leb-total [] ys h = cc
lex_leb-total (x ∷ xs) [] h = ground arith
lex_leb-total (x ∷ xs) (y ∷ ys) h = ground (arith, lex_leb-total xs ys)

pub lex_leb_trans :
    (xs ys zs : List ℕ) → lex_leb xs ys ≡ true → lex_leb ys zs ≡ true → lex_leb xs zs ≡ true
unfolding lex_leb
lex_leb_trans [] ys zs h k = ground arith
lex_leb_trans (x ∷ xs) [] zs h k = cc
lex_leb_trans (x ∷ xs) (y ∷ ys) [] h k = cc
lex_leb_trans (x ∷ xs) (y ∷ ys) (z ∷ zs) h k = ground (arith, lex_leb_trans xs ys zs)

module _ {A : Type 0} (key : A → List ℕ) where
  unfoldable pub insert_by : A → List A → List A
  unfolding lex_leb
  insert_by x [] = x ∷ []
  insert_by x (y ∷ ys) = if lex_leb (key x) (key y) then x ∷ y ∷ ys else y ∷ insert_by x ys

  unfoldable pub sort_by : List A → List A
  unfolding insert_by
  sort_by [] = []
  sort_by (x ∷ xs) = insert_by x (sort_by xs)

  abbrev pub Precedes : A → A → Type 0
  Precedes x y = lex_leb (key x) (key y) ≡ true

  abbrev pub Sorted : List A → Type 0
  Sorted [] = Unit
  Sorted (x ∷ xs) = All (Precedes x) xs × Sorted xs

  pub insert_by-All :
      (P : A → Type 0) (x : A) (xs : List A) → P x → All P xs → All P (insert_by x xs)
  unfolding insert_by
  insert_by-All P x [] k h = (k, tt)
  insert_by-All P x (y ∷ ys) k h = ground (arith, insert_by-All P x ys k h.1)

  pub sort_by-All : (P : A → Type 0) (xs : List A) → All P xs → All P (sort_by xs)
  unfolding sort_by
  sort_by-All P [] h = tt
  sort_by-All P (x ∷ xs) h = insert_by-All P x (sort_by xs) h.0 (sort_by-All P xs h.1)

  insert_by-Sorted : (x : A) (xs : List A) → Sorted xs → Sorted (insert_by x xs)
  unfolding insert_by
  insert_by-Sorted x [] h = (tt, tt)
  insert_by-Sorted x (y ∷ ys) h = elim (Bool-cases (lex_leb (key x) (key y))) [
    | inl le ↦ rw le (
      (
        le,
        All-map (Precedes y) (Precedes x) ys (λ z k. lex_leb_trans (key x) (key y) (key z) le k)
            h.0,
      ),
      h,
    )
    | inr gt ↦ rw gt (
      insert_by-All (Precedes y) x ys (lex_leb-total (key x) (key y) gt) h.0,
      insert_by-Sorted x ys h.1,
    )
  ]

  pub sort_by-Sorted : (xs : List A) → Sorted (sort_by xs)
  unfolding sort_by
  sort_by-Sorted [] = tt
  sort_by-Sorted (x ∷ xs) = insert_by-Sorted x (sort_by xs) (sort_by-Sorted xs)

  length-insert_by : (x : A) (xs : List A) → length (insert_by x xs) ≡ suc (length xs)
  unfolding insert_by
  length-insert_by x [] = refl
  length-insert_by x (y ∷ ys) = ground (arith, length-insert_by x ys)

  pub length-sort_by : (xs : List A) → length (sort_by xs) ≡ length xs
  unfolding sort_by
  length-sort_by [] = refl
  length-sort_by (x ∷ xs) = omega (arith, length-insert_by x (sort_by xs), length-sort_by xs)

  insert_by-All_iff :
      (P : A → Type 0) (x : A) (xs : List A) → All P (insert_by x xs) → P x × All P xs
  unfolding insert_by
  insert_by-All_iff P x [] h = h
  insert_by-All_iff P x (y ∷ ys) h = ground (arith, insert_by-All_iff P x ys)

  -- What holds of every sorted entry holds of every entry.
  pub All-sort_by : (P : A → Type 0) (xs : List A) → All P (sort_by xs) → All P xs
  unfolding sort_by
  All-sort_by P [] h = tt
  All-sort_by P (x ∷ xs) h =
      let k = insert_by-All_iff P x (sort_by xs) h in (k.0, All-sort_by P xs k.1)

  module _ (id : A → ℕ) where
    insert_by-Distinct :
        (x : A) (xs : List A) → Differs id (id x) xs → Distinct id xs → Distinct id (insert_by x xs)
    unfolding insert_by
    insert_by-Distinct x [] d h = (tt, tt)
    insert_by-Distinct x (y ∷ ys) d h =
        ground (arith, insert_by-All (λ r. id r ≢ id y) x ys, insert_by-Distinct x ys d.1 h.1)

    pub sort_by-Distinct : (xs : List A) → Distinct id xs → Distinct id (sort_by xs)
    unfolding sort_by
    sort_by-Distinct [] h = tt
    sort_by-Distinct (x ∷ xs) h =
        insert_by-Distinct x (sort_by xs) (sort_by-All (λ r. id r ≢ id x) xs h.0)
          (sort_by-Distinct xs h.1)
