-- ===== src/Paging/Order.antt =====
-- Rows in the order of the pages, and the rows after one of them.
use opod_service_backend.Prelude.{
  ℕ, suc, length, ◌≡◌, ◌≢◌, refl, Bool, true, false, Bool-cases, inl, inr, List, [], ◌∷◌, ◌++◌,
  select, All, All-map, All-select, All-middle, Differs, Distinct, if◌then◌else◌, arith,
}
use opod_service_backend.Paging.{is_after, insert_newest, newest_first}

pub select-congr :
    {A : Type 0} (p q : A → Bool) (xs : List A)
    → All (λ x. p x ≡ q x) xs
    → select p xs ≡ select q xs
select-congr p q [] h = refl
select-congr p q (x ∷ xs) h = rw (h.0, select-congr p q xs h.1) refl

module _ {A : Type 0} (id_of created_of : A → ℕ) where
  abbrev pub After : A → A → Type 0
  After x y = is_after id_of created_of x y ≡ true

  abbrev pub Chain : List A → Type 0
  Chain [] = Unit
  Chain (x ∷ xs) = All (After x) xs × Chain xs

  later_trans : (x y z : A) → After x y → After y z → After x z
  later_trans x y z h k = ground arith

  later_asym : (x y : A) → After x y → is_after id_of created_of y x ≡ false
  later_asym x y h = ground arith

  later_irrefl : (x : A) → is_after id_of created_of x x ≡ false
  later_irrefl x = ground arith

  later_or_equal : (x y : A) → id_of y ≢ id_of x → is_after id_of created_of y x ≡ false → After x y
  later_or_equal x y ne h = ground arith

  insert-All :
      (P : A → Type 0) (x : A) (ys : List A)
      → P x
      → All P ys
      → All P (insert_newest id_of created_of x ys)
  unfolding insert_newest
  insert-All P x [] h k = (h, tt)
  insert-All P x (y ∷ ys) h k = ground (arith, insert-All P x ys h k.1)

  pub newest-All :
      (P : A → Type 0) (xs : List A) → All P xs → All P (newest_first id_of created_of xs)
  unfolding newest_first
  newest-All P [] h = tt
  newest-All P (x ∷ xs) h =
      insert-All P x (newest_first id_of created_of xs) h.0 (newest-All P xs h.1)

  length-insert_newest :
      (x : A) (xs : List A) → length (insert_newest id_of created_of x xs) ≡ suc (length xs)
  unfolding insert_newest
  length-insert_newest x [] = refl
  length-insert_newest x (y ∷ ys) = ground (arith, length-insert_newest x ys)

  pub length-newest_first : (xs : List A) → length (newest_first id_of created_of xs) ≡ length xs
  unfolding newest_first
  length-newest_first [] = refl
  length-newest_first (x ∷ xs) =
      omega
        (arith, length-insert_newest x (newest_first id_of created_of xs), length-newest_first xs)

  insert-Chain :
      (x : A) (ys : List A)
      → Differs id_of (id_of x) ys
      → Chain ys
      → Chain (insert_newest id_of created_of x ys)
  unfolding insert_newest
  insert-Chain x [] d c = (tt, tt)
  insert-Chain x (y ∷ ys) d c = elim (Bool-cases (is_after id_of created_of y x)) [
    | inl h ↦ rw h (insert-All (After y) x ys h c.0, insert-Chain x ys d.1 c.1)
    | inr h ↦
        let k = later_or_equal x y d.0 h in
        rw h ((k, All-map (After y) (After x) ys (λ z l. later_trans x y z k l) c.0), c)
  ]

  pub newest-Chain : (xs : List A) → Distinct id_of xs → Chain (newest_first id_of created_of xs)
  unfolding newest_first
  newest-Chain [] d = tt
  newest-Chain (x ∷ xs) d =
      insert-Chain x (newest_first id_of created_of xs) (newest-All (λ y. id_of y ≢ id_of x) xs d.0)
        (newest-Chain xs d.1)

  insert_front :
      (x : A) (ys : List A) → All (After x) ys → insert_newest id_of created_of x ys ≡ x ∷ ys
  unfolding insert_newest
  insert_front x [] h = refl
  insert_front x (y ∷ ys) h = rw (later_asym x y h.0) refl

  select-insert :
      (p : A → Bool) (x : A) (ys : List A)
      → Differs id_of (id_of x) ys
      → Chain ys
      → select p (insert_newest id_of created_of x ys)
        ≡ (if p x then insert_newest id_of created_of x (select p ys) else select p ys)
  unfolding insert_newest
  select-insert p x [] d c = ground arith
  select-insert p x (y ∷ ys) d c = elim (Bool-cases (is_after id_of created_of y x)) [
    | inl h ↦ elim (Bool-cases (p y)) [
      | inl k ↦ rw (h, k, select-insert p x ys d.1 c.1) (ground (arith, h))
      | inr k ↦ rw (h, k, select-insert p x ys d.1 c.1) refl
    ]
    | inr h ↦
        let k = later_or_equal x y d.0 h in
        let later : All (After x) (y ∷ ys) =
          (k, All-map (After y) (After x) ys (λ z l. later_trans x y z k l) c.0) in
        rw (h, insert_front x (select p (y ∷ ys)) (All-select (After x) p (y ∷ ys) later)) refl
  ]

  -- The rows are chosen before they are sorted, or after it.
  pub select-newest :
      (p : A → Bool) (xs : List A)
      → Distinct id_of xs
      → newest_first id_of created_of (select p xs) ≡ select p (newest_first id_of created_of xs)
  unfolding newest_first
  select-newest p [] d = refl
  select-newest p (x ∷ xs) d =
      rw
        (
          select-insert p x (newest_first id_of created_of xs)
              (newest-All (λ y. id_of y ≢ id_of x) xs d.0) (newest-Chain xs d.1),
          ← select-newest p xs d.1,
        )
        (ground arith)

  select_every : (p : A → Bool) (xs : List A) → All (λ x. p x ≡ true) xs → select p xs ≡ xs
  select_every p [] h = refl
  select_every p (x ∷ xs) h = rw (h.0, select_every p xs h.1) refl

  -- The rows after one row of a chain are those that follow it.
  pub select_rest :
      (before : List A) (c : A) (rest : List A)
      → Chain (before ++ c ∷ rest)
      → select (is_after id_of created_of c) (before ++ c ∷ rest) ≡ rest
  select_rest [] c rest h =
      rw (later_irrefl c, select_every (is_after id_of created_of c) rest h.0) refl
  select_rest (b ∷ before) c rest h =
      let later : After b c = All-middle (After b) before c rest h.0 in
      rw (later_asym b c later, select_rest before c rest h.1) refl
