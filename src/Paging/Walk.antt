-- ===== src/Paging/Walk.antt =====
-- A client that follows the cursors from page to page.
use opod_service_backend.Prelude.{
  ℕ, zero, suc, ◌≤◌, ◌<◌, ◌≡◌, refl, sym, ◌∙◌, ap, true, Bool-cases, inl, inr, Option, none, some,
  List, [], ◌∷◌, ◌++◌, append_assoc, take, drop, take-take, take-drop, take_all, length,
  length-take, length-drop, first, select, All, All-map, All-middle, Distinct, first-Distinct,
  String, ◌==◌, ==→eq, ltb, arith,
}
use opod_service_backend.Database.{ok, err}
use opod_service_backend.Paging.{
  Page, CursorCodec, decode_cursor, encode_cursor, is_uuid, last_of, cursor_after, page_from_rows,
  is_behind, is_after, milliseconds, date_of, newest_first, list_page,
}
use opod_service_backend.Paging.Lookup.{Faithful, page_found}
use opod_service_backend.Paging.Order.{
  Chain, newest-All, newest-Chain, select-newest, select-congr, select_rest,
}

module _ {A : Type 0} (codec : CursorCodec) (id_of created_of : A → ℕ) (rows : List A)
    (limit : ℕ) where
  -- The rows of at most so many pages, from a cursor on; none if a cursor is refused.
  abbrev pub add_rest : List A → Option (List A) → Option (List A)
  add_rest items none = none
  add_rest items (some rest) = some (items ++ rest)

  abbrev pub go_on : Page A → (Option String → Option (List A)) → Option (List A)
  go_on page f = elim page.next_cursor [
    | none ↦ some page.items
    | some c ↦ add_rest page.items (f (some c))
  ]

  unfoldable pub follow : ℕ → Option String → Option (List A)
  follow zero cursor = none
  follow (suc n) cursor =
      elim (list_page codec id_of created_of rows (record { cursor = cursor; limit = limit })) [
        | err e ↦ none
        | ok page ↦ go_on page (follow n)
      ]

  abbrev pub sorted : List A
  sorted = newest_first id_of created_of rows

  -- The page of which these are the rows that are left.
  abbrev pub page_of : List A → Page A
  page_of left = page_from_rows codec id_of created_of (take (suc limit) left) limit

  pub same_test :
      (left : List A) → ltb limit (length (take (suc limit) left)) ≡ ltb limit (length left)
  same_test left = ground (arith, length-take (suc limit) left)

  last_cut :
      (x : A) (xs : List A)
      → (before : List A) × (c : A) × (x ∷ xs ≡ before ++ c ∷ [])
        × (last_of codec id_of created_of (x ∷ xs) ≡ some c)
  last_cut x [] = ([], x, refl, refl)
  last_cut x (y ∷ xs) =
      let (before, c, e, l) = last_cut y xs in (x ∷ before, c, ap (λ ys. x ∷ ys) e, rw l refl)

  pub regroup :
      (before ahead : List A) (c : A) (shown rest left : List A)
      → sorted ≡ before ++ left
      → shown ≡ ahead ++ c ∷ []
      → shown ++ rest ≡ left
      → sorted ≡ (before ++ ahead) ++ c ∷ rest
  regroup before ahead c shown rest left e cut split =
      e
      ∙ ap (λ l. before ++ l)
          (sym split ∙ ap (λ t. t ++ rest) cut ∙ append_assoc ahead (c ∷ []) rest)
      ∙ sym (append_assoc before ahead (c ∷ rest))

  pub cut_last :
      (xs : List A)
      → 1 ≤ length xs
      → (before : List A) × (c : A) × (xs ≡ before ++ c ∷ [])
        × (last_of codec id_of created_of xs ≡ some c)
  cut_last [] h = ground arith
  cut_last (x ∷ xs) h = last_cut x xs

  -- Every row is written as an identifier's text.
  abbrev pub Written : Type 0
  Written = All (λ r. is_uuid (codec.uuid (id_of r)) ≡ true) rows

  sorted-All : (P : A → Type 0) → All P rows → All P sorted
  sorted-All P = newest-All id_of created_of P rows

  -- What holds of the rows holds of one that stands among them when they are sorted.
  pub at_row :
      (P : A → Type 0) (before : List A) (c : A) (left : List A)
      → sorted ≡ before ++ c ∷ left
      → All P rows
      → P c
  at_row P before c left e h = let k = sorted-All P h in All-middle P before c left (rw e at k)

  pub found_row :
      (before : List A) (c : A) (left : List A)
      → Distinct id_of rows
      → sorted ≡ before ++ c ∷ left
      → first (λ y. id_of y == id_of c) rows ≡ some c
  found_row before c left distinct e =
      at_row (λ x. first (λ y. id_of y == id_of x) rows ≡ some x) before c left e
        (first-Distinct id_of rows distinct)

  module _ (faithful : Faithful codec) (distinct : Distinct id_of rows) (written : Written)
      (apart : Distinct (λ r. milliseconds (created_of r)) rows) (positive : 1 ≤ limit) where
    behind_same :
        (c x : A)
        → first (λ y. milliseconds (created_of y) == milliseconds (created_of c)) rows ≡ some c
        → first (λ y. milliseconds (created_of y) == milliseconds (created_of x)) rows ≡ some x
        → is_behind id_of created_of (date_of (created_of c)) (id_of c) x
          ≡ is_after id_of created_of c x
    behind_same c x found own =
        elim (Bool-cases (milliseconds (created_of x) == milliseconds (created_of c))) [
          | inl k ↦
              let same : milliseconds (created_of x) ≡ milliseconds (created_of c) = ==→eq _ _ k in
              let e : some c ≡ some x = sym found ∙ rw (sym same) own in
              let c_x : c ≡ x = cc in rw c_x (ground arith)
          | inr k ↦ ground arith
        ]

    -- Behind the milliseconds of a row are the rows after it, since no other row shares them.
    behind_row :
        (c : A)
        → first (λ y. milliseconds (created_of y) == milliseconds (created_of c)) rows ≡ some c
        → select (is_behind id_of created_of (date_of (created_of c)) (id_of c)) rows
          ≡ select (is_after id_of created_of c) rows
    behind_row c found = select-congr _ _ rows (
        All-map
          (λ x.
            first (λ y. milliseconds (created_of y) == milliseconds (created_of x)) rows ≡ some x)
          (λ x.
            is_behind id_of created_of (date_of (created_of c)) (id_of c) x
            ≡ is_after id_of created_of c x)
          rows (λ x own. behind_same c x found own)
          (first-Distinct (λ r. milliseconds (created_of r)) rows apart))

    -- The page after a row.
    page_at :
        (before : List A) (c : A) (left : List A)
        → sorted ≡ before ++ c ∷ left
        → list_page codec id_of created_of rows
            (record { cursor = some (encode_cursor codec (codec.uuid (id_of c))); limit = limit })
          ≡ ok (page_of left)
    page_at before c left e =
        let chain : Chain id_of created_of (before ++ c ∷ left) =
          (let k = newest-Chain id_of created_of rows distinct in rw e at k) in
        rw
          (
            page_found codec id_of created_of rows limit faithful c
                (at_row _ before c left e written) (found_row before c left distinct e),
            behind_row c (
                at_row _ before c left e
                  (first-Distinct (λ r. milliseconds (created_of r)) rows apart)),
            select-newest id_of created_of (is_after id_of created_of c) rows distinct,
            e,
            select_rest id_of created_of before c left chain,
          )
          refl

    resumes :
        (n : ℕ) (cursor : Option String) (before left : List A)
        → sorted ≡ before ++ left
        → list_page codec id_of created_of rows (record { cursor = cursor; limit = limit })
          ≡ ok (page_of left)
        → length left < n
        → follow n cursor ≡ some left
    unfolding follow page_from_rows
    resumes zero cursor before left e page h = ground arith
    resumes (suc n) cursor before left e page h = elim (Bool-cases (ltb limit (length left))) [
      | inr few ↦
          rw
            (
              follow,
              page,
              same_test left,
              few,
              take-take limit left,
              take_all limit left (ground arith),
            )
            refl
      | inl many ↦
          let shown = take limit left in
          let rest = drop limit left in
          let (ahead, c, cut, last) = cut_last shown (ground (arith, length-take limit left)) in
          let e' = regroup before ahead c shown rest left e cut (take-drop limit left) in
          let later =
            resumes n (some (encode_cursor codec (codec.uuid (id_of c))))
              ((before ++ ahead) ++ c ∷ []) rest
              (e' ∙ sym (append_assoc (before ++ ahead) (c ∷ []) rest))
              (page_at (before ++ ahead) c rest e') (ground (arith, length-drop limit left)) in
          rw (follow, page, same_test left, many, take-take limit left, cursor_after, last, later)
            (ap some (take-drop limit left))
    ]

    -- A client that follows the cursors, with any number of rows on a page, comes to an end after at
    -- most a page more than there are rows, is refused no cursor, and has seen every row exactly once,
    -- newest first. The rows have distinct identifiers, which are written as `isUuid` wants them, no
    -- two rows are of the same millisecond, and what the codec writes it reads back.
    pub follow_lem : follow (suc (length sorted)) none ≡ some sorted
    unfolding list_page decode_cursor
    follow_lem = resumes (suc (length sorted)) none [] sorted refl refl (omega arith)
