-- ===== src/Paging/Batch.antt =====
-- Rows that are written at once, by one statement: the pages of more rows than a page has.
use opod_service_backend.Prelude.{
  ℕ, suc, ◌%◌, ◌≤◌, ◌<◌, ◌≡◌, refl, ap, true, false, none, some, List, [], ◌∷◌, append-nil, take,
  drop, take-take, take-drop, take_all, Option, String, length, length-take, select, All, Distinct,
  ltb, arith,
}
use opod_service_backend.Database.{ok}
use opod_service_backend.Paging.{
  CursorCodec, encode_cursor, cursor_after, page_from_rows, is_behind, date_of, newest_first,
  list_page, decode_cursor,
}
use opod_service_backend.Paging.Order.{length-newest_first}
use opod_service_backend.Paging.Lookup.{Faithful, page_found}
use opod_service_backend.Paging.Walk.{
  Written, follow, sorted, page_of, same_test, regroup, cut_last, found_row, at_row,
}

module _ {A : Type 0} (codec : CursorCodec) (id_of created_of : A → ℕ) (rows : List A)
    (limit : ℕ) where
  -- No row of a time with microseconds is behind the milliseconds of that time.
  none_behind :
      (t id : ℕ) (xs : List A)
      → All (λ r. created_of r ≡ t) xs
      → date_of t < t
      → select (is_behind id_of created_of (date_of t) id) xs ≡ []
  none_behind t id [] h k = refl
  none_behind t id (x ∷ xs) h k =
      let out : is_behind id_of created_of (date_of t) id x ≡ false =
        (let e = h.0 in ground arith) in
      rw out (none_behind t id xs h.1 k)

  -- A page without rows is the last one.
  last_page :
      (n : ℕ) (cursor : Option String)
      → list_page codec id_of created_of rows (record { cursor = cursor; limit = limit })
        ≡ ok (page_of codec id_of created_of rows limit [])
      → follow codec id_of created_of rows limit (suc n) cursor ≡ some []
  unfolding follow page_from_rows
  last_page n cursor page =
      let nil : List A = [] in
      let few : ltb limit (length nil) ≡ false = ground arith in
      rw
        (
          follow,
          page,
          same_test codec id_of created_of rows limit nil,
          few,
          take-take limit nil,
          take_all limit nil (omega arith),
        )
        refl

  -- Of rows that were written at one time, which is not a whole millisecond, more of them than a page has, a client
  -- that follows the cursors sees the first page and no more: the next page is empty, and has no
  -- cursor. The rows have distinct identifiers, which are written as `isUuid` wants them, and what
  -- the codec writes it reads back.
  pub batch_is_cut :
      (t n : ℕ)
      → Faithful codec
      → Distinct id_of rows
      → Written codec id_of created_of rows limit
      → All (λ r. created_of r ≡ t) rows
      → 0 < t % 1000
      → 1 ≤ limit
      → limit < length rows
      → follow codec id_of created_of rows limit (suc (suc n)) none
        ≡ some (take limit (newest_first id_of created_of rows))
  unfolding follow list_page decode_cursor page_from_rows newest_first
  batch_is_cut t n faithful distinct written same whole positive many =
      let fine : date_of t < t = omega arith in
      let all = sorted codec id_of created_of rows limit in
      let more : limit < length all = omega (arith, length-newest_first id_of created_of rows) in
      let shown = take limit all in
      let (ahead, c, cut, last) =
        cut_last codec id_of created_of rows limit shown (ground (arith, length-take limit all)) in
      let e =
        regroup codec id_of created_of rows limit [] ahead c shown (drop limit all) all refl cut
          (take-drop limit all) in
      let at_c : created_of c ≡ t =
        at_row codec id_of created_of rows limit (λ r. created_of r ≡ t) ahead c (drop limit all) e
          same in
      let next =
        page_found codec id_of created_of rows limit faithful c
          (at_row codec id_of created_of rows limit _ ahead c (drop limit all) e written)
          (found_row codec id_of created_of rows limit ahead c (drop limit all) distinct e) in
      let nothing : select (is_behind id_of created_of (date_of (created_of c)) (id_of c)) rows
          ≡ [] =
        none_behind (created_of c) (id_of c) rows (rw at_c same) (rw at_c fine) in
      let rest =
        last_page n (some (encode_cursor codec (codec.uuid (id_of c)))) (rw nothing at next) in
      let far : ltb limit (length all) ≡ true = ground arith in
      rw
        (
          follow,
          same_test codec id_of created_of rows limit all,
          far,
          take-take limit all,
          cursor_after,
          last,
          rest,
        )
        (ap some (append-nil (take limit all)))
