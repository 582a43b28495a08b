-- ===== src/Paging.antt =====
-- Pages of rows, newest first (shared/utils/page.ts), and the query that the services put before
-- them. A row's time is a number of microseconds, as its column keeps it; a `Date` that is read from
-- the column has its milliseconds alone.
mod Cursors
pub mod Order
pub mod Lookup
pub mod Batch
pub mod Walk
use opod_service_backend.Prelude.{
  ℕ, suc, ◌+◌, ◌*◌, ◌/◌, Bool, true, false, not, ◌&&◌, ◌||◌, min, Option, none, some, List, [], ◌∷◌,
  take, length, select, first, String, ◌==◌, ltb, if◌then◌else◌, Number, integer, positive_integer,
}
use opod_service_backend.Prelude.Int.{pos}
use opod_service_backend.Prelude.Text.{trim, non_empty}
unfoldable pub use Cursors.*
use opod_service_backend.Database.{Result, ok, err, bad_request}

pub record PageInput : Type 0 where
  pub cursor : Option String
  pub limit : ℕ

pub record Page (A : Type 0) : Type 0 where
  pub items : List A
  pub next_cursor : Option String

-- `Number`, for a text that is there
abbrev pub limit_value : (String → Number) → Option String → Number
limit_value to_number none = integer (pos 20)
limit_value to_number (some s) = to_number s

-- `cursor?.trim() ? { cursor: cursor.trim() } : {}`
abbrev pub trimmed_cursor : Option String → Option String
trimmed_cursor none = none
trimmed_cursor (some s) = if non_empty (trim s) then some (trim s) else none

-- `parsePageQuery`
pub parse_page_query : (String → Number) → Option String → Option String → Result PageInput
parse_page_query to_number cursor limit = elim (positive_integer (limit_value to_number limit)) [
  | none ↦ err (bad_request "limit must be a positive integer")
  | some n ↦ ok (record { cursor = trimmed_cursor cursor; limit = min n 50 })
]

module _ {A : Type 0} (id_of created_of : A → ℕ) where
  -- The condition of the query on the rows behind a time and an identifier.
  abbrev pub is_behind : ℕ → ℕ → A → Bool
  is_behind at id r = ltb (created_of r) at || (created_of r == at && ltb (id_of r) id)

  -- One row stands after another in the order of the query.
  abbrev pub is_after : A → A → Bool
  is_after c r = is_behind (created_of c) (id_of c) r

  -- `orderBy(desc(createdAt), desc(id))`
  unfoldable pub insert_newest : A → List A → List A
  insert_newest x [] = x ∷ []
  insert_newest x (y ∷ ys) = if is_after y x then y ∷ insert_newest x ys else x ∷ y ∷ ys

  unfoldable pub newest_first : List A → List A
  unfolding insert_newest
  newest_first [] = []
  newest_first (x ∷ xs) = insert_newest x (newest_first xs)

-- The milliseconds of a time, which are what a `Date` has of it.
abbrev pub milliseconds : ℕ → ℕ
milliseconds t = t / 1000

abbrev pub date_of : ℕ → ℕ
date_of t = milliseconds t * 1000

-- The time of a row whose milliseconds are known, with the microseconds below them.
abbrev pub microseconds : ℕ → ℕ → ℕ
microseconds t below = t * 1000 + min below 999

module _ {A : Type 0} (codec : CursorCodec) (id_of created_of : A → ℕ) where
  abbrev pub last_of : List A → Option A
  last_of [] = none
  last_of (x ∷ xs) = elim (last_of xs) [ none ↦ some x | some y ↦ some y ]

  abbrev pub cursor_after : List A → Option String
  cursor_after items = elim (last_of items) [
    | none ↦ none
    | some x ↦ some (encode_cursor codec (codec.uuid (id_of x)))
  ]

  -- `pageFromRows`
  unfoldable pub page_from_rows : List A → ℕ → Page A
  page_from_rows rows limit = record {
    items = take limit rows;
    next_cursor = if ltb limit (length rows) then cursor_after (take limit rows) else none;
  }

  abbrev pub query : List A → ℕ → List A
  query rows limit = take (suc limit) (newest_first id_of created_of rows)

  abbrev pub page_after : List A → ℕ → Option String → Result (Page A)
  page_after rows limit none = ok (page_from_rows (query rows limit) limit)
  page_after rows limit (some id) = elim (first (λ r. id_of r == codec.read_uuid id) rows) [
    | none ↦ err (bad_request "Invalid cursor")
    | some c ↦ ok (
        page_from_rows
          (query (select (is_behind id_of created_of (date_of (created_of c)) (id_of c)) rows)
            limit)
          limit)
  ]

  -- A page of the rows of a user, whose row of the cursor is searched among them. What is decoded is
  -- an identifier's text, so a second `isUuid` passes.
  unfoldable pub list_page : List A → PageInput → Result (Page A)
  list_page rows input = elim (decode_cursor codec input.cursor) [
    | err e ↦ err e
    | ok id ↦ page_after rows input.limit id
  ]
