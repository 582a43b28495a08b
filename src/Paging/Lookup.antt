-- ===== src/Paging/Lookup.antt =====
-- A cursor that is written and read again, and the page that it leads to.
use opod_service_backend.Prelude.{
  ℕ, ◌≡◌, refl, sym, subst, Bool-cases, inl, inr, none, some, List, String, ◌==◌, first, select,
  if◌then◌else◌, true,
}
use opod_service_backend.Prelude.Text.{non_empty}
use opod_service_backend.Database.{ok, err, bad_request}
use opod_service_backend.Paging.{
  CursorCodec, decode_cursor, encode_cursor, is_uuid, id_object, id_of_json, id_member,
  page_from_rows, is_behind, date_of, query, page_after, list_page,
}

-- What the platform promises of a codec: what is written is read back, and is not empty.
pub record Faithful (codec : CursorCodec) : Type 0 where
  pub decoded : (s : String) → codec.from_base64url (codec.to_base64url s) ≡ s
  pub parsed : (s : String) → codec.parse_json (codec.stringify (id_object s)) ≡ some (id_object s)
  pub identified : (n : ℕ) → codec.read_uuid (codec.uuid n) ≡ n
  pub written : (s : String) → non_empty (codec.to_base64url (codec.stringify (id_object s))) ≡ true

-- A cursor that is written for a text is read as this text if it is an identifier's, eight, four,
-- four, four and twelve hexadecimal digits, and is refused otherwise.
pub decode-encode :
    (codec : CursorCodec)
    → Faithful codec
    → (id : String)
    → decode_cursor codec (some (encode_cursor codec id))
      ≡ (if is_uuid id then ok (some id) else err (bad_request "Invalid cursor"))
unfolding decode_cursor encode_cursor id_of_json id_member
decode-encode codec f id = elim (Bool-cases (is_uuid id)) [
  | inl k ↦ rw (f.written id, f.decoded (codec.stringify (id_object id)), f.parsed id, k) refl
  | inr k ↦ rw (f.written id, f.decoded (codec.stringify (id_object id)), f.parsed id, k) refl
]

module _ {A : Type 0} (codec : CursorCodec) (id_of created_of : A → ℕ) (rows : List A)
    (limit : ℕ) where
  -- A cursor whose row is not there is refused.
  pub page_missing :
      Faithful codec
      → (id : ℕ) → first (λ r. id_of r == id) rows ≡ none
      → list_page codec id_of created_of rows
          (record { cursor = some (encode_cursor codec (codec.uuid id)); limit = limit })
        ≡ err (bad_request "Invalid cursor")
  unfolding list_page
  page_missing faithful id missing = elim (Bool-cases (is_uuid (codec.uuid id))) [
    | inl k ↦
        rw
          (
            list_page,
            decode-encode codec faithful (codec.uuid id),
            k,
            page_after,
            subst (λ n. first (λ r. id_of r == n) rows ≡ none) (sym (faithful.identified id))
                missing,
          )
          refl
    | inr k ↦ rw (list_page, decode-encode codec faithful (codec.uuid id), k) refl
  ]

  -- The page behind a row that is found.
  pub page_found :
      Faithful codec
      → (c : A) → is_uuid (codec.uuid (id_of c)) ≡ true
      → first (λ r. id_of r == id_of c) rows ≡ some c
      → list_page codec id_of created_of rows
          (record { cursor = some (encode_cursor codec (codec.uuid (id_of c))); limit = limit })
        ≡ ok (
            page_from_rows codec id_of created_of
              (query codec id_of created_of
                (select (is_behind id_of created_of (date_of (created_of c)) (id_of c)) rows)
                limit)
              limit)
  unfolding list_page
  page_found faithful c writes found =
      rw
        (
          list_page,
          decode-encode codec faithful (codec.uuid (id_of c)),
          writes,
          page_after,
          subst (λ n. first (λ r. id_of r == n) rows ≡ some c) (sym (faithful.identified (id_of c)))
              found,
        )
        refl
