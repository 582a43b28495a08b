-- ===== src/Paging/Cursors.antt =====
-- The cursors of pages: `encodeCursor` and `decodeCursor` of shared/utils/page.ts, and `isUuid` of
-- shared/utils/uuid.ts. JSON and base64url are the platform's, whose functions are parameters.
use Prim.Native.Char.{Char, code}
use opod_service_backend.Prelude.{
  ℕ, zero, suc, Bool, true, false, ◌&&◌, ◌||◌, Option, none, some, String, ◌==◌, leb, if◌then◌else◌,
}
use opod_service_backend.Prelude.Text.{non_empty, str_eq}
use opod_service_backend.Database.{Result, ok, err, bad_request}

-- `[0-9a-f]`, whatever the case
abbrev pub is_hex : Char → Bool
is_hex c =
    let n = code c in (leb 48 n && leb n 57) || (leb 97 n && leb n 102) || (leb 65 n && leb n 70)

-- So many of these, and then a rest.
unfoldable pub hex_digits : ℕ → (String → Bool) → String → Bool
hex_digits zero rest s = rest s
hex_digits (suc n) rest String.[] = false
hex_digits (suc n) rest (String.◌∷◌ c s) = is_hex c && hex_digits n rest s

abbrev pub dash : (String → Bool) → String → Bool
dash rest String.[] = false
dash rest (String.◌∷◌ c s) = code c == 45 && rest s

abbrev pub is_end : String → Bool
is_end String.[] = true
is_end (String.◌∷◌ c s) = false

-- `uuidPattern`
unfoldable pub is_uuid : String → Bool
unfolding hex_digits
is_uuid =
    hex_digits 8 (
      dash (hex_digits 4 (dash (hex_digits 4 (dash (hex_digits 4 (dash (hex_digits 12 is_end))))))))

-- What `JSON.parse` gives: texts, objects, and the rest, which has no member `id`.
mutual
  pub data Json : Type 0 where
    text : String → Json
    object : Members → Json
    other : Json

  pub data Members : Type 0 where
    no_members : Members
    member : String → Json → Members → Members

-- `uuid` writes an identifier, and `read_uuid` is the database's reading of such a text.
pub record CursorCodec : Type 0 where
  pub stringify : Json → String
  pub parse_json : String → Option Json
  pub to_base64url : String → String
  pub from_base64url : String → String
  pub uuid : ℕ → String
  pub read_uuid : String → ℕ

-- `{ id }`
abbrev pub id_object : String → Json
id_object id = object (member "id" (text id) no_members)

unfoldable pub id_member : Members → Option Json
id_member no_members = none
id_member (member name value rest) = if str_eq name "id" then some value else id_member rest

abbrev pub uuid_text : Json → Option String
uuid_text (text s) = if is_uuid s then some s else none
uuid_text (object ms) = none
uuid_text other = none

abbrev pub uuid_member : Option Json → Option String
uuid_member none = none
uuid_member (some value) = uuid_text value

-- `parsed.id`, if it is a text and an identifier's one.
unfoldable pub id_of_json : Json → Option String
unfolding id_member
id_of_json (object ms) = uuid_member (id_member ms)
id_of_json (text s) = none
id_of_json other = none

abbrev pub parse_cursor : CursorCodec → String → Option String
parse_cursor codec s = elim (codec.parse_json (codec.from_base64url s)) [
  | none ↦ none
  | some value ↦ id_of_json value
]

-- `decodeCursor`
unfoldable pub decode_cursor : CursorCodec → Option String → Result (Option String)
decode_cursor codec none = ok none
decode_cursor codec (some s) =
    if non_empty s
    then elim (parse_cursor codec s) [
      | none ↦ err (bad_request "Invalid cursor")
      | some id ↦ ok (some id)
    ]
    else ok none

-- `encodeCursor`
unfoldable pub encode_cursor : CursorCodec → String → String
encode_cursor codec id = codec.to_base64url (codec.stringify (id_object id))
