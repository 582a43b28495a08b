-- ===== src/Tests/Pages.antt =====
-- Pages and notifications on small lists.
use Prim.Native.Char.{code}
use opod_service_backend.Prelude.{
  ℕ, zero, suc, ◌+◌, ◌-◌, ◌≤◌, ◌≡◌, refl, sym, ◌==◌, ==→eq, Bool-cases, inl, inr, false, take,
  if◌then◌else◌, Option, none, some, true, List, [], ◌∷◌, length, String, arith,
}
use opod_service_backend.Database.{Database, ok, err, bad_request}
use opod_service_backend.Database.NotificationRows.{
  NotificationRow, character_new_post, post_target,
}
use opod_service_backend.Paging.{
  Json, text, object, other, Members, no_members, member, id_object, is_uuid, hex_digits,
  CursorCodec, decode_cursor, encode_cursor, newest_first,
}
use opod_service_backend.Paging.Lookup.{Faithful, decode-encode}
use opod_service_backend.Paging.Walk.{Written, follow, follow_lem}
use opod_service_backend.Paging.Batch.{batch_is_cut}
use opod_service_backend.Notifications.{
  notification_id, notification_time, list_notifications_page, mark_notification_read, ReadReceipt,
}
use opod_service_backend.Notifications.Unread.{read_cursor_refused}
use opod_service_backend.Notifications.Sync.{
  SyncResult, sync_follow_notifications, sync_follows, follows_of, candidates, insert_candidates,
}
use opod_service_backend.Notifications.Sync.Once.{sync_bounded, sync_again, nothing}
use opod_service_backend.Tests.Data.{empty_db}
use opod_service_backend.Tests.Shop.{value}

-- A codec that writes the numbers 2, 3 and 5 as identifiers, and another number as so many letters.
letters : ℕ → String
letters zero = String.[]
letters (suc n) = String.◌∷◌ "a" (letters n)

uuid_of : ℕ → String
unfolding letters
uuid_of n =
    if n == 2
    then "00000000-0000-0000-0000-000000000002"
    else if n == 3
    then "00000000-0000-0000-0000-000000000003"
    else if n == 5
    then "00000000-0000-0000-0000-000000000005"
    else letters n

last_digit : String → ℕ
last_digit String.[] = 0
last_digit (String.◌∷◌ c String.[]) = code c - 48
last_digit (String.◌∷◌ c (String.◌∷◌ d s)) = last_digit (String.◌∷◌ d s)

count : String → ℕ
count String.[] = 0
count (String.◌∷◌ c s) = suc (count s)

read : String → ℕ
unfolding last_digit count
read String.[] = 0
read (String.◌∷◌ c s) = if code c == 48 then last_digit s else suc (count s)

count-letters : (n : ℕ) → count (letters n) ≡ n
unfolding letters count
count-letters zero = refl
count-letters (suc n) = omega (arith, count-letters n)

read-letters : (n : ℕ) → read (letters n) ≡ n
unfolding letters read
read-letters zero = refl
read-letters (suc n) = omega (arith, count-letters n)

read-uuid_of : (n : ℕ) → read (uuid_of n) ≡ n
unfolding uuid_of read last_digit count
read-uuid_of n = elim (Bool-cases (n == 2)) [
  | inl two ↦ rw two (sym (==→eq n 2 two))
  | inr not_two ↦ elim (Bool-cases (n == 3)) [
    | inl three ↦ rw (not_two, three) (sym (==→eq n 3 three))
    | inr not_three ↦ elim (Bool-cases (n == 5)) [
      | inl five ↦ rw (not_two, not_three, five) (sym (==→eq n 5 five))
      | inr not_five ↦ rw (not_two, not_three, not_five) (read-letters n)
    ]
  ]
]

id_text : Json → String
id_text (text s) = s
id_text (object ms) = String.[]
id_text other = String.[]

first_text : Members → String
unfolding id_text
first_text no_members = String.[]
first_text (member name value rest) = id_text value

write_json : Json → String
unfolding first_text
write_json (object ms) = String.◌∷◌ "j" (first_text ms)
write_json (text s) = String.[]
write_json other = String.[]

read_json : String → Option Json
read_json String.[] = none
read_json (String.◌∷◌ c s) = some (id_object s)

abbrev codec : CursorCodec
codec = record {
  stringify = write_json;
  parse_json = read_json;
  to_base64url = λ s. s;
  from_base64url = λ s. s;
  uuid = uuid_of;
  read_uuid = read;
}

codec-Faithful : Faithful codec
unfolding write_json read_json first_text id_text
codec-Faithful = record {
  decoded = λ s. refl;
  parsed = λ s. refl;
  identified = read-uuid_of;
  written = λ s. refl;
}

decode-encode_example :
    decode_cursor codec (some (encode_cursor codec "00000000-0000-0000-0000-000000000003")) ≡ (
      if is_uuid "00000000-0000-0000-0000-000000000003"
      then ok (some "00000000-0000-0000-0000-000000000003")
      else err (bad_request "Invalid cursor"))
decode-encode_example = decode-encode codec codec-Faithful "00000000-0000-0000-0000-000000000003"

accepted_id : is_uuid "0A000000-0000-0000-0000-00000000000f" ≡ true
unfolding is_uuid hex_digits
accepted_id = refl

refused_id : is_uuid "0g000000-0000-0000-0000-00000000000f" ≡ false
unfolding is_uuid hex_digits
refused_id = refl

abbrev note : ℕ → ℕ → NotificationRow
note id time = record {
  id = id;
  user_id = 1;
  type = character_new_post;
  title = "t";
  body = none;
  target_type = some post_target;
  target_id = some 9;
  read_at = none;
  created_at = time;
}

abbrev notes : List NotificationRow
notes = note 2 10 ∷ note 5 30 ∷ note 3 20 ∷ []

below : ℕ → ℕ
below id = 7

notes-Written : Written codec notification_id (notification_time below) notes 2
unfolding is_uuid hex_digits uuid_of
notes-Written = (refl, (refl, (refl, tt)))

follow_lem_example :
    follow codec notification_id (notification_time below) notes 2 4 none
    ≡ some (newest_first notification_id (notification_time below) notes)
unfolding newest_first below
follow_lem_example =
    follow_lem codec notification_id (notification_time below) notes 2 codec-Faithful
      ((omega arith, (omega arith, tt)), ((omega arith, tt), (tt, tt))) notes-Written
      ((omega arith, (omega arith, tt)), ((omega arith, tt), (tt, tt))) (omega arith)

-- Three notifications of one sync.
abbrev batch : List NotificationRow
batch = note 2 10 ∷ note 5 10 ∷ note 3 10 ∷ []

batch-Written : Written codec notification_id (notification_time below) batch 2
unfolding is_uuid hex_digits uuid_of
batch-Written = (refl, (refl, (refl, tt)))

batch_is_cut_example :
    follow codec notification_id (notification_time below) batch 2 4 none
    ≡ some (take 2 (newest_first notification_id (notification_time below) batch))
unfolding below
batch_is_cut_example =
    batch_is_cut codec notification_id (notification_time below) batch 2 10007 2 codec-Faithful
      ((omega arith, (omega arith, tt)), ((omega arith, tt), (tt, tt))) batch-Written
      (refl, (refl, (refl, tt))) (omega arith) (omega arith) (omega arith)

abbrev noted : Database
noted = record empty_db { notifications = notes }

abbrev marked : Option ReadReceipt × Database
marked = value (mark_notification_read 50 1 3 noted) (none, noted)

marks : mark_notification_read 50 1 3 noted ≡ ok marked
unfolding mark_notification_read
marks = refl

read_cursor_refused_example :
    list_notifications_page codec below 1 true
      (record { cursor = some (encode_cursor codec (codec.uuid 3)); limit = 2 })
      marked.1
    ≡ err (bad_request "Invalid cursor")
read_cursor_refused_example =
    read_cursor_refused codec below 50 1 3 2 noted marked codec-Faithful marks

-- User 1 follows character 4, who has published post 9.
abbrev followed : Database
followed = record empty_db {
  follows = record { user_id = 1; character_id = 4; notified_up_to_at = 10 } ∷ [];
  characters = record { id = 4; display_name = "n"; is_active = true } ∷ [];
  posts = record { id = 9; character_id = 4; created_at = 20 } ∷ [];
}

abbrev synced : SyncResult × Database
synced = value (sync_follow_notifications 30 1 followed) (nothing, followed)

syncs : sync_follow_notifications 30 1 followed ≡ ok synced
unfolding sync_follow_notifications sync_follows follows_of candidates insert_candidates
    newest_first
syncs = refl

one_created : synced.0.created ≡ 1
unfolding sync_follow_notifications sync_follows follows_of candidates insert_candidates
    newest_first
one_created = refl

sync_bounded_example :
    (synced.0.created ≤ 50)
    × (length synced.1.notifications ≡ synced.0.created + length followed.notifications)
sync_bounded_example = sync_bounded 30 1 followed synced syncs

sync_again_example :
    (after : Database) × (sync_follow_notifications 40 1 synced.1 ≡ ok (nothing, after))
    × (after.notifications ≡ synced.1.notifications)
sync_again_example = sync_again 30 40 1 followed synced (omega arith, tt) tt syncs
