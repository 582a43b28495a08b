-- ===== src/Notifications/Unread.antt =====
-- A page of the unread notifications, after its cursor's own one has been read.
use opod_service_backend.Prelude.{
  ℕ, ◌≡◌, refl, true, Option, none, some, List, [], ◌∷◌, ◌==◌, select, first, update, arith,
}
use opod_service_backend.Database.{Database, ok, err, bad_request}
use opod_service_backend.Database.NotificationRows.{NotificationRow}
use opod_service_backend.Paging.{CursorCodec, encode_cursor}
use opod_service_backend.Paging.Lookup.{Faithful, page_missing}
use opod_service_backend.Notifications.{
  is_listed, is_own, read_row, ReadReceipt, list_notifications_page, mark_notification_read,
  notification_id, notification_time,
}

-- No unread notification of the user has the identifier that was marked as read.
marked_missing :
    (now user id : ℕ) (rows : List NotificationRow)
    → first
        (λ n. notification_id n == id)
        (select (is_listed user true) (update (is_own user id) (read_row now) rows))
      ≡ none
marked_missing now user id [] = refl
marked_missing now user id (n ∷ rows) = ground (arith, marked_missing now user id rows)

-- The next page of the unread notifications is refused as soon as the notification that the cursor
-- names, the last one on the page before, has been marked as read: whoever reads a page to its end
-- does not get the next one.
pub read_cursor_refused :
    (codec : CursorCodec) (below : ℕ → ℕ) (now user id limit : ℕ) (db : Database)
    (p : Option ReadReceipt × Database)
    → Faithful codec
    → mark_notification_read now user id db ≡ ok p
    → list_notifications_page codec below user true
        (record { cursor = some (encode_cursor codec (codec.uuid id)); limit = limit })
        p.1
      ≡ err (bad_request "Invalid cursor")
unfolding mark_notification_read list_notifications_page
read_cursor_refused codec below now user id limit db p faithful e =
    let rows = select (is_listed user true) p.1.notifications in
    let same : p.1.notifications ≡ update (is_own user id) (read_row now) db.notifications =
      ground arith in
    page_missing codec notification_id (notification_time below) rows limit faithful id
      (rw same (marked_missing now user id db.notifications))
