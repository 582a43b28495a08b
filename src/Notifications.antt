-- ===== src/Notifications.antt =====
-- The notifications of a user (notifications/notifications.service.ts): `listNotificationsPage` and
-- `markNotificationRead`. `createNotificationWithClient` is Purchases.Rows.create_notification.
pub mod Unread
pub mod Sync
use opod_service_backend.Prelude.{
  ℕ, Bool, true, false, not, ◌&&◌, ◌||◌, Option, none, some, List, ◌==◌, select, first, update, any,
  if◌then◌else◌, is_some,
}
use opod_service_backend.Database.{Database, Tx, Result, return, reads, modify, ◌>>=◌, ◌>>◌}
use opod_service_backend.Database.NotificationRows.{NotificationRow}
use opod_service_backend.Paging.{Page, PageInput, CursorCodec, microseconds, list_page}

abbrev pub notification_id : NotificationRow → ℕ
notification_id n = n.id

-- `below` has the microseconds below the milliseconds that a row's time is kept in, by its identifier.
abbrev pub notification_time : (ℕ → ℕ) → NotificationRow → ℕ
notification_time below n = microseconds n.created_at (below n.id)

-- `baseWhere`
abbrev pub is_listed : ℕ → Bool → NotificationRow → Bool
is_listed user unread_only n = n.user_id == user && (not unread_only || not (is_some n.read_at))

-- `listNotificationsPage`, without `toNotification`, which writes the times as texts.
unfoldable pub list_notifications_page :
    CursorCodec → (ℕ → ℕ) → ℕ → Bool → PageInput → Database → Result (Page NotificationRow)
list_notifications_page codec below user unread_only input db =
    list_page codec notification_id (notification_time below)
      (select (is_listed user unread_only) db.notifications) input

abbrev pub is_own : ℕ → ℕ → NotificationRow → Bool
is_own user id n = n.id == id && n.user_id == user

abbrev pub read_row : ℕ → NotificationRow → NotificationRow
read_row now n = record n { read_at = some now }

pub record ReadReceipt : Type 0 where
  pub id : ℕ
  pub read_at : ℕ

-- `markNotificationRead`, for an identifier that is one
unfoldable pub mark_notification_read : ℕ → ℕ → ℕ → Tx (Option ReadReceipt)
mark_notification_read now user id = do
  found ← reads (λ db. any (is_own user id) db.notifications)
  modify (λ d. record d { notifications = update (is_own user id) (read_row now) d.notifications })
  return (if found then some (record { id = id; read_at = now }) else none)
