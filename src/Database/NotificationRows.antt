-- ===== src/Database/NotificationRows.antt =====
-- The table of notifications, in core/database/schema.ts and notifications/notification-types.ts.
use opod_service_backend.Prelude.{ℕ, Option, String}

pub data NotificationType : Type 0 where
  credit_purchase_completed credit_refund_completed character_new_post character_new_story :
      NotificationType

pub data TargetType : Type 0 where
  purchase_target refund_target post_target story_target : TargetType

pub record NotificationRow : Type 0 where
  pub id : ℕ
  pub user_id : ℕ
  pub type : NotificationType
  pub title : String
  pub body : Option String
  pub target_type : Option TargetType
  pub target_id : Option ℕ
  pub read_at : Option ℕ
  pub created_at : ℕ
