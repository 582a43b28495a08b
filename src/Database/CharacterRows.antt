-- ===== src/Database/CharacterRows.antt =====
-- The characters, what they publish and who follows them (core/database/schema.ts): the columns that
-- the notifications read and write.
use opod_service_backend.Prelude.{ℕ, Bool, String}

-- `status` is as to whether it is `active`.
pub record CharacterRow : Type 0 where
  pub id : ℕ
  pub display_name : String
  pub is_active : Bool

pub record FollowRow : Type 0 where
  pub user_id : ℕ
  pub character_id : ℕ
  pub notified_up_to_at : ℕ

pub record PostRow : Type 0 where
  pub id : ℕ
  pub character_id : ℕ
  pub created_at : ℕ

pub record StoryRow : Type 0 where
  pub id : ℕ
  pub character_id : ℕ
  pub created_at : ℕ
  pub expires_at : ℕ
