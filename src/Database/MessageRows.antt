-- ===== src/Database/MessageRows.antt =====
-- The tables of chat messages and of the jobs that write replies, in core/database/schema.ts.
use opod_service_backend.Prelude.{ℕ, Bool, true, false, Option, String}

pub data JobStatus : Type 0 where
  queued running completed failed : JobStatus

abbrev pub is_queued : JobStatus → Bool
is_queued queued = true
is_queued _ = false

abbrev pub is_running : JobStatus → Bool
is_running running = true
is_running _ = false

pub record JobRow : Type 0 where
  pub id : ℕ
  pub conversation_id : ℕ
  pub turn_id : ℕ
  pub created_at : ℕ
  pub status : JobStatus
  pub reservation_reference : Option String
  pub ready_at : ℕ
  pub attempt_count : ℕ
  pub lease_expires_at : Option ℕ
  pub started_at : Option ℕ
  pub deadline_at : Option ℕ
  pub completed_at : Option ℕ
  pub failed_at : Option ℕ
  pub failure_reason : Option String

pub data SenderType : Type 0 where
  user character : SenderType

pub record MessageRow : Type 0 where
  pub id : ℕ
  pub conversation_id : ℕ
  pub sender_type : SenderType
  pub body : String
  pub reply_job_id : Option ℕ
  pub created_at : ℕ

pub record ConversationRow : Type 0 where
  pub id : ℕ
  pub user_id : ℕ
  pub character_id : ℕ
  pub last_message_at : ℕ
  pub last_read_at : Option ℕ
