-- ===== src/Messages/Append.antt =====
-- `appendMessageWithClient` of messages/messages.service.ts: store a message, and note its time in
-- its conversation. (The column `experience` and the returned row, which the worker does not use,
-- are left out.)
use opod_service_backend.Prelude.{ℕ, Option, ◌∷◌, String, ◌==◌, update}
use opod_service_backend.Database.{Tx, modify, new_id, ◌>>=◌, ◌>>◌}
use opod_service_backend.Database.MessageRows.{MessageRow, SenderType, ConversationRow}

pub record MessageInput : Type 0 where
  pub conversation_id : ℕ
  pub sender_type : SenderType
  pub body : String
  pub reply_job_id : Option ℕ

abbrev pub new_message : ℕ → MessageInput → ℕ → MessageRow
new_message now input id = record {
  id = id;
  conversation_id = input.conversation_id;
  sender_type = input.sender_type;
  body = input.body;
  reply_job_id = input.reply_job_id;
  created_at = now;
}

unfoldable pub append_message : ℕ → MessageInput → Tx (Unit {0})
append_message now input = do
  id ← new_id
  modify (λ d. record d { messages = new_message now input id ∷ d.messages })
  modify (λ d. record d {
    conversations =
        update (λ (c : ConversationRow). c.id == input.conversation_id)
          (λ (c : ConversationRow). record c { last_message_at = now }) d.conversations;
  })
