-- ===== src/Messages/Context.antt =====
-- `replyContext` of messages/message-reply.worker.ts: the history that a reply is written from. The
-- order of two identifiers by `localeCompare` is the one of their numbers.
use opod_service_backend.Prelude.{
  ℕ, Bool, ◌&&◌, ◌||◌, Option, none, some, List, [], ◌∷◌, map, String, ◌==◌, ltb, leb, first,
  select,
}
use opod_service_backend.Prelude.Sorting.{sort_by}
use opod_service_backend.Database.{Database, Tx, other_error, return, reads, or_throw, ◌>>=◌}
use opod_service_backend.Database.MessageRows.{
  JobRow, MessageRow, ConversationRow, SenderType, user, character,
}
use opod_service_backend.Messages.Claiming.{ClaimedJob, find_job}

-- The message that a reply answers, with its conversation.
pub record Turn : Type 0 where
  pub message : MessageRow
  pub conversation : ConversationRow

-- A message, and the job that it belongs to.
pub record HistoryRow : Type 0 where
  pub message : MessageRow
  pub reply_job : Option JobRow

pub data Role : Type 0 where
  user_role assistant : Role

pub record ChatMessage : Type 0 where
  pub role : Role
  pub content : String

pub record ReplyContext : Type 0 where
  pub user_id : ℕ
  pub character_id : ℕ
  pub conversation_id : ℕ
  pub turn_id : ℕ
  pub messages : List ChatMessage

abbrev pub join_conversation : MessageRow → Database → Option Turn
join_conversation m db =
    elim (first (λ (c : ConversationRow). c.id == m.conversation_id) db.conversations) [
      | none ↦ none
      | some c ↦ some (record { message = m; conversation = c })
    ]

abbrev pub find_turn : ℕ → Database → Option Turn
find_turn id db = elim (first (λ (m : MessageRow). m.id == id) db.messages) [
  | none ↦ none
  | some m ↦ join_conversation m db
]

-- `leftJoin`
abbrev pub join_job : Database → MessageRow → HistoryRow
join_job db m = record {
  message = m;
  reply_job = elim m.reply_job_id [ none ↦ none | some id ↦ find_job id db ];
}

abbrev pub history : ℕ → Database → List HistoryRow
history conversation db =
    map (join_job db) (select (λ (m : MessageRow). m.conversation_id == conversation) db.messages)

-- No later than another, by time and then by identifier.
abbrev pub no_later : ℕ → ℕ → ℕ → ℕ → Bool
no_later at id at' id' = ltb at at' || (at == at' && leb id id')

-- The filter of the history.
abbrev pub in_scope : ClaimedJob → MessageRow → HistoryRow → Bool
in_scope job turn r = elim r.reply_job [
  | none ↦ no_later r.message.created_at r.message.id turn.created_at turn.id
  | some j ↦ no_later j.created_at j.id job.created_at job.id
]

abbrev pub role_order : SenderType → ℕ
role_order user = 0
role_order character = 1

abbrev pub group_at : HistoryRow → ℕ
group_at r = elim r.reply_job [ none ↦ r.message.created_at | some j ↦ j.created_at ]

abbrev pub group_id : HistoryRow → ℕ
group_id r = elim r.reply_job [ none ↦ r.message.id | some j ↦ j.id ]

-- What the comparison of the sort looks at, in order.
abbrev pub history_key : HistoryRow → List ℕ
history_key r =
    group_at r
    ∷ group_id r
    ∷ role_order r.message.sender_type
    ∷ r.message.created_at
    ∷ r.message.id
    ∷ []

unfoldable pub scoped_history : ClaimedJob → MessageRow → Database → List HistoryRow
unfolding sort_by
scoped_history job turn db =
    sort_by history_key (select (in_scope job turn) (history job.conversation_id db))

abbrev pub role_of : SenderType → Role
role_of user = user_role
role_of character = assistant

abbrev pub to_chat : HistoryRow → ChatMessage
to_chat r = record { role = role_of r.message.sender_type; content = r.message.body }

unfoldable pub reply_context : ClaimedJob → Tx ReplyContext
unfolding scoped_history
reply_context job = do
  found ← reads (find_turn job.turn_id)
  turn ← or_throw found (other_error "Error")
  rows ← reads (scoped_history job turn.message)
  return (record {
    user_id = turn.conversation.user_id;
    character_id = turn.conversation.character_id;
    conversation_id = job.conversation_id;
    turn_id = job.turn_id;
    messages = map to_chat rows;
  })
