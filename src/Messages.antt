-- ===== src/Messages.antt =====
-- Chat messages (messages/messages.service.ts), and the worker that has replies written
-- (messages/message-reply.worker.ts).
pub mod Append
pub mod Claiming
pub mod Context
pub mod History
pub mod Worker
