-- ===== src/Messages/Worker.antt =====
-- The worker of replies (messages/message-reply.worker.ts): end a claimed job, and the whole of its
-- processing.
pub mod Candidates
pub mod Cases
pub mod Ended
pub mod Live
pub mod Processed
pub mod Retry
pub mod Serial
use opod_service_backend.Prelude.{
  ℕ, ◌+◌, Bool, true, false, not, ◌&&◌, ◌||◌, Option, none, some, List, [], ◌∷◌, length, String,
  ◌==◌, leb, any, update, if◌then◌else◌,
}
use opod_service_backend.Prelude.Text.{non_empty}
use opod_service_backend.Database.{
  Database, Tx, Result, ok, err, Error, return, reads, modify, transaction, ◌>>=◌, ◌>>◌,
}
use opod_service_backend.Database.MessageRows.{
  JobRow, queued, completed, failed, is_running, character, MessageRow,
}
use opod_service_backend.Credits.Reservations.{capture_with_client, release_in_tx}
use opod_service_backend.Messages.Append.{append_message, new_message, MessageInput}
use opod_service_backend.Messages.Claiming.{WorkerOptions, ClaimedJob, claim, find_claimable}
use opod_service_backend.Messages.Context.{ReplyContext, reply_context}

-- `where(and(eq(id), eq(status, "running")))`
abbrev pub is_running_job : ℕ → JobRow → Bool
is_running_job id j = j.id == id && is_running j.status

-- An update of the job if it is running, and whether it was.
abbrev pub close_running : ℕ → (JobRow → JobRow) → Tx Bool
close_running id f = do
  closed ← reads (λ db. any (is_running_job id) db.jobs)
  modify (λ d. record d { jobs = update (is_running_job id) f d.jobs })
  return closed

abbrev pub completed_row : ℕ → JobRow → JobRow
completed_row now j = record j {
  status = completed;
  completed_at = some now;
  lease_expires_at = none;
}

-- `if (job.reservationReference)`
abbrev pub with_reference : Option String → (String → Tx (Unit {0})) → Tx (Unit {0})
with_reference none f = return tt
with_reference (some s) f = if non_empty s then f s else return tt

abbrev pub capture_for : ℕ → String → Tx (Unit {0})
capture_for now reference = do capture_with_client now reference; return tt

abbrev pub release_for : String → Tx (Unit {0})
release_for reference = do release_in_tx reference; return tt

-- The message of a reply.
abbrev pub reply_input : ClaimedJob → String → MessageInput
reply_input job body = record {
  conversation_id = job.conversation_id;
  sender_type = character;
  body = body;
  reply_job_id = some job.id;
}

abbrev pub reply : ℕ → ClaimedJob → String → ℕ → MessageRow
reply now job body = new_message now (reply_input job body)

-- `complete`
unfoldable pub complete : ℕ → ClaimedJob → String → Tx (Unit {0})
complete now job body = do
  closed ← close_running job.id (completed_row now)
  elim closed [
    | true ↦ do
      append_message now (reply_input job body)
      with_reference job.reservation_reference (capture_for now)
    | false ↦ return tt
  ]

abbrev pub failed_row : ℕ → String → JobRow → JobRow
failed_row now reason j = record j {
  status = failed;
  failed_at = some now;
  failure_reason = some reason;
  lease_expires_at = none;
}

-- `finalizeFailure`, less the entry in the log.
unfoldable pub finalize_failure : ℕ → ClaimedJob → String → Tx (Unit {0})
finalize_failure now job reason = do
  closed ← close_running job.id (failed_row now reason)
  if closed then with_reference job.reservation_reference release_for else return tt

-- What is thrown while a reply is written: a `MessageReplyError`, another error by its name, or
-- something else.
pub data ReplyFailure : Type 0 where
  reply_error : (reason : String) (retryable : Bool) → ReplyFailure
  error : (name : String) → ReplyFailure
  unknown : ReplyFailure

abbrev pub is_retryable : ReplyFailure → Bool
is_retryable (reply_error reason retryable) = retryable
is_retryable _ = false

abbrev pub reason_of : ReplyFailure → String
reason_of (reply_error reason retryable) = reason
reason_of (error name) = name
reason_of unknown = "unknown"

abbrev pub requeued_row : WorkerOptions → ℕ → String → JobRow → JobRow
requeued_row options now reason j = record j {
  status = queued;
  ready_at = now + options.retry_backoff_ms;
  lease_expires_at = none;
  failure_reason = some reason;
}

abbrev pub requeue : WorkerOptions → ℕ → ClaimedJob → String → Tx (Unit {0})
requeue options now job reason = do
  close_running job.id (requeued_row options now reason)
  return tt

-- `handleFailure`
unfoldable pub handle_failure : WorkerOptions → ℕ → ClaimedJob → ReplyFailure → Tx (Unit {0})
handle_failure options now job failure =
    let exhausted = leb options.max_attempts job.attempt_count in
    let expired = leb job.deadline_at now in
    if not (is_retryable failure) || exhausted || expired
    then finalize_failure now job (
        if expired && is_retryable failure && not exhausted
        then "deadline_exceeded"
        else reason_of failure)
    else requeue options now job (reason_of failure)

-- What the provider's `createReply` gives, once it has the context.
pub data ReplyOutcome : Type 0 where
  replied : (body : String) → ReplyOutcome
  failed_with : ReplyFailure → ReplyOutcome

-- What `process` uses besides the database: `createReply`, and the class names of the framework's
-- and the database's errors.
pub record Surroundings : Type 0 where
  pub create_reply : ReplyContext → ReplyOutcome
  pub error_name : Error → String

-- `if (job) claimed.push(job)`; a claim throws nothing.
abbrev pub add_claimed : Result (Option ClaimedJob) → List ClaimedJob → List ClaimedJob
add_claimed (ok (some job)) jobs = job ∷ jobs
add_claimed _ jobs = jobs

module _ (s : Surroundings) (options : WorkerOptions) where
  -- An exception in `process`.
  abbrev pub fail_by : ℕ → ClaimedJob → Error → Database → Result (Unit {0}) × Database
  fail_by now job e = transaction (handle_failure options now job (error (s.error_name e)))

  -- `complete` in its transaction, and `handleFailure` after an exception.
  abbrev pub complete_or_fail :
      ℕ → ClaimedJob → Result (Unit {0}) × Database → Result (Unit {0}) × Database
  complete_or_fail now job (ok u, db) = (ok u, db)
  complete_or_fail now job (err e, db) = fail_by now job e db

  abbrev pub finish : ℕ → ClaimedJob → ReplyOutcome → Database → Result (Unit {0}) × Database
  finish now job (replied body) db =
      complete_or_fail now job (transaction (complete now job body) db)
  finish now job (failed_with failure) db = transaction (handle_failure options now job failure) db

  -- `process`: it starts at `now`, and the outcome is there at `later`.
  unfoldable pub process : ℕ → ℕ → ClaimedJob → Database → Result (Unit {0}) × Database
  process now later job db =
      if leb job.deadline_at now
      then transaction (finalize_failure now job "deadline_exceeded") db
      else elim (reply_context job db) [
        | err e ↦ fail_by later job e db
        | ok (context, _) ↦ finish later job (s.create_reply context) db
      ]

  -- The claims of `runOnce`, each in a transaction of its own. `locked` tells for each conversation
  -- whether its lock was free.
  unfoldable pub claim_all : ℕ → (ℕ → Bool) → List JobRow → Database → List ClaimedJob × Database
  claim_all now locked [] db = ([], db)
  claim_all now locked (j ∷ js) db =
      let claimed =
        transaction (claim options now (locked j.conversation_id) j.id j.conversation_id) db in
      let rest = claim_all now locked js claimed.1 in (add_claimed claimed.0 rest.0, rest.1)

  -- `Promise.allSettled`: the jobs are processed whatever comes of each, here one after another.
  unfoldable pub process_all : ℕ → ℕ → List ClaimedJob → Database → Database
  unfolding process
  process_all now later [] db = db
  process_all now later (job ∷ jobs) db = process_all now later jobs (process now later job db).1

  -- `runOnce`, with the number of jobs that it returns.
  unfoldable pub run_once : ℕ → ℕ → (ℕ → Bool) → Database → ℕ × Database
  unfolding claim_all process_all
  run_once now later locked db =
      let (claimed, db') = claim_all now locked (find_claimable options now db) db in
      (length claimed, process_all now later claimed db')
