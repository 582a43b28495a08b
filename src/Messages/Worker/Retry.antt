-- ===== src/Messages/Worker/Retry.antt =====
-- A retry waits.
use opod_service_backend.Prelude.{
  ℕ, ◌+◌, ◌<◌, ◌≡◌, refl, true, Bool, Bool-cases, inl, inr, none, some, List, [], ◌∷◌, arith, ◌==◌,
  first, update,
}
use opod_service_backend.Database.{Database, ok}
use opod_service_backend.Database.MessageRows.{JobRow, is_running}
use opod_service_backend.Messages.Claiming.{WorkerOptions, ClaimedJob, claim, find_job}
use opod_service_backend.Messages.Worker.{
  is_running_job, requeued_row, ReplyFailure, is_retryable, reason_of, handle_failure,
}

first_job-update :
    (id : ℕ) (f : JobRow → JobRow) (row : JobRow) (jobs : List JobRow)
    → ((j : JobRow) → (f j).id ≡ j.id)
    → is_running row.status ≡ true
    → first (λ (j : JobRow). j.id == id) jobs ≡ some row
    → first (λ (j : JobRow). j.id == id) (update (is_running_job id) f jobs) ≡ some (f row)
first_job-update id f row [] keeps running e = cc
first_job-update id f row (j ∷ jobs) keeps running e = elim (Bool-cases (j.id == id)) [
  | inl k ↦
      let same : j ≡ row = ground arith in
      let k' : (row.id == id) ≡ true = rw same at k in rw (same, running, k', keeps row, k') refl
  | inr k ↦ let ih = first_job-update id f row jobs keeps running (ground arith) in rw (k, k) ih
]

-- A running job whose reply failed in a way that may pass, with attempts and time left, is queued
-- again, and no claim takes it before the backoff is over.
pub retry_waits :
    (options : WorkerOptions) (now later : ℕ) (locked : Bool) (conversation : ℕ) (job : ClaimedJob)
    (row : JobRow) (failure : ReplyFailure) (db : Database)
    → is_retryable failure ≡ true
    → job.attempt_count < options.max_attempts
    → now < job.deadline_at
    → find_job job.id db ≡ some row
    → is_running row.status ≡ true
    → later < now + options.retry_backoff_ms
    → (db' : Database) × (handle_failure options now job failure db ≡ ok (tt, db'))
      × (find_job job.id db' ≡ some (requeued_row options now (reason_of failure) row))
      × (claim options later locked job.id conversation db' ≡ ok (none, db'))
unfolding handle_failure claim
retry_waits options now later locked conversation job row failure db retryable left time found
      running early =
    let db' : Database = record db {
      jobs = update (is_running_job job.id) (requeued_row options now (reason_of failure)) db.jobs;
    } in
    let found' : find_job job.id db' ≡ some (requeued_row options now (reason_of failure) row) =
      first_job-update job.id (requeued_row options now (reason_of failure)) row db.jobs (λ j. refl)
        running found in
    (db', ground arith, found', rw found' (ground arith))
