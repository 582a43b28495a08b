-- ===== src/Messages/Worker/Processed.antt =====
-- What the processing of a job comes to.
use opod_service_backend.Prelude.{
  ℕ, ◌≡◌, refl, true, false, not, Bool-cases, inl, inr, some, String, any, update, leb, ◌||◌, ◌&&◌,
  if◌then◌else◌,
}
use opod_service_backend.Prelude.Text.{non_empty}
use opod_service_backend.Database.{Database, Tx, Result, ok, transaction, Result-cases}
use opod_service_backend.Database.CreditRows.{ReservationRow}
use opod_service_backend.Credits.Reservations.{find_reservation}
use opod_service_backend.Credits.WellFormed.{WellFormed}
use opod_service_backend.Messages.Claiming.{WorkerOptions, ClaimedJob}
use opod_service_backend.Messages.Context.{reply_context}
use opod_service_backend.Messages.Worker.{
  Surroundings, process, finish, complete, finalize_failure, handle_failure, is_running_job,
  replied, failed_with, ReplyOutcome, ReplyFailure, error, reason_of, is_retryable, completed_row,
  failed_row, requeued_row,
}
use opod_service_backend.Messages.Worker.Cases.{
  complete-jobs, finalize_failure-jobs, handle_failure-jobs,
}
use opod_service_backend.Messages.Worker.Ended.{finalize_frees, ended-any}

-- The end of a transaction that commits, after which the job is not running.
abbrev pub Settled : ClaimedJob → Result (Unit {0}) × Database → Type 0
Settled job r = (r.0 ≡ ok tt) × (any (is_running_job job.id) r.1.jobs ≡ false)

committed-Settled :
    (m : Tx (Unit {0})) (job : ClaimedJob) (db db' : Database)
    → m db ≡ ok (tt, db')
    → any (is_running_job job.id) db'.jobs ≡ false
    → Settled job (transaction m db)
committed-Settled m job db db' e h = rw (transaction, e) (refl, h)

module _ (s : Surroundings) (options : WorkerOptions) (job : ClaimedJob) (reference : String)
    (db : Database) (r : ReservationRow) (v : WellFormed db)
    (running : any (is_running_job job.id) db.jobs ≡ true)
    (named : job.reservation_reference ≡ some reference) (given : non_empty reference ≡ true)
    (found : find_reservation reference db ≡ some r) where
  finalize-Settled :
      (now : ℕ) (reason : String) → Settled job (transaction (finalize_failure now job reason) db)
  finalize-Settled now reason =
      let (db', e, _, _, _) =
        finalize_frees now job reason reference db r v running named given found in
      committed-Settled (finalize_failure now job reason) job db db' e (
        rw (finalize_failure-jobs now job db reason e)
          (ended-any job.id (failed_row now reason) db.jobs (λ j. refl)))

  handled :
      (now : ℕ) (failure : ReplyFailure)
      → (db' : Database) × (handle_failure options now job failure db ≡ ok (tt, db'))
  unfolding handle_failure
  handled now failure =
      elim (Bool-cases (
        not (is_retryable failure)
        || leb options.max_attempts job.attempt_count
        || leb job.deadline_at now)) [
          | inl k ↦
              let (db', e, _, _, _) =
                finalize_frees now job
                  (if leb job.deadline_at now
                      && is_retryable failure
                      && not (leb options.max_attempts job.attempt_count)
                    then "deadline_exceeded"
                    else reason_of failure)
                  reference db r v running named given found in
              (db', rw k e)
          | inr k ↦ (
            record db {
              jobs =
                  update (is_running_job job.id) (requeued_row options now (reason_of failure))
                    db.jobs;
            },
            rw k refl,
          )
        ]

  handle-Settled :
      (now : ℕ) (failure : ReplyFailure)
      → Settled job (transaction (handle_failure options now job failure) db)
  handle-Settled now failure =
      let (db', e) = handled now failure in
      let (f, ended, _, jobs) = handle_failure-jobs now job db options failure e in
      committed-Settled (handle_failure options now job failure) job db db' e
        (rw jobs (ended-any job.id f db.jobs ended))

  finish-Settled :
      (now : ℕ) (outcome : ReplyOutcome) → Settled job (finish s options now job outcome db)
  finish-Settled now (failed_with failure) = handle-Settled now failure
  finish-Settled now (replied body) = elim (Result-cases (complete now job body db)) [
    | inl ((_, db'), e) ↦
        rw (transaction, e)
          (
            refl,
            rw (complete-jobs now job db body e)
                (ended-any job.id (completed_row now) db.jobs (λ j. refl)),
          )
    | inr (f, e) ↦ rw (transaction, e) (handle-Settled now (error (s.error_name f)))
  ]

  -- On well-formed credit tables, the processing of a running job with a reservation in them,
  -- whatever the provider gives and whatever goes wrong with the reply, commits, and the job is not
  -- running after it.
  pub process_settles :
      (now later : ℕ)
      → let (result, db') = process s options now later job db in
        (result ≡ ok tt) × (any (is_running_job job.id) db'.jobs ≡ false)
  unfolding process
  process_settles now later = elim (Bool-cases (leb job.deadline_at now)) [
    | inl k ↦ rw k (finalize-Settled now "deadline_exceeded")
    | inr k ↦ elim (Result-cases (reply_context job db)) [
      | inl ((context, _), e) ↦ rw (k, e) (finish-Settled later (s.create_reply context))
      | inr (f, e) ↦ rw (k, e) (handle-Settled later (error (s.error_name f)))
    ]
  ]
