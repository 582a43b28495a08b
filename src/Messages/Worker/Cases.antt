-- ===== src/Messages/Worker/Cases.antt =====
-- How the operations of the worker end, and what they leave of the jobs.
use opod_service_backend.Prelude.{
  ℕ, ◌≡◌, refl, true, false, Bool, Bool-cases, none, some, Option, Option-cases, ◌⊎◌, inl, inr,
  arith, String, ◌&&◌, any, update, ◌==◌, not, ap, ◌||◌, leb, if◌then◌else◌,
}
use opod_service_backend.Database.{Database, ok, Result-cases}
use opod_service_backend.Database.CreditRows.{LedgerRow, ReservationRow}
use opod_service_backend.Database.MessageRows.{JobRow, is_running}
use opod_service_backend.Credits.Reservations.{
  Capture, capture_in_tx, capture_with_client, release_in_tx,
}
use opod_service_backend.Credits.Reservations.Cases.{
  Captured, already, expires, uses, capture_in_tx-eq-ok, release_in_tx-eq-ok,
}
use opod_service_backend.Credits.Spending.Effect.{use_credits-eq-ok}
use opod_service_backend.Database.CreditRows.{credit_reservation}
use opod_service_backend.Prelude.Text.{trim, non_empty}
use opod_service_backend.Messages.Append.{append_message}
use opod_service_backend.Messages.Claiming.{
  WorkerOptions, ClaimedJob, claim, claimed_row, claimed_job, find_job, is_ready, is_other_live,
}
use opod_service_backend.Messages.Worker.{
  is_running_job, completed_row, failed_row, complete, finalize_failure, requeued_row,
  handle_failure, is_retryable, reason_of, ReplyFailure, with_reference, capture_for, release_for,
}

Captured-kept :
    (now : ℕ) (db : Database) (r : ReservationRow) (p : Capture × Database)
    → Captured now db r p
    → (p.1.jobs ≡ db.jobs) × (p.1.messages ≡ db.messages)
Captured-kept now db r p (already s same) = rw same (refl, refl)
Captured-kept now db r p (expires s past same) = rw same (refl, refl)
Captured-kept now db r p (uses entry used s open' ue same) =
    let k =
      use_credits-eq-ok now r.user_id r.amount r.action_type (some (credit_reservation r.id)) db
        ue in
    rw (same, ap (λ (t : LedgerRow × Database). t.1) k.1) (refl, refl)

-- A capture in the caller's transaction is one that is not too late.
pub capture_with_client-eq-ok :
    (now : ℕ) (reference : String) (db : Database) {p : ReservationRow × Database}
    → capture_with_client now reference db ≡ ok p
    → (non_empty (trim reference) ≡ true)
      × (capture_in_tx now (trim reference) db
          ≡ ok (record { expired = false; reservation = p.0 }, p.1))
unfolding capture_with_client
capture_with_client-eq-ok now reference db e =
    elim (Result-cases (capture_in_tx now (trim reference) db)) [
      | inl ((c, db'), k) ↦ ground arith
      | inr (f, k) ↦ ground arith
    ]

pub capture_for-eq-ok :
    (now : ℕ) (reference : String) (db : Database) {p : Unit {0} × Database}
    → capture_for now reference db ≡ ok p
    → (r : ReservationRow) × (capture_in_tx now (trim reference) db
        ≡ ok (record { expired = false; reservation = r }, p.1))
capture_for-eq-ok now s db {p} e = elim (Result-cases (capture_with_client now s db)) [
  | inr (f, h) ↦ ground arith
  | inl ((r, db'), h) ↦
      let same : p.1 ≡ db' = ground arith in (r, rw same (capture_with_client-eq-ok now s db h).1)
]

-- A capture leaves the jobs and the messages.
pub capture_for-kept :
    (now : ℕ) (reference : String) (db : Database) {p : Unit {0} × Database}
    → capture_for now reference db ≡ ok p
    → (p.1.jobs ≡ db.jobs) × (p.1.messages ≡ db.messages)
capture_for-kept now s db {p} e =
    let (r, c) = capture_for-eq-ok now s db e in
    let (q, found, how) = capture_in_tx-eq-ok now (trim s) db c in Captured-kept now db q _ how

with_capture-jobs :
    (now : ℕ) (o : Option String) (db : Database) {p : Unit {0} × Database}
    → with_reference o (capture_for now) db ≡ ok p
    → p.1.jobs ≡ db.jobs
with_capture-jobs now none db e = ground arith
with_capture-jobs now (some s) db {p} e = elim (Bool-cases (non_empty s)) [
  | inr k ↦ ground arith
  | inl k ↦ let e' = rw k at e in (capture_for-kept now s db e').0
]

with_release-jobs :
    (o : Option String) (db : Database) {p : Unit {0} × Database}
    → with_reference o release_for db ≡ ok p
    → p.1.jobs ≡ db.jobs
with_release-jobs none db e = ground arith
with_release-jobs (some s) db {p} e = elim (Bool-cases (non_empty s)) [
  | inr k ↦ ground arith
  | inl k ↦ elim (Result-cases (release_in_tx s db)) [
    | inr (f, h) ↦ ground arith
    | inl ((r, db'), h) ↦
        let (q, found, how) = release_in_tx-eq-ok s db h in
        let same : p.1 ≡ db' = ground arith in
        rw same (elim how [
          | inl (_, kept) ↦ ap (λ (t : ReservationRow × Database). t.1.jobs) kept
          | inr (_, inl kept) ↦ ap (λ (t : Database). t.jobs) kept
          | inr (_, inr kept) ↦ ap (λ (t : Database). t.jobs) kept
        ])
  ]
]

module _ (now : ℕ) (job : ClaimedJob) (db : Database) {p : Unit {0} × Database} where
  pub complete-jobs :
      (body : String)
      → complete now job body db ≡ ok p
      → p.1.jobs ≡ update (is_running_job job.id) (completed_row now) db.jobs
  unfolding complete append_message
  complete-jobs body e = elim (Bool-cases (any (is_running_job job.id) db.jobs)) [
    | inl k ↦ let e' = rw k at e in with_capture-jobs now job.reservation_reference _ e'
    | inr k ↦ ground arith
  ]

  pub finalize_failure-jobs :
      (reason : String)
      → finalize_failure now job reason db ≡ ok p
      → p.1.jobs ≡ update (is_running_job job.id) (failed_row now reason) db.jobs
  unfolding finalize_failure
  finalize_failure-jobs reason e = elim (Bool-cases (any (is_running_job job.id) db.jobs)) [
    | inl k ↦ let e' = rw k at e in with_release-jobs job.reservation_reference _ e'
    | inr k ↦ ground arith
  ]

  pub handle_failure-jobs :
      (options : WorkerOptions) (failure : ReplyFailure)
      → handle_failure options now job failure db ≡ ok p
      → (f : JobRow → JobRow) × ((j : JobRow) → is_running (f j).status ≡ false)
        × ((j : JobRow) → (f j).id ≡ j.id)
        × (p.1.jobs ≡ update (is_running_job job.id) f db.jobs)
  unfolding handle_failure
  handle_failure-jobs options failure e =
      elim (Bool-cases (
        not (is_retryable failure)
        || leb options.max_attempts job.attempt_count
        || leb job.deadline_at now)) [
          | inl k ↦ (
            failed_row now _,
            (λ j. refl),
            (λ j. refl),
            finalize_failure-jobs
                (if leb job.deadline_at now
                    && is_retryable failure
                    && not (leb options.max_attempts job.attempt_count)
                  then "deadline_exceeded"
                  else reason_of failure)
                (rw k at e),
          )
          | inr k ↦ (
            requeued_row options now (reason_of failure),
            (λ j. refl),
            (λ j. refl),
            (let e' = rw k at e in ground arith),
          )
        ]

-- A claim finds a job that is ready, in a conversation with no other live job; else it changes
-- nothing.
pub claim-eq-ok :
    (options : WorkerOptions) (now : ℕ) (locked : Bool) (id conversation : ℕ) (db : Database)
    {p : Option ClaimedJob × Database}
    → claim options now locked id conversation db ≡ ok p
    → (p ≡ (none, db))
      ⊎ ((job : JobRow) × (find_job id db ≡ some job)
          × (locked && is_ready now job && not (any (is_other_live now id conversation) db.jobs)
              ≡ true)
          × (p ≡ (
            some (claimed_job options now job),
            record db { jobs = update (λ j. j.id == id) (claimed_row options now job) db.jobs },
          )))
unfolding claim
claim-eq-ok options now locked id conversation db {p} e = elim (Option-cases (find_job id db)) [
  | inl k ↦ inl (ground arith)
  | inr (job, k) ↦
      elim (Bool-cases
        (locked && is_ready now job && not (any (is_other_live now id conversation) db.jobs))) [
          | inl h ↦ inr (job, k, h, (let e' = rw (k, h) at e in ground arith))
          | inr h ↦ inl (let e' = rw (k, h) at e in ground arith)
        ]
]
