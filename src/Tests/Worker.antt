-- ===== src/Tests/Worker.antt =====
-- The worker of replies on the small database, with two jobs of one conversation.
use opod_service_backend.Prelude.{
  ℕ, ◌≡◌, ◌⊎◌, refl, none, some, List, [], ◌∷◌, arith, true, false, length, map, All, Distinct, ◌≤◌,
  any,
}
use opod_service_backend.Prelude.Text.{trim}
use opod_service_backend.Database.{Database, ok}
use opod_service_backend.Database.CreditRows.{
  ReservationRow, captured, is_reserved, credit_reservation,
}
use opod_service_backend.Database.MessageRows.{JobRow, queued, MessageRow, user}
use opod_service_backend.Credits.Reservations.{
  find_reservation, capture_with_client, capture_in_tx, capture_reserved,
}
use opod_service_backend.Credits.Reservations.Cases.{status_db}
use opod_service_backend.Credits.WellFormed.{WellFormed}
use opod_service_backend.Credits.WellFormed.Entries.{messages-WellFormed}
use opod_service_backend.Credits.Spending.{use_credits}
use opod_service_backend.Credits.Spending.Effect.{used_now}
use opod_service_backend.Credits.Allocation.{allocate_usage, allocation, allocate}
use opod_service_backend.Credits.Ledger.{insert_ledger}
use opod_service_backend.Messages.Append.{append_message}
use opod_service_backend.Messages.Worker.Live.{live_count}
use opod_service_backend.Tests.Spending.{evaluated}
use opod_service_backend.Messages.Claiming.{
  WorkerOptions, ClaimedJob, claim, is_ready, find_job, claimed_row, claimed_job, find_claimable,
}
use opod_service_backend.Messages.Worker.{
  completed_row, reply, complete, finalize_failure, handle_failure, reply_error, requeued_row,
  Surroundings, process, run_once, replied, is_running_job,
}
use opod_service_backend.Messages.Context.{scoped_history, history, to_chat, user_role}
use opod_service_backend.Messages.History.{
  Known, Unknown, Among, InReadingOrder, scoped_history_lem,
}
use opod_service_backend.Messages.Worker.Processed.{process_settles}
use opod_service_backend.Messages.Worker.Candidates.{find_claimable_lem}
use opod_service_backend.Messages.Worker.Retry.{retry_waits}
use opod_service_backend.Messages.Worker.Serial.{
  Serial, WorkerOperation, claims, completes, fails, perform_works-Serial, claim_alone,
  perform_works,
}
use opod_service_backend.Messages.Worker.Ended.{complete_is_final, complete_charges, finalize_frees}
use opod_service_backend.Tests.Data.{sample, open_reservation, sample-WellFormed}

abbrev options : WorkerOptions
options = record {
  concurrency = 4;
  max_attempts = 3;
  deadline_ms = 900;
  lease_ms = 360;
  retry_backoff_ms = 5;
}

abbrev first_job : JobRow
first_job = record {
  id = 10;
  conversation_id = 5;
  turn_id = 20;
  created_at = 1;
  status = queued;
  reservation_reference = some "r1";
  ready_at = 1;
  attempt_count = 0;
  lease_expires_at = none;
  started_at = none;
  deadline_at = none;
  completed_at = none;
  failed_at = none;
  failure_reason = none;
}

abbrev second_job : JobRow
second_job = record first_job { id = 11; turn_id = 21; ready_at = 2; reservation_reference = none }

abbrev waiting : Database
waiting = record sample { jobs = second_job ∷ first_job ∷ [] }

abbrev running_row : JobRow
running_row = claimed_row options 50 first_job first_job

abbrev at_work : ClaimedJob
at_work = claimed_job options 50 first_job

abbrev working : Database
working = record sample { jobs = second_job ∷ running_row ∷ [] }

chooses : map (λ (j : JobRow). j.id) (find_claimable options 50 waiting) ≡ 10 ∷ []
unfolding find_claimable
chooses = refl

takes_the_first : claim options 50 true 10 5 waiting ≡ ok (some at_work, working)
unfolding claim
takes_the_first = refl

leaves_the_second : claim options 51 true 11 5 working ≡ ok (none, working)
unfolding claim
leaves_the_second = refl

working-WellFormed : WellFormed working
working-WellFormed = messages-WellFormed working.jobs [] [] sample-WellFormed

waiting-Serial : Serial 40 waiting.jobs
waiting-Serial = record {
  distinct = (((λ e. omega arith), tt), (tt, tt));
  one_live = λ c. ground arith;
}

working-Serial : Serial 50 working.jobs
working-Serial = record {
  distinct = (((λ e. omega arith), tt), (tt, tt));
  one_live = λ c. ground arith;
}

-- Two claims, a claim by another instance after the lease, and then a failure and a late reply.
abbrev rounds : List (ℕ × WorkerOperation)
rounds =
    (10, claims true 10)
    ∷ (1, claims true 11)
    ∷ (400, claims true 10)
    ∷ (2, fails at_work (reply_error "timeout" true))
    ∷ (3, completes at_work "hello")
    ∷ []

perform_works-Serial_example :
    let (end, db') = perform_works options 40 rounds waiting in Serial end db'.jobs
perform_works-Serial_example = perform_works-Serial options 40 rounds waiting waiting-Serial

claim_alone_example :
    (at_work.id ≡ 10) × (is_ready 50 first_job ≡ true) × (live_count 50 5 working.jobs ≡ 1)
claim_alone_example =
    claim_alone options 50 true 10 first_job waiting at_work working
      (record { distinct = waiting-Serial.distinct; one_live = λ c. ground arith }) (omega arith)
      refl takes_the_first

find_claimable_lem_example :
    All (λ j. is_ready 50 j ≡ true) (find_claimable options 50 waiting)
    × Distinct (λ j. j.conversation_id) (find_claimable options 50 waiting)
    × (length (find_claimable options 50 waiting) ≤ 4)
find_claimable_lem_example = find_claimable_lem options 50 waiting

retry_waits_example :
    (db' : Database) × (handle_failure options 60 at_work (reply_error "timeout" true) working
      ≡ ok (tt, db'))
    × (find_job 10 db' ≡ some (requeued_row options 60 "timeout" running_row))
    × (claim options 64 true 10 5 db' ≡ ok (none, db'))
retry_waits_example =
    retry_waits options 60 64 true 5 at_work running_row (reply_error "timeout" true) working refl
      (omega arith) (omega arith) refl refl (omega arith)

abbrev done : Database
done =
    record (status_db 2 captured (
      used_now 100 1 2 "chat_reply" (some (credit_reservation 2)) (record sample {
        next_id = 4;
        jobs = second_job ∷ completed_row 100 running_row ∷ [];
        messages = reply 100 at_work "hello" 3 ∷ [];
      }))) { next_id = 5 }

replies : complete 100 at_work "hello" working ≡ ok (tt, done)
unfolding complete append_message capture_with_client capture_in_tx capture_reserved evaluated
    use_credits allocate_usage allocation allocate insert_ledger trim
replies = refl

complete_is_final_example :
    (complete 200 at_work "again" done ≡ ok (tt, done))
    × (finalize_failure 200 at_work "late" done ≡ ok (tt, done))
complete_is_final_example =
    complete_is_final 100 200 at_work "hello" "again" "late" working (tt, done) replies

complete_charges_example :
    ((r : ReservationRow) × (find_reservation (trim "r1") done ≡ some r) × (r.status ≡ captured))
    × (done.messages ≡ reply 100 at_work "hello" 3 ∷ [])
complete_charges_example =
    complete_charges 100 at_work "hello" "r1" working (tt, done) refl refl refl replies

finalize_frees_example :
    (db' : Database) × (finalize_failure 100 at_work "timeout" working ≡ ok (tt, db'))
    × (q : ReservationRow) × (find_reservation "r1" db' ≡ some q)
    × (is_reserved q.status ≡ false)
finalize_frees_example =
    finalize_frees 100 at_work "timeout" "r1" working open_reservation working-WellFormed refl refl
      refl refl

abbrev turn_message : MessageRow
turn_message = record {
  id = 20;
  conversation_id = 5;
  sender_type = user;
  body = "hi";
  reply_job_id = some 10;
  created_at = 1;
}

abbrev later_message : MessageRow
later_message = record turn_message {
  id = 21;
  reply_job_id = some 11;
  body = "and";
  created_at = 2;
}

abbrev talking : Database
talking = record working {
  jobs = record second_job { created_at = 2 } ∷ running_row ∷ [];
  messages = later_message ∷ turn_message ∷ [];
  conversations =
      record { id = 5; user_id = 1; character_id = 9; last_message_at = 2; last_read_at = none }
      ∷ [];
}

talking-WellFormed : WellFormed talking
talking-WellFormed =
    messages-WellFormed talking.jobs talking.messages talking.conversations sample-WellFormed

-- The next message of the user, which another job answers, is left out.
history_of_the_first :
    map to_chat (scoped_history at_work turn_message talking)
    ≡ record { role = user_role; content = "hi" } ∷ []
unfolding scoped_history
history_of_the_first = refl

scoped_history_lem_example :
    All (Known at_work turn_message) (scoped_history at_work turn_message talking)
    × All
        (λ r.
          Among r (scoped_history at_work turn_message talking) ⊎ Unknown at_work turn_message r)
        (history 5 talking)
    × InReadingOrder (scoped_history at_work turn_message talking)
scoped_history_lem_example = scoped_history_lem at_work turn_message talking

abbrev echo : Surroundings
echo = record { create_reply = λ context. replied "hello"; error_name = λ e. "Error" }

process_settles_example :
    let (result, db') = process echo options 60 70 at_work talking in
    (result ≡ ok tt) × (any (is_running_job 10) db'.jobs ≡ false)
process_settles_example =
    process_settles echo options at_work "r1" talking open_reservation talking-WellFormed refl refl
      refl refl 60 70

-- Of the two jobs of the conversation, one is claimed.
one_round : (run_once echo options 50 60 (λ c. true) (record talking { jobs = waiting.jobs })).0 ≡ 1
unfolding run_once claim find_claimable
one_round = refl
