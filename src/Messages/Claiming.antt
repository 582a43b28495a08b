-- ===== src/Messages/Claiming.antt =====
-- The worker of replies (messages/message-reply.worker.ts): choose jobs, and claim one.
use opod_service_backend.Prelude.{
  ℕ, suc, ◌+◌, ◌*◌, Bool, false, not, ◌&&◌, ◌||◌, Option, none, some, List, [], ◌∷◌, String, ◌==◌,
  ltb, leb, first, any, update, select, take, if◌then◌else◌, get_or,
}
use opod_service_backend.Prelude.Sorting.{sort_by}
use opod_service_backend.Database.{Database, Tx, return, reads, modify, ◌>>=◌, ◌>>◌}
use opod_service_backend.Database.MessageRows.{JobRow, running, is_queued, is_running}
use opod_service_backend.Credits.Grants.{is_past}

pub record WorkerOptions : Type 0 where
  pub concurrency : ℕ
  pub max_attempts : ℕ
  pub deadline_ms : ℕ
  pub lease_ms : ℕ
  pub retry_backoff_ms : ℕ

pub record ClaimedJob : Type 0 where
  pub id : ℕ
  pub conversation_id : ℕ
  pub turn_id : ℕ
  pub created_at : ℕ
  pub attempt_count : ℕ
  pub deadline_at : ℕ
  pub reservation_reference : Option String

-- Queued and due, or running with a lease that has ended.
abbrev pub is_ready : ℕ → JobRow → Bool
is_ready now j =
    (is_queued j.status && leb j.ready_at now)
    || (is_running j.status && is_past now j.lease_expires_at)

-- `orderBy(asc(readyAt), asc(id))`
abbrev pub job_key : JobRow → List ℕ
job_key j = j.ready_at ∷ j.id ∷ []

-- The first row of each conversation, in order; `seen` are the keys of the map so far.
unfoldable pub first_per_conversation : List ℕ → List JobRow → List JobRow
first_per_conversation seen [] = []
first_per_conversation seen (j ∷ js) =
    if any (λ c. c == j.conversation_id) seen
    then first_per_conversation seen js
    else j ∷ first_per_conversation (j.conversation_id ∷ seen) js

-- `findClaimable`
unfoldable pub find_claimable : WorkerOptions → ℕ → Database → List JobRow
unfolding sort_by first_per_conversation
find_claimable options now db = take options.concurrency (
    first_per_conversation []
      (take (options.concurrency * 4) (sort_by job_key (select (is_ready now) db.jobs))))

-- `status = 'running' AND lease_expires_at > now`
abbrev pub is_live : ℕ → JobRow → Bool
is_live now j = is_running j.status && elim j.lease_expires_at [ none ↦ false | some t ↦ ltb now t ]

-- The rows that `claim` counts: other live jobs of the conversation.
abbrev pub is_other_live : ℕ → ℕ → ℕ → JobRow → Bool
is_other_live now id conversation j =
    j.conversation_id == conversation && is_live now j && not (j.id == id)

-- The update of a claim: `job` is the row as it was read.
abbrev pub claimed_row : WorkerOptions → ℕ → JobRow → JobRow → JobRow
claimed_row options now job j = record j {
  status = running;
  attempt_count = suc j.attempt_count;
  lease_expires_at = some (now + options.lease_ms);
  started_at = some (get_or job.started_at now);
  deadline_at = some (get_or job.deadline_at (now + options.deadline_ms));
}

abbrev pub claimed_job : WorkerOptions → ℕ → JobRow → ClaimedJob
claimed_job options now job = record {
  id = job.id;
  conversation_id = job.conversation_id;
  turn_id = job.turn_id;
  created_at = job.created_at;
  attempt_count = suc job.attempt_count;
  deadline_at = get_or job.deadline_at (now + options.deadline_ms);
  reservation_reference = job.reservation_reference;
}

abbrev pub find_job : ℕ → Database → Option JobRow
find_job id db = first (λ (j : JobRow). j.id == id) db.jobs

abbrev pub set_job : ℕ → (JobRow → JobRow) → Tx (Unit {0})
set_job id f = modify λ d. record d { jobs = update (λ (j : JobRow). j.id == id) f d.jobs }

-- `claim`, with the outcome of `pg_try_advisory_xact_lock` as `locked`.
unfoldable pub claim : WorkerOptions → ℕ → Bool → ℕ → ℕ → Tx (Option ClaimedJob)
claim options now locked id conversation = do
  found ← reads (find_job id)
  others ← reads (λ db. any (is_other_live now id conversation) db.jobs)
  elim found [
    | none ↦ return none
    | some job ↦
        if locked && is_ready now job && not others
        then (do
          set_job id (claimed_row options now job)
          return (some (claimed_job options now job)))
        else return none
  ]
