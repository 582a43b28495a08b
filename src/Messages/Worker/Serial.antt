-- ===== src/Messages/Worker/Serial.antt =====
-- The replies of a conversation are written one at a time: over claims, completions and failures,
-- at whatever times, a conversation never has two live jobs.
use opod_service_backend.Prelude.{
  ℕ, ◌+◌, ◌≤◌, ◌<◌, ◌≡◌, refl, true, false, Bool, Bool-cases, none, some, Option, inl, inr, List,
  [], ◌∷◌, arith, String, ◌==◌, any, update, first, Distinct, update-Distinct, subst, sym, ap, ◌∙◌,
}
use opod_service_backend.Database.{Database, Tx, ok, transaction, Result-cases}
use opod_service_backend.Database.MessageRows.{JobRow, is_running}
use opod_service_backend.Messages.Claiming.{
  WorkerOptions, ClaimedJob, claim, claimed_row, claimed_job, find_job, is_ready, is_other_live,
}
use opod_service_backend.Messages.Worker.{
  completed_row, failed_row, complete, finalize_failure, ReplyFailure, handle_failure,
}
use opod_service_backend.Messages.Worker.Live.{
  live_in, live_count, live_count-later, live_count-update-ended, live_count-update-le,
  live_count-update-other, live_count-update-ge,
}
use opod_service_backend.Messages.Worker.Cases.{
  claim-eq-ok, complete-jobs, finalize_failure-jobs, handle_failure-jobs,
}

-- Jobs that are told apart by their identifiers, at most one of each conversation live.
pub record Serial (now : ℕ) (jobs : List JobRow) : Type 0 where
  pub distinct : Distinct (λ j. j.id) jobs
  pub one_live : (c : ℕ) → live_count now c jobs ≤ 1

-- A transaction of a worker, of any instance of the service. The conversation of a claim is the
-- one of its job's row, as the worker reads it; no operation changes it.
pub data WorkerOperation : Type 0 where
  claims : (locked : Bool) (id : ℕ) → WorkerOperation
  completes : ClaimedJob → (body : String) → WorkerOperation
  times_out : ClaimedJob → (reason : String) → WorkerOperation
  fails : ClaimedJob → ReplyFailure → WorkerOperation

abbrev pub claim_row : WorkerOptions → ℕ → Bool → ℕ → Option JobRow → Database → Database
claim_row options now locked id none db = db
claim_row options now locked id (some j) db =
    (transaction (claim options now locked id j.conversation_id) db).1

abbrev pub perform_work : WorkerOptions → ℕ → WorkerOperation → Database → Database
perform_work options now (claims locked id) db = claim_row options now locked id (find_job id db) db
perform_work options now (completes job body) db = (transaction (complete now job body) db).1
perform_work options now (times_out job reason) db =
    (transaction (finalize_failure now job reason) db).1
perform_work options now (fails job failure) db =
    (transaction (handle_failure options now job failure) db).1

-- Operations, each a number of milliseconds after the one before, and the time at the end.
abbrev pub perform_works : WorkerOptions → ℕ → List (ℕ × WorkerOperation) → Database → ℕ × Database
perform_works options now [] db = (now, db)
perform_works options now ((wait, op) ∷ ops) db =
    perform_works options (now + wait) ops (perform_work options (now + wait) op db)

later-Serial : (now wait : ℕ) {jobs : List JobRow} → Serial now jobs → Serial (now + wait) jobs
later-Serial now wait {jobs} v = record {
  distinct = v.distinct;
  one_live =
      λ c. omega (arith, v.one_live c, live_count-later now c (now + wait) jobs (omega arith));
}

-- An update that ends jobs.
ended-Serial :
    (now : ℕ) (p : JobRow → Bool) (f : JobRow → JobRow) {jobs : List JobRow}
    → ((j : JobRow) → is_running (f j).status ≡ false)
    → ((j : JobRow) → (f j).id ≡ j.id)
    → Serial now jobs
    → Serial now (update p f jobs)
ended-Serial now p f {jobs} ended keeps v = record {
  distinct = update-Distinct (λ j. j.id) p f jobs keeps v.distinct;
  one_live = λ c.
      omega (arith, v.one_live c, live_count-update-ended now c p f jobs (λ j. rw (ended j) refl));
}

claimed-Serial :
    (options : WorkerOptions) (now id : ℕ) (job : JobRow) {jobs : List JobRow}
    → first (λ (j : JobRow). j.id == id) jobs ≡ some job
    → any (is_other_live now id job.conversation_id) jobs ≡ false
    → Serial now jobs
    → Serial now (update (λ j. j.id == id) (claimed_row options now job) jobs)
claimed-Serial options now id job {jobs} found alone v = record {
  distinct =
      update-Distinct (λ j. j.id) (λ j. j.id == id) (claimed_row options now job) jobs (λ j. refl)
        v.distinct;
  one_live = λ c. elim (Bool-cases (c == job.conversation_id)) [
    | inl same ↦
        let same' : c ≡ job.conversation_id = ground arith in
        rw same' (
          live_count-update-le now job.conversation_id id (claimed_row options now job) jobs
            v.distinct alone)
    | inr other ↦ omega (
      arith,
      v.one_live c,
      live_count-update-other now job.conversation_id id (claimed_row options now job) c job jobs
          (ground arith) (λ j. refl) refl v.distinct found,
    )
  ];
}

committed-Serial :
    {A : Type 0} (m : Tx A) (now : ℕ) (db : Database)
    → ((p : A × Database) → m db ≡ ok p → Serial now p.1.jobs)
    → Serial now db.jobs
    → Serial now (transaction m db).1.jobs
committed-Serial m now db keeps v = elim (Result-cases (m db)) [
  | inl (p, e) ↦ rw (transaction, e) (keeps p e)
  | inr (f, e) ↦ rw (transaction, e) v
]

claim_row-Serial :
    (options : WorkerOptions) (now : ℕ) (locked : Bool) (id : ℕ) (o : Option JobRow) (db : Database)
    → find_job id db ≡ o
    → Serial now db.jobs
    → Serial now (claim_row options now locked id o db).jobs
claim_row-Serial options now locked id none db found v = v
claim_row-Serial options now locked id (some j) db found v =
    committed-Serial (claim options now locked id j.conversation_id) now db
      (λ p e. elim (claim-eq-ok options now locked id j.conversation_id db e) [
        | inl same ↦ rw same v
        | inr (job, found', ready, same) ↦
            let is_job : j ≡ job = cc in
            let alone : any (is_other_live now id job.conversation_id) db.jobs ≡ false =
              subst (λ (t : JobRow). any (is_other_live now id t.conversation_id) db.jobs ≡ false)
                is_job (ground arith) in
            rw same (claimed-Serial options now id job found' alone v)
      ])
      v

perform_work-Serial :
    (options : WorkerOptions) (now : ℕ) (op : WorkerOperation) (db : Database)
    → Serial now db.jobs
    → Serial now (perform_work options now op db).jobs
perform_work-Serial options now (claims locked id) db v =
    claim_row-Serial options now locked id (find_job id db) db refl v
perform_work-Serial options now (completes job body) db v =
    committed-Serial (complete now job body) now db
      (λ p e.
        subst (Serial now) (sym (complete-jobs now job db body e))
          (ended-Serial now _ (completed_row now) (λ j. refl) (λ j. refl) v))
      v
perform_work-Serial options now (times_out job reason) db v =
    committed-Serial (finalize_failure now job reason) now db
      (λ p e.
        subst (Serial now) (sym (finalize_failure-jobs now job db reason e))
          (ended-Serial now _ (failed_row now reason) (λ j. refl) (λ j. refl) v))
      v
perform_work-Serial options now (fails job failure) db v =
    committed-Serial (handle_failure options now job failure) now db
      (λ p e.
        let (f, ended, keeps, same) = handle_failure-jobs now job db options failure e in
        subst (Serial now) (sym same) (ended-Serial now _ f ended keeps v))
      v

-- Whatever claims, completions and failures the workers of all instances run, in whatever order and
-- with whatever waits between them: if jobs have distinct identifiers and no conversation has two
-- live jobs at the start, both hold at the end.
pub perform_works-Serial :
    (options : WorkerOptions) (now : ℕ) (ops : List (ℕ × WorkerOperation)) (db : Database)
    → Serial now db.jobs
    → let (end, db') = perform_works options now ops db in Serial end db'.jobs
perform_works-Serial options now [] db v = v
perform_works-Serial options now ((wait, op) ∷ ops) db v =
    perform_works-Serial options (now + wait) ops (perform_work options (now + wait) op db)
      (perform_work-Serial options (now + wait) op db (later-Serial now wait v))

-- Where no conversation has two live jobs, a claim that takes a job, with a lease that is not
-- empty, makes it the one live job of its conversation.
pub claim_alone :
    (options : WorkerOptions) (now : ℕ) (locked : Bool) (id : ℕ) (job : JobRow) (db : Database)
    (claimed : ClaimedJob) (db' : Database)
    → Serial now db.jobs
    → 0 < options.lease_ms
    → find_job id db ≡ some job
    → claim options now locked id job.conversation_id db ≡ ok (some claimed, db')
    → (claimed.id ≡ job.id)
      × (is_ready now job ≡ true)
      × (live_count now job.conversation_id db'.jobs ≡ 1)
claim_alone options now locked id job db claimed db' v lease found e =
    elim (claim-eq-ok options now locked id job.conversation_id db e) [
      | inl none_taken ↦ cc
      | inr (row, found', ready, same) ↦
          let is_job : row ≡ job = cc in
          let ready' : is_ready now row ≡ true = ground arith in
          let jobs : db'.jobs
              ≡ update (λ (j : JobRow). j.id == id) (claimed_row options now row) db.jobs =
            ap (λ (t : Option ClaimedJob × Database). t.1.jobs) same in
          let live : live_in now job.conversation_id (claimed_row options now job job) ≡ 1 =
            ground arith in
          let same_id : claimed ≡ claimed_job options now row = cc in
          (
            ap (λ (t : ClaimedJob). t.id) same_id ∙ ap (λ (t : JobRow). t.id) is_job,
            subst (λ t. is_ready now t ≡ true) is_job ready',
            rw (jobs, is_job)
                (omega (
                  arith,
                  live_count-update-le now job.conversation_id id (claimed_row options now job)
                      db.jobs v.distinct (ground arith),
                  live_count-update-ge now job.conversation_id id (claimed_row options now job) job
                      db.jobs found live,
                )),
          )
    ]
