-- ===== src/Messages/Worker/Ended.antt =====
-- The end of a job: it is completed or failed once, with what that costs or frees.
use opod_service_backend.Prelude.{
  ℕ, ◌≡◌, refl, true, false, Bool-cases, some, inl, inr, List, [], ◌∷◌, arith, String, any, update,
}
use opod_service_backend.Prelude.Text.{trim, non_empty}
use opod_service_backend.Database.{Database, ok}
use opod_service_backend.Database.CreditRows.{ReservationRow, captured, released, is_reserved}
use opod_service_backend.Database.MessageRows.{JobRow, is_running}
use opod_service_backend.Credits.Reservations.{find_reservation, release_in_tx, with_status}
use opod_service_backend.Credits.Reservations.Repeated.{
  captured_row, release_is_final, found_released,
}
use opod_service_backend.Credits.Reservations.Cases.{released_db}
use opod_service_backend.Credits.WellFormed.{WellFormed}
use opod_service_backend.Messages.Append.{append_message}
use opod_service_backend.Messages.Claiming.{ClaimedJob}
use opod_service_backend.Messages.Worker.{
  is_running_job, completed_row, failed_row, complete, finalize_failure, reply,
}
use opod_service_backend.Messages.Worker.Cases.{complete-jobs, capture_for-eq-ok, capture_for-kept}

pub ended-any :
    (id : ℕ) (f : JobRow → JobRow) (jobs : List JobRow)
    → ((j : JobRow) → is_running (f j).status ≡ false)
    → any (is_running_job id) (update (is_running_job id) f jobs) ≡ false
ended-any id f [] h = refl
ended-any id f (j ∷ jobs) h = ground (arith, h j, ended-any id f jobs h)

ended-update :
    (id : ℕ) (f g : JobRow → JobRow) (jobs : List JobRow)
    → ((j : JobRow) → is_running (f j).status ≡ false)
    → update (is_running_job id) g (update (is_running_job id) f jobs)
      ≡ update (is_running_job id) f jobs
ended-update id f g [] h = refl
ended-update id f g (j ∷ jobs) h = ground (arith, h j, ended-update id f g jobs h)

-- A completed job stays so: another completion of it, at whatever time and with whatever reply, and
-- a failure of it, change nothing.
pub complete_is_final :
    (now later : ℕ) (job : ClaimedJob) (body body' reason : String) (db : Database)
    (p : Unit {0} × Database)
    → complete now job body db ≡ ok p
    → (complete later job body' p.1 ≡ ok p) × (finalize_failure later job reason p.1 ≡ ok p)
unfolding complete finalize_failure
complete_is_final now later job body body' reason db p e =
    let jobs = complete-jobs now job db body e in
    let none_left : any (is_running_job job.id) p.1.jobs ≡ false =
      rw jobs (ended-any job.id (completed_row now) db.jobs (λ j. refl)) in
    let same : (g : JobRow → JobRow) → update (is_running_job job.id) g p.1.jobs ≡ p.1.jobs =
      λ g. rw jobs (ended-update job.id (completed_row now) g db.jobs (λ j. refl)) in
    (
      rw (none_left, same (completed_row later)) refl,
      rw (none_left, same (failed_row later reason)) refl,
    )

-- A completion that succeeds, of a running job that has a reservation, stores the reply, and the
-- reservation is captured after it.
pub complete_charges :
    (now : ℕ) (job : ClaimedJob) (body reference : String) (db : Database) (p : Unit {0} × Database)
    → any (is_running_job job.id) db.jobs ≡ true
    → job.reservation_reference ≡ some reference
    → non_empty reference ≡ true
    → complete now job body db ≡ ok p
    → ((r : ReservationRow) × (find_reservation (trim reference) p.1 ≡ some r)
        × (r.status ≡ captured))
      × (p.1.messages ≡ reply now job body db.next_id ∷ db.messages)
unfolding complete append_message
complete_charges now job body reference db p running named given e =
    let e' = rw (running, named, given) at e in
    let (r, c) = capture_for-eq-ok now reference _ e' in
    let (found, s) = captured_row now (trim reference) _ _ c refl in
    ((r, found, s), (capture_for-kept now reference _ e').1)

found_after_release :
    (reference : String) (db : Database) (r : ReservationRow)
    → WellFormed db
    → find_reservation reference db ≡ some r
    → (p : ReservationRow × Database) × (release_in_tx reference db ≡ ok p)
      × (q : ReservationRow) × (find_reservation reference p.1 ≡ some q)
      × (is_reserved q.status ≡ false)
unfolding release_in_tx
found_after_release reference db r v found = elim (Bool-cases (is_reserved r.status)) [
  | inl open' ↦ (
    (with_status released r, released_db r.id db),
    (release_is_final reference v r found 0 open').0,
    with_status released r,
    found_released reference v r found open',
    refl,
  )
  | inr ended ↦ ((r, db), rw (found, ended) refl, r, found, ended)
]

-- On well-formed credit tables, a failure of a running job with a reservation in them succeeds, and
-- the reservation is not open after it.
pub finalize_frees :
    (now : ℕ) (job : ClaimedJob) (reason reference : String) (db : Database) (r : ReservationRow)
    → WellFormed db
    → any (is_running_job job.id) db.jobs ≡ true
    → job.reservation_reference ≡ some reference
    → non_empty reference ≡ true
    → find_reservation reference db ≡ some r
    → (db' : Database) × (finalize_failure now job reason db ≡ ok (tt, db'))
      × (q : ReservationRow) × (find_reservation reference db' ≡ some q)
      × (is_reserved q.status ≡ false)
unfolding finalize_failure
finalize_frees now job reason reference db r v running named given found =
    let (p, freed, q, found', ended) =
      found_after_release reference
        (record db { jobs = update (is_running_job job.id) (failed_row now reason) db.jobs }) r
        (record {
          entries_distinct = v.entries_distinct;
          entries_below = v.entries_below;
          grants_kinded = v.grants_kinded;
          usages_below = v.usages_below;
          not_overdrawn = v.not_overdrawn;
          reservations_distinct = v.reservations_distinct;
          reservations_below = v.reservations_below;
        })
        found in
    (p.1, rw (running, named, given, freed) refl, q, found', ended)
