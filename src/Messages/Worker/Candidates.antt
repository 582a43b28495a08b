-- ===== src/Messages/Worker/Candidates.antt =====
-- The jobs that one round of the worker chooses.
use opod_service_backend.Prelude.{
  ℕ, zero, suc, ◌≤◌, ◌≡◌, ◌≢◌, refl, true, Bool-cases, inl, inr, List, [], ◌∷◌, arith, ◌==◌, ◌*◌,
  any, select, take, length, length-take-le, All, Distinct, Differs, ==_refl, subst, sym,
}
use opod_service_backend.Prelude.Sorting.{sort_by, sort_by-All}
use opod_service_backend.Database.{Database}
use opod_service_backend.Database.MessageRows.{JobRow}
use opod_service_backend.Messages.Claiming.{
  WorkerOptions, is_ready, job_key, first_per_conversation, find_claimable,
}

-- What holds of the rows of the table that are ready holds of the chosen ones.
module _ (P : JobRow → Type 0) where
  All-take : (n : ℕ) (jobs : List JobRow) → All P jobs → All P (take n jobs)
  All-take zero jobs h = tt
  All-take (suc n) [] h = tt
  All-take (suc n) (j ∷ jobs) h = (h.0, All-take n jobs h.1)

  first_per_conversation-All :
      (seen : List ℕ) (jobs : List JobRow) → All P jobs → All P (first_per_conversation seen jobs)
  unfolding first_per_conversation
  first_per_conversation-All seen [] h = tt
  first_per_conversation-All seen (j ∷ jobs) h = ground (
    arith,
    first_per_conversation-All seen jobs h.1,
    first_per_conversation-All (j.conversation_id ∷ seen) jobs h.1,
  )

select-Ready :
    (now : ℕ) (jobs : List JobRow) → All (λ j. is_ready now j ≡ true) (select (is_ready now) jobs)
select-Ready now [] = tt
select-Ready now (j ∷ jobs) = elim (Bool-cases (is_ready now j)) [
  | inl k ↦ rw k (k, select-Ready now jobs)
  | inr k ↦ rw k (select-Ready now jobs)
]

seen-Differs :
    (c : ℕ) (seen : List ℕ) (jobs : List JobRow)
    → any (λ d. d == c) seen ≡ true
    → Differs (λ j. j.conversation_id) c (first_per_conversation seen jobs)
unfolding first_per_conversation
seen-Differs c seen [] h = tt
seen-Differs c seen (j ∷ jobs) h = elim (Bool-cases (any (λ d. d == j.conversation_id) seen)) [
  | inl k ↦ rw k (seen-Differs c seen jobs h)
  | inr k ↦ rw k (
    (λ same. let h' = subst (λ i. any (λ d. d == i) seen ≡ true) (sym same) h in cc),
    seen-Differs c (j.conversation_id ∷ seen) jobs (ground arith),
  )
]

first_per_conversation-Distinct :
    (seen : List ℕ) (jobs : List JobRow)
    → Distinct (λ j. j.conversation_id) (first_per_conversation seen jobs)
unfolding first_per_conversation
first_per_conversation-Distinct seen [] = tt
first_per_conversation-Distinct seen (j ∷ jobs) =
    elim (Bool-cases (any (λ d. d == j.conversation_id) seen)) [
      | inl k ↦ rw k (first_per_conversation-Distinct seen jobs)
      | inr k ↦ rw k (
        seen-Differs j.conversation_id (j.conversation_id ∷ seen) jobs
            (rw (==_refl j.conversation_id) refl),
        first_per_conversation-Distinct (j.conversation_id ∷ seen) jobs,
      )
    ]

take-Distinct :
    (n : ℕ) (jobs : List JobRow)
    → Distinct (λ j. j.conversation_id) jobs
    → Distinct (λ j. j.conversation_id) (take n jobs)
take-Distinct zero jobs h = tt
take-Distinct (suc n) [] h = tt
take-Distinct (suc n) (j ∷ jobs) h = (
  All-take (λ (i : JobRow). i.conversation_id ≢ j.conversation_id) n jobs h.0,
  take-Distinct n jobs h.1,
)

-- The jobs that a round chooses are ready, no two are of one conversation, and there are no more
-- than the worker may run at once.
pub find_claimable_lem :
    (options : WorkerOptions) (now : ℕ) (db : Database)
    → All (λ j. is_ready now j ≡ true) (find_claimable options now db)
      × Distinct (λ j. j.conversation_id) (find_claimable options now db)
      × (length (find_claimable options now db) ≤ options.concurrency)
unfolding find_claimable
find_claimable_lem options now db =
    let chosen = take (options.concurrency * 4) (sort_by job_key (select (is_ready now) db.jobs)) in
    (
      All-take (λ j. is_ready now j ≡ true) options.concurrency _
          (first_per_conversation-All (λ j. is_ready now j ≡ true) [] chosen
            (All-take (λ j. is_ready now j ≡ true) (options.concurrency * 4) _
              (sort_by-All job_key (λ j. is_ready now j ≡ true) _ (select-Ready now db.jobs)))),
      take-Distinct options.concurrency _ (first_per_conversation-Distinct [] chosen),
      length-take-le options.concurrency _,
    )
