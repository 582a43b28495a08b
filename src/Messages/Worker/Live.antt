-- ===== src/Messages/Worker/Live.antt =====
-- The live jobs of a conversation: how their number changes with time and with updates of jobs.
use opod_service_backend.Prelude.{
  ℕ, ◌≤◌, ◌≡◌, ◌≢◌, refl, Bool, false, ◌&&◌, Bool-cases, inl, inr, some, List, [], ◌∷◌, ◌==◌, any,
  first, update, sum, if◌then◌else◌, Distinct, Differs, arith, subst, ap, ◌∙◌,
}
use opod_service_backend.Database.MessageRows.{JobRow}
use opod_service_backend.Messages.Claiming.{is_live, is_other_live}

-- Whether a job is a live one of the conversation, as a number.
abbrev pub live_in : ℕ → ℕ → JobRow → ℕ
live_in now c j = if j.conversation_id == c && is_live now j then 1 else 0

abbrev pub live_count : ℕ → ℕ → List JobRow → ℕ
live_count now c jobs = sum (live_in now c) jobs

module _ (now c : ℕ) where
  pub live_count-later :
      (later : ℕ) (jobs : List JobRow)
      → now ≤ later
      → live_count later c jobs ≤ live_count now c jobs
  live_count-later later [] h = omega arith
  live_count-later later (j ∷ jobs) h = ground (arith, live_count-later later jobs h)

  pub live_count-update-ended :
      (p : JobRow → Bool) (f : JobRow → JobRow) (jobs : List JobRow)
      → ((j : JobRow) → is_live now (f j) ≡ false)
      → live_count now c (update p f jobs) ≤ live_count now c jobs
  live_count-update-ended p f [] h = omega arith
  live_count-update-ended p f (j ∷ jobs) h = ground (arith, h j, live_count-update-ended p f jobs h)

  module _ (id : ℕ) (f : JobRow → JobRow) where
    pub update-absent :
        (jobs : List JobRow)
        → Differs (λ j. j.id) id jobs
        → update (λ (j : JobRow). j.id == id) f jobs ≡ jobs
    update-absent [] h = refl
    update-absent (j ∷ jobs) h = ground (arith, update-absent jobs h.1)

    none_live :
        (jobs : List JobRow)
        → Differs (λ j. j.id) id jobs
        → any (is_other_live now id c) jobs ≡ false
        → live_count now c jobs ≡ 0
    none_live [] h e = refl
    none_live (j ∷ jobs) h e = ground (arith, none_live jobs h.1)

    none_live-update :
        (jobs : List JobRow)
        → Differs (λ j. j.id) id jobs
        → any (is_other_live now id c) jobs ≡ false
        → live_count now c (update (λ j. j.id == id) f jobs) ≡ 0
    none_live-update jobs h e = rw (update-absent jobs h) (none_live jobs h e)

    live_in-le : (j : JobRow) → live_in now c j ≤ 1
    live_in-le j = ground arith

    -- Where no other job is live, one at most is after the update of one job.
    pub live_count-update-le :
        (jobs : List JobRow)
        → Distinct (λ j. j.id) jobs
        → any (is_other_live now id c) jobs ≡ false
        → live_count now c (update (λ j. j.id == id) f jobs) ≤ 1
    live_count-update-le [] d e = omega arith
    live_count-update-le (j ∷ jobs) d e = elim (Bool-cases (j.id == id)) [
      | inl k ↦
          let same : j.id ≡ id = ground arith in
          let rest =
            none_live-update jobs (subst (λ i. Differs (λ j. j.id) i jobs) same d.0)
              (ground arith) in
          rw k (omega (arith, live_in-le (f j), rest))
      | inr k ↦ ground (arith, live_count-update-le jobs d.1)
    ]

    -- In the other conversations the count does not rise with an update of a job that is not
    -- theirs.
    pub live_count-update-other :
        (other : ℕ) (job : JobRow) (jobs : List JobRow)
        → other ≢ c
        → ((j : JobRow) → (f j).conversation_id ≡ j.conversation_id)
        → job.conversation_id ≡ c
        → Distinct (λ j. j.id) jobs
        → first (λ (j : JobRow). j.id == id) jobs ≡ some job
        → live_count now other (update (λ j. j.id == id) f jobs) ≤ live_count now other jobs
    live_count-update-other other job [] ne keeps own d e = omega arith
    live_count-update-other other job (j ∷ jobs) ne keeps own d e = elim (Bool-cases (j.id == id)) [
      | inl k ↦
          let same : j.id ≡ id = ground arith in
          let is_job : j ≡ job = ground arith in
          let u = update-absent jobs (subst (λ i. Differs (λ j. j.id) i jobs) same d.0) in
          let own' : (f j).conversation_id ≡ c =
            keeps j ∙ ap (λ (j : JobRow). j.conversation_id) is_job ∙ own in
          rw (k, u) (ground arith)
      | inr k ↦ ground (arith, live_count-update-other other job jobs ne keeps own d.1)
    ]

    -- A job that an update makes live is counted.
    pub live_count-update-ge :
        (job : JobRow) (jobs : List JobRow)
        → first (λ (j : JobRow). j.id == id) jobs ≡ some job
        → live_in now c (f job) ≡ 1
        → 1 ≤ live_count now c (update (λ j. j.id == id) f jobs)
    live_count-update-ge job [] e live = cc
    live_count-update-ge job (j ∷ jobs) e live = elim (Bool-cases (j.id == id)) [
      | inl k ↦
          let is_job : j ≡ job = ground arith in
          let live' : live_in now c (f j) ≡ 1 = rw is_job live in rw k (omega (arith, live'))
      | inr k ↦ ground (arith, live_count-update-ge job jobs)
    ]
