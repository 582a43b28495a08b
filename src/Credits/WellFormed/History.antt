-- ===== src/Credits/WellFormed/History.antt =====
-- Histories of operations on credits.
use opod_service_backend.Prelude.{ℕ, List, [], ◌∷◌, String, Number, inl, inr}
use opod_service_backend.Database.{Database, Tx, Result, ok, err, Keeps, Result-cases}
use opod_service_backend.Credits.Granting.{GrantInput, grant_credits, record_refund_recovery}
use opod_service_backend.Credits.CheckIns.{check_in_user}
use opod_service_backend.Credits.Spending.{spend_credits}
use opod_service_backend.Credits.Reservations.{
  ReserveInput, reserve_credits, capture_in_tx, release_in_tx,
}
use opod_service_backend.Credits.WellFormed.{WellFormed}
use opod_service_backend.Credits.WellFormed.Holds.{
  spend_credits-Keeps, grant_credits-Keeps, record_refund_recovery-Keeps, check_in_user-Keeps,
}
use opod_service_backend.Credits.WellFormed.Reservations.{
  reserve_credits-Keeps, capture_in_tx-Keeps, release_in_tx-Keeps,
}

-- The transactions of the credits service.
pub data Operation : Type 0 where
  grants : GrantInput → Operation
  recovers : ℕ → ℕ → ℕ → ℕ → String → Operation
  checks_in : ℕ → ℕ → ℕ → Operation
  spends : ℕ → Number → String → Operation
  reserves : String → ReserveInput → Operation
  captures releases : String → Operation

-- A transaction commits, or leaves the database as it was.
abbrev pub commit : {A : Type 0} → Result (A × Database) → Database → Database
commit (ok (a, db')) db = db'
commit (err e) db = db

unfoldable pub perform : ℕ → Operation → Database → Database
perform now (grants input) db = commit (grant_credits now input db) db
perform now (recovers user purchase amount refund reason) db =
    commit (record_refund_recovery now user purchase amount refund reason db) db
perform now (checks_in user month day) db = commit (check_in_user now user month day db) db
perform now (spends user n reason) db = commit (spend_credits now user n reason db) db
perform now (reserves uuid input) db = commit (reserve_credits now uuid input db) db
perform now (captures reference) db = commit (capture_in_tx now reference db) db
perform now (releases reference) db = commit (release_in_tx reference db) db

-- Operations, each at its time.
unfoldable pub perform_all : List (ℕ × Operation) → Database → Database
unfolding perform
perform_all [] db = db
perform_all ((now, op) ∷ ops) db = perform_all ops (perform now op db)

commit-WellFormed :
    {A : Type 0} (m : Tx A) {db : Database}
    → Keeps WellFormed m
    → WellFormed db
    → WellFormed (commit (m db) db)
commit-WellFormed m {db} keeps v = elim (Result-cases (m db)) [
  | inl (p, e) ↦ rw e (keeps db p e v)
  | inr (_, e) ↦ rw e v
]

perform-WellFormed :
    (now : ℕ) (op : Operation) {db : Database} → WellFormed db → WellFormed (perform now op db)
unfolding perform
perform-WellFormed now (grants input) v =
    commit-WellFormed (grant_credits now input) (grant_credits-Keeps now input) v
perform-WellFormed now (recovers user purchase amount refund reason) v =
    commit-WellFormed (record_refund_recovery now user purchase amount refund reason)
      (record_refund_recovery-Keeps now user purchase amount refund reason) v
perform-WellFormed now (checks_in user month day) v =
    commit-WellFormed (check_in_user now user month day) (check_in_user-Keeps now user month day) v
perform-WellFormed now (spends user n reason) v =
    commit-WellFormed (spend_credits now user n reason) (spend_credits-Keeps now user n reason) v
perform-WellFormed now (reserves uuid input) v =
    commit-WellFormed (reserve_credits now uuid input) (reserve_credits-Keeps now uuid input) v
perform-WellFormed now (captures reference) v =
    commit-WellFormed (capture_in_tx now reference) (capture_in_tx-Keeps now reference) v
perform-WellFormed now (releases reference) v =
    commit-WellFormed (release_in_tx reference) (release_in_tx-Keeps reference) v

-- Whatever transactions of the credits service run, in whatever order and at whatever times, from
-- well-formed tables: identifiers stay distinct, every grant has a kind, and no grant is used
-- beyond its amount.
pub perform_all-WellFormed :
    (ops : List (ℕ × Operation)) (db : Database) → WellFormed db → WellFormed (perform_all ops db)
unfolding perform_all
perform_all-WellFormed [] db v = v
perform_all-WellFormed ((now, op) ∷ ops) db v =
    perform_all-WellFormed ops (perform now op db) (perform-WellFormed now op v)
