-- ===== src/Database/Services.antt =====
-- Code outside a transaction: a sequence of transactions and single statements, each of which is
-- committed at once. An exception ends the rest and leaves what is committed.
use opod_service_backend.Database.{Database, Result, ok, err}

abbrev pub Service : Type 0 → Type 0
Service A = Database → Result A × Database

abbrev pub done : {A : Type 0} → A → Service A
done a db = (ok a, db)

abbrev pub go_on : {A B : Type 0} → Result A × Database → (A → Service B) → Result B × Database
go_on (ok a, db) f = f a db
go_on (err e, db) f = (err e, db)

infixl 5 ◌>>=◌ ◌>>◌
abbrev pub ◌>>=◌ : {A B : Type 0} → Service A → (A → Service B) → Service B
◌>>=◌ m f db = go_on (m db) f

abbrev pub ◌>>◌ : {A B : Type 0} → Service A → Service B → Service B
m >> k = m >>= λ _. k
