-- ===== src/Credits/Grants/Distinct.antt =====
-- The sort of the grants keeps what holds of each, and keeps their identifiers distinct.
use opod_service_backend.Prelude.{ℕ, List, All, Distinct}
use opod_service_backend.Prelude.Sorting.{sort_by-All, All-sort_by, sort_by-Distinct}
use opod_service_backend.Database.CreditRows.{LedgerRow}
use opod_service_backend.Credits.Grants.Sort.{sort_key, sort_grants}

abbrev pub id_of : LedgerRow → ℕ
id_of r = r.id

pub sort-All : (P : LedgerRow → Type 0) (gs : List LedgerRow) → All P gs → All P (sort_grants gs)
unfolding sort_grants
sort-All = sort_by-All sort_key

pub sort-Distinct : (gs : List LedgerRow) → Distinct id_of gs → Distinct id_of (sort_grants gs)
unfolding sort_grants
sort-Distinct = sort_by-Distinct sort_key id_of

-- What holds of every sorted grant holds of every grant.
pub All-sort : (P : LedgerRow → Type 0) (gs : List LedgerRow) → All P (sort_grants gs) → All P gs
unfolding sort_grants
All-sort = All-sort_by sort_key
