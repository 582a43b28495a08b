-- ===== src/Credits/Grants/Sort.antt =====
-- The order of the grants: `orderBy(creditKind, expiresAt, createdAt, id)`, each ascending, nulls
-- last.
use opod_service_backend.Prelude.{ℕ, Option, none, some, List, [], ◌∷◌}
use opod_service_backend.Prelude.Sorting.{sort_by}
use opod_service_backend.Database.CreditRows.{LedgerRow, CreditKind, free, paid}

-- The order of the values of the enum `credit_kind`.
abbrev pub kind_rank : Option CreditKind → ℕ
kind_rank (some free) = 0
kind_rank (some paid) = 1
kind_rank none = 2

abbrev pub null_rank : Option ℕ → ℕ
null_rank (some t) = 0
null_rank none = 1

abbrev pub time_or_zero : Option ℕ → ℕ
time_or_zero (some t) = t
time_or_zero none = 0

unfoldable pub sort_key : LedgerRow → List ℕ
sort_key g =
    kind_rank g.credit_kind
    ∷ null_rank g.expires_at
    ∷ time_or_zero g.expires_at
    ∷ g.created_at
    ∷ g.id
    ∷ []

unfoldable pub sort_grants : List LedgerRow → List LedgerRow
unfolding sort_by sort_key
sort_grants grants = sort_by sort_key grants
