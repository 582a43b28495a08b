-- ===== src/Credits/Grants/Sorted.antt =====
-- The sort puts the grants in order.
use opod_service_backend.Prelude.{ℕ, ◌≡◌, Bool, true, List, [], ◌∷◌, All}
use opod_service_backend.Database.CreditRows.{LedgerRow}
use opod_service_backend.Prelude.{Amounts}
use opod_service_backend.Credits.Grants.Sort.{sort_key, sort_grants}
use opod_service_backend.Prelude.Sorting.{lex_leb, Sorted, sort_by-Sorted}
use opod_service_backend.Credits.Grants.Walk.{GrantSnapshot, walk, deduct, unspent}
use opod_service_backend.Credits.Grants.Taken.{walk-grants}

-- One grant is used no later than another.
abbrev pub Precedes : LedgerRow → LedgerRow → Type 0
Precedes g h = lex_leb (sort_key g) (sort_key h) ≡ true

pub sort-Sorted : (gs : List LedgerRow) → Sorted sort_key (sort_grants gs)
unfolding sort_grants
sort-Sorted = sort_by-Sorted sort_key

abbrev pub SortedSnapshots : List GrantSnapshot → Type 0
SortedSnapshots [] = Unit
SortedSnapshots (s ∷ ss) = All (λ t. Precedes s.grant t.grant) ss × SortedSnapshots ss

pub walk-Sorted :
    (b : Bool) (now : ℕ) (used : ℕ → ℕ) (gs : List LedgerRow) (rs ls : Amounts)
    → Sorted sort_key gs
    → SortedSnapshots (walk b now used gs rs ls).0
unfolding walk
walk-Sorted b now used [] rs ls h = tt
walk-Sorted b now used (g ∷ gs) rs ls h =
    let d = deduct b g.purchase_id (unspent now (used g.id) g) rs ls in
    (
      walk-grants (Precedes g) b now used gs d.recoveries d.locks h.0,
      walk-Sorted b now used gs d.recoveries d.locks h.1,
    )
