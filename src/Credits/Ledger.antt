-- ===== src/Credits/Ledger.antt =====
-- Reading and writing the credit ledger (credits/credits.service.ts).
use opod_service_backend.Prelude.{ℕ, Bool, true, false, Option, none, some, ◌∷◌, any}
use opod_service_backend.Database.{
  Database, Tx, unique_violation, return, modify, new_id, throw_if, ◌>>=◌, ◌>>◌,
}
use opod_service_backend.Database.CreditRows.{
  LedgerRow, LedgerType, grant, refund_recovery, CreditKind, kind_eq, ExternalReference,
  reference_eq,
}

abbrev pub is_grant : LedgerType → Bool
is_grant grant = true
is_grant _ = false

abbrev pub is_recovery : LedgerType → Bool
is_recovery refund_recovery = true
is_recovery _ = false

abbrev pub is_kind : CreditKind → Option CreditKind → Bool
is_kind k none = false
is_kind k (some j) = kind_eq j k

abbrev pub has_reference : ExternalReference → LedgerRow → Bool
has_reference e r = elim r.external_reference [ none ↦ false | some f ↦ reference_eq f e ]

-- The unique index on `external_reference`, which admits any number of nulls.
abbrev pub reference_taken : Option ExternalReference → Database → Bool
reference_taken none db = false
reference_taken (some e) db = any (has_reference e) db.ledger

-- `insert(creditLedger).values(…).returning()`; the row is given with its new identifier.
unfoldable pub insert_ledger : (ℕ → LedgerRow) → Tx LedgerRow
insert_ledger row db =
    let r = row db.next_id in
    (do
      throw_if (reference_taken r.external_reference db)
          (unique_violation "credit_ledger_external_reference_key")
      id ← new_id
      modify (λ d. record d { ledger = row id ∷ d.ledger })
      return (row id))
      db
