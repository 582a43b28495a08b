-- ===== src/Credits/Granting.antt =====
-- Entries into the ledger (credits/credits.service.ts): `grantCreditsWithClient`, which
-- `grantCredits` runs in a transaction, `grantSignupBonus` and `recordRefundRecoveryWithClient`.
pub mod Cases
pub mod Repeated
use opod_service_backend.Prelude.{
  ℕ, ◌+◌, ◌*◌, Bool, not, ◌&&◌, Option, none, some, String, ◌==◌, first, if◌then◌else◌, get_or,
  is_some, opt_eq, Number, integer,
}
use opod_service_backend.Prelude.Int.{pos}
use opod_service_backend.Prelude.Text.{trim, has_text}
use opod_service_backend.Database.{
  Database, Tx, bad_request, conflict, return, reads, throw_if, or_throw, ◌>>=◌, ◌>>◌,
}
use opod_service_backend.Database.CreditRows.{
  LedgerRow, grant, refund_recovery, CreditKind, free, paid, kind_eq, ExternalReference,
  signup_bonus, credit_refund,
}
use opod_service_backend.Credits.Pricing.{free_credit_ttl_days, day_ms, signup_bonus_credits}
use opod_service_backend.Credits.Ledger.{is_grant, is_kind, has_reference, insert_ledger}
use opod_service_backend.Credits.Spending.{valid_amount}

pub record GrantInput : Type 0 where
  pub user_id : ℕ
  pub amount : Number
  pub reason : String
  pub credit_kind : Option CreditKind
  pub purchase_id : Option ℕ
  pub promotion_code : Option String
  pub external_reference : Option ExternalReference
  pub expires_at : Option ℕ

abbrev pub input_kind : GrantInput → CreditKind
input_kind input = get_or input.credit_kind free

abbrev pub is_same_grant : GrantInput → ℕ → LedgerRow → Bool
is_same_grant input amount r =
    r.user_id == input.user_id
    && is_grant r.type
    && r.amount == amount
    && is_kind (input_kind input) r.credit_kind
    && opt_eq r.purchase_id input.purchase_id

-- `input.expiresAt ?? (creditKind === "free" ? this.freeCreditExpiry() : undefined)`
abbrev pub grant_expiry : ℕ → GrantInput → Option ℕ
grant_expiry now input = elim input.expires_at [
  | some t ↦ some t
  | none ↦
      if kind_eq (input_kind input) free then some (now + free_credit_ttl_days * day_ms) else none
]

abbrev pub grant_entry : ℕ → GrantInput → ℕ → ℕ → LedgerRow
grant_entry now input amount id = record {
  id = id;
  user_id = input.user_id;
  type = grant;
  credit_kind = some (input_kind input);
  purchase_id = input.purchase_id;
  promotion_code = input.promotion_code;
  amount = amount;
  expires_at = grant_expiry now input;
  reason = trim input.reason;
  external_reference = input.external_reference;
  created_at = now;
}

-- The entry that the reference of the input names already.
abbrev pub find_entry : Option ExternalReference → Database → Option LedgerRow
find_entry none db = none
find_entry (some e) db = first (has_reference e) db.ledger

unfoldable pub grant_credits : ℕ → GrantInput → Tx LedgerRow
grant_credits now input = do
  amount ←
      or_throw (valid_amount input.amount input.reason)
        (bad_request "Credit amount and reason are required")
  throw_if (kind_eq (input_kind input) paid && not (is_some input.purchase_id))
      (bad_request "Paid credits require a purchase ID")
  throw_if (has_text input.promotion_code && not (is_some input.purchase_id))
      (bad_request "Purchase-linked promotion requires a purchase ID")
  existing ← reads (find_entry input.external_reference)
  elim existing [
    | some r ↦ do
      throw_if (not (is_same_grant input amount r)) (conflict "Credit grant reference conflict")
      return r
    | none ↦ insert_ledger (grant_entry now input amount)
  ]

-- The arguments of a free grant under a reference of its own.
abbrev pub free_grant : ℕ → ℕ → String → ExternalReference → GrantInput
free_grant user amount reason reference = record {
  user_id = user;
  amount = integer (pos amount);
  reason = reason;
  credit_kind = some free;
  purchase_id = none;
  promotion_code = none;
  external_reference = some reference;
  expires_at = none;
}

unfoldable pub grant_signup_bonus : ℕ → ℕ → Tx LedgerRow
unfolding grant_credits
grant_signup_bonus now user =
    grant_credits now (free_grant user signup_bonus_credits "signup bonus" (signup_bonus user))

abbrev pub recovery_entry : ℕ → ℕ → ℕ → ℕ → ℕ → String → ℕ → LedgerRow
recovery_entry now user purchase amount refund reason id = record {
  id = id;
  user_id = user;
  type = refund_recovery;
  credit_kind = some paid;
  purchase_id = some purchase;
  promotion_code = none;
  amount = amount;
  expires_at = none;
  reason = reason;
  external_reference = some (credit_refund refund);
  created_at = now;
}

-- `recordRefundRecoveryWithClient`
unfoldable pub record_refund_recovery : ℕ → ℕ → ℕ → ℕ → ℕ → String → Tx LedgerRow
record_refund_recovery now user purchase amount refund reason =
    insert_ledger (recovery_entry now user purchase amount refund reason)
