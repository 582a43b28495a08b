-- ===== src/Credits/Pricing.antt =====
-- credits/credit-pricing.ts.
use opod_service_backend.Prelude.{ℕ, ◌*◌, String, if◌then◌else◌, ◌==◌}

pub data CreditActionType : Type 0 where
  chat_reply : CreditActionType

-- `creditActionPrices`
abbrev pub action_price : CreditActionType → ℕ
action_price chat_reply = 2

-- The text of an action in the column `action_type`.
abbrev pub action_name : CreditActionType → String
action_name chat_reply = "chat_reply"

abbrev pub free_credit_ttl_days : ℕ
free_credit_ttl_days = 30

abbrev pub signup_bonus_credits : ℕ
signup_bonus_credits = 100

abbrev pub daily_check_in_credits : ℕ
daily_check_in_credits = 10

-- `checkInMilestoneBonuses[count] ?? 0`
abbrev pub check_in_milestone_bonus : ℕ → ℕ
check_in_milestone_bonus count =
    if count == 7 then 20 else if count == 14 then 30 else if count == 30 then 50 else 0

abbrev pub reservation_ttl_ms : ℕ
reservation_ttl_ms = 5 * 60 * 1000

abbrev pub day_ms : ℕ
day_ms = 24 * 60 * 60 * 1000
