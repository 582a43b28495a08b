-- ===== src/Tests/Data.antt =====
-- A small database: user 1 has a free grant (entry 0), a paid one of purchase 7 (entry 1) and an
-- open reservation (2).
use opod_service_backend.Prelude.{none, some, [], ◌∷◌, arith}
use opod_service_backend.Prelude.Int.{pos}
use opod_service_backend.Database.{Database}
use opod_service_backend.Database.CreditRows.{
  LedgerRow, grant, free, paid, ReservationRow, reserved,
}
use opod_service_backend.Credits.Balance.{used_of}
use opod_service_backend.Credits.WellFormed.{WellFormed}

abbrev pub free_entry : LedgerRow
free_entry = record {
  id = 0;
  user_id = 1;
  type = grant;
  credit_kind = some free;
  purchase_id = none;
  promotion_code = none;
  amount = 30;
  expires_at = some 1000;
  reason = "signup bonus";
  external_reference = none;
  created_at = 10;
}

abbrev pub paid_entry : LedgerRow
paid_entry = record {
  id = 1;
  user_id = 1;
  type = grant;
  credit_kind = some paid;
  purchase_id = some 7;
  promotion_code = none;
  amount = 50;
  expires_at = none;
  reason = "credit purchase";
  external_reference = none;
  created_at = 20;
}

abbrev pub open_reservation : ReservationRow
open_reservation = record {
  id = 2;
  user_id = 1;
  action_type = "chat_reply";
  amount = 2;
  status = reserved;
  reference = "r1";
  expires_at = some 500;
  created_at = 30;
}

abbrev pub empty_db : Database
empty_db = record {
  next_id = 3;
  ledger = [];
  adjustments = [];
  usages = [];
  reservations = [];
  check_ins = [];
  purchases = [];
  refunds = [];
  payments = [];
  payment_ledger = [];
  provider_events = [];
  products = [];
  product_mappings = [];
  notifications = [];
  follows = [];
  characters = [];
  posts = [];
  stories = [];
  jobs = [];
  messages = [];
  conversations = [];
}

abbrev pub sample : Database
sample = record empty_db {
  ledger = paid_entry ∷ free_entry ∷ [];
  reservations = open_reservation ∷ [];
}

pub sample-WellFormed : WellFormed sample
unfolding used_of
sample-WellFormed = record {
  entries_distinct = omega arith;
  entries_below = omega arith;
  grants_kinded = ((λ _ e. cc), ((λ _ e. cc), tt));
  usages_below = tt;
  not_overdrawn = ((λ _. omega arith), ((λ _. omega arith), tt));
  reservations_distinct = (tt, tt);
  reservations_below = omega arith;
}

-- A user with an adjustment of 50 free credits and no grant.
abbrev pub adjusted_db : Database
adjusted_db = record empty_db {
  adjustments = record { user_id = 1; credit_kind = free; amount = pos 50 } ∷ [];
}

pub adjusted_db-WellFormed : WellFormed adjusted_db
adjusted_db-WellFormed = record {
  entries_distinct = tt;
  entries_below = tt;
  grants_kinded = tt;
  usages_below = tt;
  not_overdrawn = tt;
  reservations_distinct = tt;
  reservations_below = tt;
}
