-- ===== src/Credits/CheckIns.antt =====
-- The daily check-in (`checkIn` of credits/credits.service.ts). The date in Korea of the clock's
-- reading (`kstDateString`, the platform's calendar) is an argument: its month and its day.
pub mod Cases
pub mod Repeated
use opod_service_backend.Prelude.{ℕ, ◌+◌, Bool, ◌&&◌, ◌∷◌, ◌==◌, any, select, length}
use opod_service_backend.Database.{
  Database, Tx, conflict, return, reads, modify, throw_if, ◌>>=◌, ◌>>◌,
}
use opod_service_backend.Database.CreditRows.{CheckInRow, check_in}
use opod_service_backend.Credits.Pricing.{check_in_milestone_bonus, daily_check_in_credits}
use opod_service_backend.Credits.Granting.{grant_credits, free_grant}

abbrev pub is_check_in : ℕ → ℕ → ℕ → CheckInRow → Bool
is_check_in user month day c = c.user_id == user && c.month == month && c.day == day

-- `count()` of the month's rows.
abbrev pub month_count : ℕ → ℕ → Database → ℕ
month_count user month db =
    length (select (λ (c : CheckInRow). c.user_id == user && c.month == month) db.check_ins)

pub record CheckInResult : Type 0 where
  pub month : ℕ
  pub day : ℕ
  pub credits_granted : ℕ
  pub milestone_bonus : ℕ
  pub month_check_in_count : ℕ

-- The insert fails on the unique index of user and date (code 23505).
unfoldable pub insert_check_in : ℕ → ℕ → ℕ → Tx (Unit {0})
insert_check_in user month day = do
  taken ← reads (λ db. any (is_check_in user month day) db.check_ins)
  throw_if taken (conflict "Already checked in today")
  modify (λ d. record d {
    check_ins = record { user_id = user; month = month; day = day } ∷ d.check_ins;
  })

unfoldable pub check_in_user : ℕ → ℕ → ℕ → ℕ → Tx CheckInResult
check_in_user now user month day = do
  insert_check_in user month day
  count ← reads (month_count user month)
  let bonus = check_in_milestone_bonus count
  let credits = daily_check_in_credits + bonus
  grant_credits now (free_grant user credits "daily check-in" (check_in user month day))
  return (record {
    month = month;
    day = day;
    credits_granted = credits;
    milestone_bonus = bonus;
    month_check_in_count = count;
  })
