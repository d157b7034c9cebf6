-- ===== src/Planner/Projects/Dates.antt =====
-- The dates that a schedule of a project meets.
use daily_scheduler.Base.{ℕ, ◌+◌, ◌≤◌, ◌<◌, ◌≡◌, arith}
use daily_scheduler.Planner.Model.{weekday}
use daily_scheduler.Planner.Projects.{target_date}

-- For a day of the week below 7, the first date is among the seven from the project's start on, and
-- has that day of the week.
pub target_date_first :
    (start dow : ℕ)
    → dow < 7
    → (start ≤ target_date start dow start)
      × (target_date start dow start < start + 7)
      × (weekday (target_date start dow start) ≡ dow)
unfolding target_date
target_date_first start dow h = (ground arith, ground arith, ground arith)

-- From the day after a date that is not before the project's start and has the day of the week, the
-- date found is a week after that date.
pub target_date_next :
    (start dow date : ℕ)
    → start ≤ date
    → weekday date ≡ dow
    → target_date start dow (date + 1) ≡ date + 7
unfolding target_date
target_date_next start dow date h w = ground arith
