-- ===== src/Planner/Calendar.antt =====
-- The grid of months of calendar_view in scheduler/views/personal_task_views.py. The first day of
-- the month is a parameter, since the calendar is that of Python's datetime.
use daily_scheduler.Base.{
  ℕ, zero, suc, ◌+◌, ◌-◌, ◌≤◌, ◌<◌, ◌≡◌, List, [], ◌∷◌, Memᴰ, arith, take, drop, ◌==◌,
  if◌then◌else◌, Bool-cases, inl, inr,
}
use daily_scheduler.Planner.Model.{TaskTable, weekday}
use daily_scheduler.Planner.Analytics.{Stats, stats_of}

abbrev pub start_of_week : ℕ → ℕ
start_of_week first_day = first_day - weekday first_day

-- `while len(calendar_days) < 42`, for the days that are left.
unfoldable pub days_from : ℕ → ℕ → List ℕ
days_from zero current_date = []
days_from (suc left) current_date = current_date ∷ days_from left (current_date + 1)

unfoldable pub calendar_days : ℕ → List ℕ
calendar_days first_day = days_from 42 (start_of_week first_day)

-- The counts of one day.
unfoldable pub task_counts : (t : TaskTable) → ℕ → t.Db → Stats
task_counts t day d = stats_of (λ x. x.date == day) (λ x. x.is_completed) (t.rows d)

-- The grouping into weeks, for the weeks that are left.
unfoldable pub weeks_of : ℕ → List ℕ → List (List ℕ)
weeks_of zero days = []
weeks_of (suc left) days = take 7 days ∷ weeks_of left (drop 7 days)

-- A year and a month, and those that the links lead to.
unfoldable pub prev_month : ℕ × ℕ → ℕ × ℕ
prev_month (year, month) = if month == 1 then (year - 1, 12) else (year, month - 1)

unfoldable pub next_month : ℕ × ℕ → ℕ × ℕ
next_month (year, month) = if month == 12 then (year + 1, 1) else (year, month + 1)

Mem-days_from :
    (left from date : ℕ) → from ≤ date → date < from + left → Memᴰ date (days_from left from)
unfolding days_from
Mem-days_from zero from date a b = absurd (omega arith)
Mem-days_from (suc left) from date a b = elim (Bool-cases (date == from)) [
  | inl same ↦ Memᴰ.head (ground arith)
  | inr later ↦ Memᴰ.tail (Mem-days_from left (from + 1) date (ground arith) (omega arith))
]

-- For a month that begins on the ordinal 7 or later: the grid holds every day of a month of up to 31
-- days, and its first day is a Monday.
pub calendar_days-month :
    (first_day date : ℕ)
    → 7 ≤ first_day
    → first_day ≤ date
    → date < first_day + 31
    → Memᴰ date (calendar_days first_day) × (weekday (start_of_week first_day) ≡ 0)
unfolding calendar_days
calendar_days-month first_day date h a b =
    (Mem-days_from 42 (start_of_week first_day) date (omega arith) (omega arith), omega arith)

-- The link to the next month and the one back lead to the month that is shown, in
-- either order, for the months 1 to 12 of a year from 1 on.
pub prev_month-next_month :
    (year month : ℕ)
    → 1 ≤ year
    → 1 ≤ month
    → month ≤ 12
    → (prev_month (next_month (year, month)) ≡ (year, month))
      × (next_month (prev_month (year, month)) ≡ (year, month))
unfolding prev_month next_month
prev_month-next_month year month y a b = (ground arith, ground arith)
