-- ===== src/Planner/Analytics.antt =====
-- The statistics of scheduler/views/analytics_views.py. A percentage is its exact fraction, `completed`
-- of `total`; the views' floats agree with it wherever they are compared to a threshold.
pub mod Sums
pub mod Dates
pub mod Dashboard
pub mod Charts
pub mod Alerts
use daily_scheduler.Base.{
  ℕ, zero, suc, ◌+◌, ◌-◌, ◌*◌, ◌%◌, ◌≤◌, ◌<◌, ◌≡◌, refl, Bool, true, false, not, ◌&&◌, Option, none,
  some, List, [], ◌∷◌, arith, count, leb, ltb, ◌==◌, if◌then◌else◌, length, map, ap, ◌∙◌,
}
use daily_scheduler.Orm.{Table}
use daily_scheduler.Planner.Model.{
  PersonalTask, TaskTable, TaskCategory, same_category, SubTask, SubTaskTable, PrayerCompletion,
  PrayerTable, PrayerName, prayer_number, fajr, zhor, asr, magrib, eisha, weekday,
}

-- The dictionary that the functions return; `percentage` is `completed / total * 100`, 0 of none.
pub record Stats : Type 0 where
  pub completed : ℕ
  pub incomplete : ℕ
  pub total : ℕ

pub record DayStats : Type 0 where
  pub date : ℕ
  pub stats : Stats

-- The counts of the rows that pass a test: all of them, and those that are completed.
module _ {A : Type 0} where
  unfoldable pub stats_of : (A → Bool) → (A → Bool) → List A → Stats
  stats_of p done xs =
      let completed = count (λ x. p x && done x) xs in
      let total = count p xs in
      record { completed = completed; incomplete = total - completed; total = total }

  -- `while current_date <= end_date`, for the `days` dates from `current_date` on.
  unfoldable pub daily_from : (ℕ → A → Bool) → (A → Bool) → List A → ℕ → ℕ → List DayStats
  daily_from p done xs zero current_date = []
  daily_from p done xs (suc days) current_date =
      record { date = current_date; stats = stats_of (p current_date) done xs }
      ∷ daily_from p done xs days (current_date + 1)

  unfoldable pub daily : (ℕ → A → Bool) → (A → Bool) → List A → ℕ → ℕ → List DayStats
  daily p done xs start_date end_date = daily_from p done xs (end_date + 1 - start_date) start_date

abbrev pub in_range : ℕ → ℕ → ℕ → Bool
in_range start_date end_date date = leb start_date date && leb date end_date

abbrev pub in_category : Option TaskCategory → PersonalTask → Bool
in_category none x = true
in_category (some c) x = same_category x.category c

-- SubTask.objects.filter(personal_task__in=tasks), for the tasks that pass a test.
abbrev pub of_tasks : (PersonalTask → Bool) → List PersonalTask → SubTask → Bool
of_tasks p tasks s = ltb 0 (count (λ x. p x && x.id == s.personal_task) tasks)

module _ (t : TaskTable) where
  pub calculate_completion_stats : ℕ → ℕ → Option TaskCategory → t.Db → Stats
  calculate_completion_stats start_date end_date category d =
      stats_of (λ x. in_range start_date end_date x.date && in_category category x)
        (λ x. x.is_completed) (t.rows d)

  pub get_daily_stats : ℕ → ℕ → Option TaskCategory → t.Db → List DayStats
  get_daily_stats start_date end_date category d =
      daily (λ date x. x.date == date && in_category category x) (λ x. x.is_completed) (t.rows d)
        start_date end_date

  module _ (s : SubTaskTable) where
    pub calculate_subtask_completion_stats : ℕ → ℕ → t.Db → s.Db → Stats
    calculate_subtask_completion_stats start_date end_date d e =
        stats_of (of_tasks (λ x. in_range start_date end_date x.date) (t.rows d))
          (λ x. x.is_completed) (s.rows e)

    pub get_daily_subtask_stats : ℕ → ℕ → t.Db → s.Db → List DayStats
    get_daily_subtask_stats start_date end_date d e =
        daily (λ date. of_tasks (λ x. x.date == date) (t.rows d)) (λ x. x.is_completed) (s.rows e)
          start_date end_date

module _ (p : PrayerTable) where
  unfoldable pub calculate_prayer_completion_stats : ℕ → ℕ → p.Db → Stats
  calculate_prayer_completion_stats start_date end_date d =
      stats_of (λ x. in_range start_date end_date x.date) (λ x. x.is_completed) (p.rows d)

  pub get_daily_prayer_stats : ℕ → ℕ → p.Db → List DayStats
  get_daily_prayer_stats start_date end_date d =
      daily (λ date x. x.date == date) (λ x. x.is_completed) (p.rows d) start_date end_date

  -- One entry for each of PrayerName.choices.
  pub get_prayer_stats_by_name : ℕ → ℕ → p.Db → List (PrayerName × Stats)
  get_prayer_stats_by_name start_date end_date d =
      map
        (λ name. (
          name,
          stats_of
              (λ x.
                prayer_number x.prayer_name == prayer_number name
                && in_range start_date end_date x.date)
              (λ x. x.is_completed) (p.rows d),
        ))
        (fajr ∷ zhor ∷ asr ∷ magrib ∷ eisha ∷ [])
