-- ===== src/Planner/Model.antt =====
-- The models of scheduler/models/personal_task.py. A date is its ordinal, as date.toordinal() gives
-- it (1 is a Monday); a time of day is the microseconds since midnight; `auto_now` columns are left
-- out, since no view reads them.
use daily_scheduler.Base.{ℕ, ◌+◌, ◌*◌, ◌%◌, String, Bool, Option, ◌==◌}
use daily_scheduler.Orm.{Table}

abbrev pub minute : ℕ
minute = 60_000_000

abbrev pub hour : ℕ
hour = 60 * minute

abbrev pub day : ℕ
day = 24 * hour

-- date.weekday(): 0 is Monday.
abbrev pub weekday : ℕ → ℕ
weekday date = (date + 6) % 7

pub data TaskCategory : Type 0 where
  non_negotiable secondary fun : TaskCategory

abbrev pub category_number : TaskCategory → ℕ
category_number non_negotiable = 0
category_number secondary = 1
category_number fun = 2

abbrev pub same_category : TaskCategory → TaskCategory → Bool
same_category a b = category_number a == category_number b

pub record PersonalTask : Type 0 where
  pub id : ℕ
  pub title : String
  pub description : String
  pub date : ℕ
  pub start_time : ℕ
  pub end_time : ℕ
  pub category : TaskCategory
  pub is_completed : Bool
  pub is_break : Bool
  pub parent_task : Option ℕ

pub record SubTask : Type 0 where
  pub id : ℕ
  pub personal_task : ℕ
  pub title : String
  pub is_completed : Bool
  pub order : ℕ

pub data PrayerName : Type 0 where
  fajr zhor asr magrib eisha : PrayerName

abbrev pub prayer_number : PrayerName → ℕ
prayer_number fajr = 0
prayer_number zhor = 1
prayer_number asr = 2
prayer_number magrib = 3
prayer_number eisha = 4

pub data PrayerCompletionStatus : Type 0 where
  prayed not_yet missed : PrayerCompletionStatus

pub record PrayerCompletion : Type 0 where
  pub id : ℕ
  pub prayer_name : PrayerName
  pub date : ℕ
  pub is_completed : Bool
  pub status : PrayerCompletionStatus
  pub completed_at : Option ℕ

abbrev pub TaskTable : Type 1
TaskTable = Table PersonalTask (λ t. t.id)

abbrev pub SubTaskTable : Type 1
SubTaskTable = Table SubTask (λ s. s.id)

abbrev pub PrayerTable : Type 1
PrayerTable = Table PrayerCompletion (λ p. p.id)
