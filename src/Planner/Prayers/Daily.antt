-- ===== src/Planner/Prayers/Daily.antt =====
-- What scheduler/views/prayer_views.py shows: get_daily_prayer_completions, for a valid date, and
-- get_prayer_stats, for two dates that parse.
pub mod Shown
pub mod Sums
use daily_scheduler.Base.{
  ℕ, zero, suc, ◌+◌, ◌*◌, ◌≤◌, ◌≡◌, refl, String, Bool, true, false, not, ◌&&◌, Option, none, some,
  List, [], ◌∷◌, map, arith, count, count-and-le, count-split, count-le-length, head?, select,
  length, leb, ltb, ◌==◌, if◌then◌else◌, Bool-cases, inl, inr, ap, ◌∙◌, Memᴰ, false_of_count-zero,
}
use daily_scheduler.Orm.{Table, OrderBy}
use daily_scheduler.Planner.Model.{
  PrayerName, prayer_number, fajr, zhor, asr, magrib, eisha, PrayerCompletion,
  PrayerCompletionStatus, prayed, not_yet, missed, PrayerTable,
}
use daily_scheduler.Planner.Prayers.{
  status_number, status_of, is_record, agrees, found_record, toggle_prayer_completion,
}
use daily_scheduler.Planner.Prayers.Status.{
  agrees-toggle_prayer_completion, status-toggle_prayer_completion,
}
use daily_scheduler.Planner.Prayers.Times.{PrayerSchedule, ScheduleTable}
use daily_scheduler.Planner.Analytics.{in_range}

pub record DailyPrayer : Type 0 where
  pub prayer_name : PrayerName
  pub start_time : ℕ
  pub end_time : ℕ
  pub is_completed : Bool
  pub status : PrayerCompletionStatus

pub record DailyPrayers : Type 0 where
  pub prayers : List DailyPrayer
  pub total_prayers : ℕ
  pub completed_prayers : ℕ

abbrev or_row : Option Bool → Bool → Bool → Option Bool
or_row (some found) passes is_completed = some found
or_row none true is_completed = some is_completed
or_row none false is_completed = none

-- `dict(completions).get(name)`, for the rows of a date: of several rows of a name the last counts.
abbrev dict_get : PrayerName → ℕ → List PrayerCompletion → Option Bool
dict_get name date [] = none
dict_get name date (x ∷ xs) = or_row (dict_get name date xs) (is_record name date x) x.is_completed

abbrev or_false : Option Bool → Bool
or_false none = false
or_false (some b) = b

abbrev status_or_default : Option PrayerCompletion → PrayerCompletionStatus
status_or_default none = not_yet
status_or_default (some completion) = completion.status

-- One group of get_prayer_stats; the percentage is `completed` of `total`.
pub record PrayerGroup : Type 0 where
  pub prayer_name : PrayerName
  pub total : ℕ
  pub completed : ℕ

-- The groups that have a row.
abbrev add_group : PrayerGroup → List PrayerGroup → List PrayerGroup
add_group g gs = if ltb 0 g.total then g ∷ gs else gs

module _ (p : PrayerTable) where
  unfoldable pub daily_prayer : ℕ → p.Db → PrayerSchedule → DailyPrayer
  daily_prayer date f prayer = record {
    prayer_name = prayer.prayer_name;
    start_time = prayer.start_time;
    end_time = prayer.end_time;
    is_completed = or_false (dict_get prayer.prayer_name date (p.rows f));
    status = status_or_default (found_record p prayer.prayer_name date f);
  }

  unfoldable pub get_daily_prayer_completions :
      (s : ScheduleTable) → OrderBy s → ℕ → s.Db → p.Db → DailyPrayers
  unfolding daily_prayer
  get_daily_prayer_completions s o date d f =
      let prayers = map (daily_prayer date f) (o.ordered (λ x. x.start_time) d) in
      record {
        prayers = prayers;
        total_prayers = length prayers;
        completed_prayers = count (λ x. x.is_completed) prayers;
      }

  unfoldable pub prayer_group : ℕ → ℕ → p.Db → PrayerName → PrayerGroup
  prayer_group start_date end_date f name = record {
    prayer_name = name;
    total =
        count
          (λ x.
            in_range start_date end_date x.date
            && prayer_number x.prayer_name == prayer_number name)
          (p.rows f);
    completed =
        count
          (λ x.
            (in_range start_date end_date x.date
              && prayer_number x.prayer_name == prayer_number name)
            && x.is_completed)
          (p.rows f);
  }

  groups_of : ℕ → ℕ → p.Db → List PrayerName → List PrayerGroup
  unfolding prayer_group
  groups_of start_date end_date f [] = []
  groups_of start_date end_date f (name ∷ names) =
      add_group (prayer_group start_date end_date f name) (groups_of start_date end_date f names)

  -- The names in the order of their texts.
  unfoldable pub get_prayer_stats : ℕ → ℕ → p.Db → List PrayerGroup
  unfolding groups_of
  get_prayer_stats start_date end_date f =
      groups_of start_date end_date f (asr ∷ eisha ∷ fajr ∷ magrib ∷ zhor ∷ [])
