-- ===== src/Planner/Analytics/Charts.antt =====
-- The data of the charts: get_chart_data_api, get_subtask_chart_data_api and
-- get_prayer_chart_data_api of scheduler/views/analytics_views.py. A day's label is its weekday; the
-- line width, the tension and the fill, which are the same for all data sets, are left out.
use daily_scheduler.Base.{ℕ, String, some, List, [], ◌∷◌, map}
use daily_scheduler.Planner.Model.{
  TaskTable, SubTaskTable, PrayerTable, non_negotiable, secondary, fun, weekday,
}
use daily_scheduler.Planner.Analytics.{
  DayStats, get_daily_stats, get_daily_subtask_stats, get_daily_prayer_stats,
}
use daily_scheduler.Planner.Analytics.Dates.{Months, get_date_range}

pub record Dataset : Type 0 where
  pub label : String
  pub values : List ℕ
  pub border_color : String
  pub background_color : String

pub record Chart : Type 0 where
  pub labels : List ℕ
  pub datasets : List Dataset

abbrev pub labels_of : List DayStats → List ℕ
labels_of items = map (λ item. weekday item.date) items

abbrev pub completed_of : List DayStats → List ℕ
completed_of items = map (λ item. item.stats.completed) items

abbrev pub incomplete_of : List DayStats → List ℕ
incomplete_of items = map (λ item. item.stats.incomplete) items

abbrev dataset : String → List ℕ → String → String → Dataset
dataset label values border_color background_color = record {
  label = label;
  values = values;
  border_color = border_color;
  background_color = background_color;
}

unfoldable pub chart_data :
    List DayStats → List DayStats → List DayStats → List DayStats → List DayStats → Chart
chart_data non_negotiable_daily secondary_daily fun_daily subtask_daily prayer_daily = record {
  labels = labels_of non_negotiable_daily;
  datasets =
      dataset "Non-Negotiable Completed" (completed_of non_negotiable_daily) "#10b981"
        "rgba(16, 185, 129, 0.1)"
      ∷ dataset "Non-Negotiable Incomplete" (incomplete_of non_negotiable_daily) "#ef4444"
          "rgba(239, 68, 68, 0.1)"
      ∷ dataset "Secondary Completed" (completed_of secondary_daily) "#0ea5e9"
          "rgba(14, 165, 233, 0.1)"
      ∷ dataset "Secondary Incomplete" (incomplete_of secondary_daily) "#f59e0b"
          "rgba(245, 158, 11, 0.1)"
      ∷ dataset "Fun Completed" (completed_of fun_daily) "#a78bfa" "rgba(167, 139, 250, 0.1)"
      ∷ dataset "Fun Incomplete" (incomplete_of fun_daily) "#9ca3af" "rgba(156, 163, 175, 0.1)"
      ∷ dataset "Sub-tasks Completed" (completed_of subtask_daily) "#ec4899"
          "rgba(236, 72, 153, 0.1)"
      ∷ dataset "Prayers Completed" (completed_of prayer_daily) "#8b5cf6" "rgba(139, 92, 246, 0.1)"
      ∷ [];
}

unfoldable pub two_lines : String → String → List DayStats → Chart
two_lines completed_label incomplete_label items = record {
  labels = labels_of items;
  datasets =
      dataset completed_label (completed_of items) "#10b981" "rgba(16, 185, 129, 0.1)"
      ∷ dataset incomplete_label (incomplete_of items) "#ef4444" "rgba(239, 68, 68, 0.1)"
      ∷ [];
}

module _ (c : Months) where
  module _ (t : TaskTable) (s : SubTaskTable) where
    unfoldable pub get_chart_data_api : (p : PrayerTable) → ℕ → String → t.Db → s.Db → p.Db → Chart
    unfolding chart_data
    get_chart_data_api p today filter_type d e f =
        let (start_date, end_date) = get_date_range c today filter_type in
        chart_data (get_daily_stats t start_date end_date (some non_negotiable) d)
          (get_daily_stats t start_date end_date (some secondary) d)
          (get_daily_stats t start_date end_date (some fun) d)
          (get_daily_subtask_stats t s start_date end_date d e)
          (get_daily_prayer_stats p start_date end_date f)

    unfoldable pub get_subtask_chart_data_api : ℕ → String → t.Db → s.Db → Chart
    unfolding two_lines
    get_subtask_chart_data_api today filter_type d e =
        let (start_date, end_date) = get_date_range c today filter_type in
        two_lines "Sub-tasks Completed" "Sub-tasks Incomplete"
          (get_daily_subtask_stats t s start_date end_date d e)

  unfoldable pub get_prayer_chart_data_api : (p : PrayerTable) → ℕ → String → p.Db → Chart
  unfolding two_lines
  get_prayer_chart_data_api p today filter_type f =
      let (start_date, end_date) = get_date_range c today filter_type in
      two_lines "Prayers Completed" "Prayers Incomplete"
        (get_daily_prayer_stats p start_date end_date f)
