-- ===== src/Planner/AnalyticsExamples.antt =====
-- The theorems on the analytics pages at concrete inputs, with a calendar of months of thirty days.
use daily_scheduler.Base.{
  ◌+◌, ◌-◌, ◌*◌, ◌/◌, ◌%◌, ◌≡◌, true, false, none, List, [], ◌∷◌, arith, count, length, ◌==◌, take,
}
use daily_scheduler.Orm.{Table}
use daily_scheduler.Orm.Memory.{list_table}
use daily_scheduler.Planner.Model.{
  PersonalTask, SubTask, PrayerCompletion, fajr, zhor, prayed, missed, non_negotiable, fun, hour,
}
use daily_scheduler.Planner.Analytics.{calculate_completion_stats}
use daily_scheduler.Planner.Analytics.Dates.{
  Months, IsCalendar, get_date_range, IsRangeOf, get_date_range-IsRangeOf,
}
use daily_scheduler.Planner.Analytics.Charts.{get_chart_data_api}
use daily_scheduler.Planner.Analytics.Alerts.{sum_values, get_chart_data_api_total}

abbrev thirty_days : Months
thirty_days = record {
  year = λ date. date / 360;
  month = λ date. date % 360 / 30 + 1;
  first_of = λ year month. year * 360 + (month - 1) * 30;
}

thirty_days-IsCalendar : IsCalendar thirty_days
thirty_days-IsCalendar = record {
  month_bounds = λ date. (omega arith, omega arith);
  in_month = λ date. ground arith;
  in_one_month = λ date y m low high (from, to). ground arith;
}

get_date_range-IsRangeOf_example :
    IsRangeOf thirty_days true 701 (get_date_range thirty_days 701 "month")
get_date_range-IsRangeOf_example =
    get_date_range-IsRangeOf thirty_days thirty_days-IsCalendar 701 "month" (omega arith)

abbrev all_tasks : Table PersonalTask (λ x. x.id)
all_tasks = list_table (λ x. x.id)

abbrev all_subtasks : Table SubTask (λ x. x.id)
all_subtasks = list_table (λ x. x.id)

abbrev all_prayers : Table PrayerCompletion (λ x. x.id)
all_prayers = list_table (λ x. x.id)

abbrev open_task : PersonalTask
open_task = record {
  id = 1;
  title = "Writing";
  description = "";
  date = 701;
  start_time = 9 * hour;
  end_time = 10 * hour;
  category = non_negotiable;
  is_completed = false;
  is_break = false;
  parent_task = none;
}

abbrev two_tasks : List PersonalTask
two_tasks = open_task ∷ record open_task { id = 2; category = fun; is_completed = true } ∷ []

abbrev one_subtask : List SubTask
one_subtask =
    record { id = 1; personal_task = 1; title = "Draft"; is_completed = true; order = 1 } ∷ []

abbrev missed_prayer : PrayerCompletion
missed_prayer = record {
  id = 1;
  prayer_name = fajr;
  date = 702;
  is_completed = false;
  status = missed;
  completed_at = none;
}

abbrev three_prayers : List PrayerCompletion
three_prayers =
    missed_prayer
    ∷ record missed_prayer { id = 2; prayer_name = zhor }
    ∷ record missed_prayer { id = 3; date = 703; is_completed = true; status = prayed }
    ∷ []

get_chart_data_api_total_example :
    let chart =
      get_chart_data_api thirty_days all_tasks all_subtasks all_prayers 701 "week" two_tasks
        one_subtask three_prayers in
    (sum_values (take 6 chart.datasets)
      ≡ (calculate_completion_stats all_tasks 701 707 none two_tasks).total)
    × (count (λ x. length x.values == length chart.labels) chart.datasets ≡ 8)
    × (length chart.labels ≡ 7)
unfolding get_date_range
get_chart_data_api_total_example =
    get_chart_data_api_total thirty_days all_tasks all_subtasks all_prayers 701 "week" two_tasks
      one_subtask three_prayers
