-- ===== src/Planner/Timeline.antt =====
-- The pages and lists of a day's tasks: task_data_view, get_category_icon, get_tasks_by_date_api,
-- get_task_subtasks and get_yesterday_tasks of scheduler/views/personal_task_views.py, for valid
-- dates. The display texts of names and dates are left out. Without an `order_by` the lists come in the
-- order of the models' `ordering`.
pub mod Ordered
use daily_scheduler.Base.{
  ℕ, ◌+◌, ◌-◌, ◌*◌, ◌/◌, ◌≤◌, ◌≡◌, String, Bool, true, false, not, ◌&&◌, Option, none, some, List,
  [], ◌∷◌, ◌++◌, map, arith, count, head?, select, length, leb, ltb, ◌==◌, if◌then◌else◌,
}
use daily_scheduler.Base.Sorting.{sort_by}
use daily_scheduler.Orm.{OrderBy, with_id}
use daily_scheduler.Planner.Model.{
  PersonalTask, TaskTable, SubTask, SubTaskTable, TaskCategory, non_negotiable, secondary, fun,
  same_category, PrayerName, PrayerCompletion, PrayerTable, hour, minute,
}
use daily_scheduler.Planner.Prayers.{found_record}
use daily_scheduler.Planner.Prayers.Times.{PrayerSchedule, ScheduleTable}
use daily_scheduler.Planner.Subtasks.{PerformanceRating, get_performance_rating}

unfoldable pub get_category_icon : TaskCategory → String
get_category_icon non_negotiable = "⭐"
get_category_icon secondary = "📋"
get_category_icon fun = "🎉"

pub record PrayerItem : Type 0 where
  pub prayer_name : PrayerName
  pub start_time : ℕ
  pub end_time : ℕ
  pub is_completed : Bool

pub record TaskItem : Type 0 where
  pub id : ℕ
  pub title : String
  pub description : String
  pub start_time : ℕ
  pub end_time : ℕ
  pub category : TaskCategory
  pub is_completed : Bool
  pub icon : String

pub data TimelineItem : Type 0 where
  prayer : PrayerItem → TimelineItem
  task : TaskItem → TimelineItem

abbrev pub item_start : TimelineItem → ℕ
item_start (prayer x) = x.start_time
item_start (task x) = x.start_time

abbrev pub is_task : TimelineItem → Bool
is_task (prayer x) = false
is_task (task x) = true

abbrev pub is_late : TimelineItem → Bool
is_late item = leb (20 * hour) (item_start item) && is_task item

pub record TaskStats : Type 0 where
  pub non_negotiable_count : ℕ
  pub secondary_count : ℕ
  pub fun_count : ℕ

pub record DayView : Type 0 where
  pub timeline_items : List TimelineItem
  pub late_tasks : List TimelineItem
  pub task_stats : TaskStats

abbrev was_completed : Option PrayerCompletion → Bool
was_completed none = false
was_completed (some completion) = completion.is_completed

unfoldable pub prayer_item : (p : PrayerTable) → ℕ → p.Db → PrayerSchedule → TimelineItem
prayer_item p date f x = prayer (record {
  prayer_name = x.prayer_name;
  start_time = x.start_time;
  end_time = x.end_time;
  is_completed = was_completed (found_record p x.prayer_name date f);
})

unfoldable pub task_item : PersonalTask → TimelineItem
task_item x = task (record {
  id = x.id;
  title = x.title;
  description = x.description;
  start_time = x.start_time;
  end_time = x.end_time;
  category = x.category;
  is_completed = x.is_completed;
  icon = get_category_icon x.category;
})

-- An entry of get_tasks_by_date_api.
pub record TaskValues : Type 0 where
  pub id : ℕ
  pub title : String
  pub start_time : ℕ
  pub end_time : ℕ
  pub category : TaskCategory
  pub is_completed : Bool

-- An entry of get_yesterday_tasks; its times are the texts of hours and minutes, here in minutes.
pub record YesterdayTask : Type 0 where
  pub id : ℕ
  pub title : String
  pub description : String
  pub start_minutes : ℕ
  pub end_minutes : ℕ
  pub category : TaskCategory

module _ (t : TaskTable) (o : OrderBy t) where
  -- PersonalTask.objects.filter(date=date).order_by("start_time")
  abbrev pub tasks_of : ℕ → t.Db → List PersonalTask
  tasks_of date d = select (λ x. x.date == date) (o.ordered (λ x. x.start_time) d)

  unfoldable pub task_stats_of : ℕ → t.Db → TaskStats
  task_stats_of date d =
      let of = λ (c : TaskCategory).
        count (λ x. x.date == date && same_category x.category c) (t.rows d) in
      record {
        non_negotiable_count = of non_negotiable;
        secondary_count = of secondary;
        fun_count = of fun;
      }

  unfoldable pub task_data_view :
      (s : ScheduleTable) → OrderBy s → (p : PrayerTable) → ℕ → t.Db → s.Db → p.Db → DayView
  unfolding task_stats_of
  task_data_view s times p date d e f =
      let items = sort_by item_start (
        map (prayer_item p date f) (times.ordered (λ x. x.start_time) e)
        ++ map task_item (tasks_of date d)) in
      record {
        timeline_items = items;
        late_tasks = select is_late items;
        task_stats = task_stats_of date d;
      }

  unfoldable pub get_tasks_by_date_api : ℕ → t.Db → List TaskValues
  get_tasks_by_date_api date d =
      map
        (λ (x : PersonalTask). record {
          id = x.id;
          title = x.title;
          start_time = x.start_time;
          end_time = x.end_time;
          category = x.category;
          is_completed = x.is_completed;
        })
        (tasks_of date d)

  unfoldable pub get_yesterday_tasks : ℕ → t.Db → List YesterdayTask
  get_yesterday_tasks current_date d =
      map
        (λ (x : PersonalTask). record {
          id = x.id;
          title = x.title;
          description = x.description;
          start_minutes = x.start_time / minute;
          end_minutes = x.end_time / minute;
          category = x.category;
        })
        (tasks_of (current_date - 1) d)

  module _ (s : SubTaskTable) (so : OrderBy s) where
    unfoldable pub found_subtasks :
        Option PersonalTask → s.Db → Option (List SubTask × PerformanceRating × ℕ)
    found_subtasks none e = none
    found_subtasks (some found) e =
        let subtasks = select (λ x. x.personal_task == found.id) (so.ordered (λ x. x.order) e) in
        some (subtasks, get_performance_rating s found.id e, length subtasks)

    -- The subtasks, the rating and the number of subtasks, none where there is no such task.
    unfoldable pub get_task_subtasks :
        ℕ → t.Db → s.Db → Option (List SubTask × PerformanceRating × ℕ)
    unfolding found_subtasks
    get_task_subtasks task_id d e = found_subtasks (with_id t task_id d) e
