-- ===== src/Planner/DayExamples.antt =====
-- The theorems on editing and deleting a task and on the timeline of a day at concrete inputs.
use daily_scheduler.Base.{
  ℕ, ◌*◌, ◌+◌, ◌≡◌, refl, true, false, ◌&&◌, none, some, List, [], ◌∷◌, ◌++◌, map, count, select,
  length, leb, ◌==◌,
}
use daily_scheduler.Base.Sorting.{IsSorted}
use daily_scheduler.Orm.{Table, OrderBy}
use daily_scheduler.Orm.Memory.{list_table, list_order}
use daily_scheduler.Planner.Model.{
  PersonalTask, SubTask, PrayerCompletion, fajr, magrib, non_negotiable, fun, secondary, hour,
  minute,
}
use daily_scheduler.Planner.Forms.{PersonalTaskForm, clean}
use daily_scheduler.Planner.Subtasks.{TaskCompletion, poor}
use daily_scheduler.Planner.Editing.{edit_personal_task, delete_personal_task}
use daily_scheduler.Planner.Editing.Kept.{IsEdited, edit_personal_task-IsEdited}
use daily_scheduler.Planner.Editing.Deleted.{IsDeleted, delete_personal_task-IsDeleted}
use daily_scheduler.Planner.Prayers.Times.{PrayerSchedule}
use daily_scheduler.Planner.Timeline.{
  item_start, prayer_item, task_item, tasks_of, DayView, task_data_view,
}
use daily_scheduler.Planner.Timeline.Ordered.{stats_sum, task_data_view-IsSorted}

abbrev all_tasks : Table PersonalTask (λ x. x.id)
all_tasks = list_table (λ x. x.id)

abbrev tasks_in_order : OrderBy all_tasks
tasks_in_order = list_order (λ x. x.id)

abbrev all_subtasks : Table SubTask (λ x. x.id)
all_subtasks = list_table (λ x. x.id)

abbrev history : Table TaskCompletion (λ x. x.id)
history = list_table (λ x. x.id)

abbrev all_times : Table PrayerSchedule (λ x. x.id)
all_times = list_table (λ x. x.id)

abbrev times_in_order : OrderBy all_times
times_in_order = list_order (λ x. x.id)

abbrev all_prayers : Table PrayerCompletion (λ x. x.id)
all_prayers = list_table (λ x. x.id)

abbrev writing : PersonalTask
writing = record {
  id = 1;
  title = "Writing";
  description = "";
  date = 701;
  start_time = 9 * hour;
  end_time = 10 * hour;
  category = non_negotiable;
  is_completed = false;
  is_break = false;
  parent_task = none;
}

abbrev its_break : PersonalTask
its_break = record writing {
  id = 2;
  start_time = 10 * hour;
  end_time = 10 * hour + 10 * minute;
  category = fun;
  is_break = true;
  parent_task = some 1;
}

abbrev film : PersonalTask
film = record writing { id = 3; start_time = 21 * hour; end_time = 22 * hour; category = fun }

abbrev three_tasks : List PersonalTask
three_tasks = film ∷ its_break ∷ writing ∷ []

abbrev two_subtasks : List SubTask
two_subtasks =
    record { id = 1; personal_task = 1; title = "Draft"; is_completed = true; order = 1 }
    ∷ record { id = 2; personal_task = 3; title = "Tickets"; is_completed = false; order = 1 }
    ∷ []

abbrev one_completion : List TaskCompletion
one_completion = record { id = 1; task = 1; is_completed = true; performance_rating = poor } ∷ []

-- The task now ends at noon.
abbrev longer : PersonalTaskForm
longer = record {
  title = "Writing";
  description = "";
  date = 701;
  start_time = 9 * hour;
  end_time = 12 * hour;
  category = secondary;
}

longer_fine : clean all_tasks 700 longer three_tasks ≡ none
unfolding clean
longer_fine = refl

edit_personal_task-IsEdited_example :
    IsEdited all_tasks all_subtasks history 1 longer
      (three_tasks, two_subtasks, one_completion)
      (edit_personal_task all_tasks all_subtasks history 700 1 longer
        (some (("Outline", 1) ∷ []))
        (three_tasks, two_subtasks, one_completion))
edit_personal_task-IsEdited_example =
    edit_personal_task-IsEdited all_tasks all_subtasks history 700 1 longer
      (some (("Outline", 1) ∷ [])) three_tasks two_subtasks one_completion

delete_personal_task-IsDeleted_example :
    IsDeleted all_tasks all_subtasks history 1
      (three_tasks, two_subtasks, one_completion)
      (delete_personal_task all_tasks all_subtasks history 1
        (three_tasks, two_subtasks, one_completion))
delete_personal_task-IsDeleted_example =
    delete_personal_task-IsDeleted all_tasks all_subtasks history 1 three_tasks two_subtasks
      one_completion

only_film_left :
    delete_personal_task all_tasks all_subtasks history 1
      (three_tasks, two_subtasks, one_completion)
    ≡ some (
      film ∷ [],
      record { id = 2; personal_task = 3; title = "Tickets"; is_completed = false; order = 1 } ∷ [],
      [],
    )
unfolding delete_personal_task
only_film_left = refl

abbrev two_times : List PrayerSchedule
two_times =
    record { id = 1; prayer_name = magrib; start_time = 21 * hour; end_time = 22 * hour }
    ∷ record { id = 2; prayer_name = fajr; start_time = 5 * hour; end_time = 6 * hour }
    ∷ []

abbrev no_prayers : List PrayerCompletion
no_prayers = []

abbrev shown_day : DayView
shown_day =
    task_data_view all_tasks tasks_in_order all_times times_in_order all_prayers 701 three_tasks
      two_times no_prayers

task_data_view-IsSorted_example :
    IsSorted item_start shown_day.timeline_items
    × ((time : ℕ)
        → select (λ x. item_start x == time) shown_day.timeline_items
          ≡ select
              (λ x. item_start x == time)
              (map
                  (prayer_item all_prayers 701 no_prayers)
                  (times_in_order.ordered (λ x. x.start_time) two_times)
                ++ map task_item (tasks_of all_tasks tasks_in_order 701 three_tasks)))
    × (length shown_day.late_tasks
        ≡ count (λ x. x.date == 701 && leb (20 * hour) x.start_time) three_tasks)
    × (stats_sum shown_day.task_stats ≡ count (λ x. x.date == 701) three_tasks)
task_data_view-IsSorted_example =
    task_data_view-IsSorted all_tasks tasks_in_order all_times times_in_order all_prayers 701
      three_tasks two_times no_prayers
