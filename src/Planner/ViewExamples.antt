-- ===== src/Planner/ViewExamples.antt =====
-- The theorems on the pages of the planner at concrete inputs, on tables that are held as lists.
use daily_scheduler.Base.{
  ◌+◌, ℕ, length, Option, ◌*◌, ◌≤◌, ◌≡◌, refl, true, false, ◌&&◌, not, none, some, List, [], ◌∷◌,
  arith, count, ◌==◌,
}
use daily_scheduler.Orm.{Table}
use daily_scheduler.Orm.Memory.{list_table}
use daily_scheduler.Planner.Model.{
  PersonalTask, non_negotiable, SubTask, PrayerCompletion, fajr, not_yet, hour,
}
use daily_scheduler.Planner.Forms.{
  PersonalTaskForm, is_non_negotiable_on, create_personal_task, create_personal_task_limit,
}
use daily_scheduler.Planner.Copying.{
  TaskOverride, at, copy_tasks_from_yesterday, copy_all, copy_found, copy_timed, override_times,
  overridden, copy_subtasks,
}
use daily_scheduler.Planner.Copying.Counts.{copy_tasks_from_yesterday_counts}
use daily_scheduler.Planner.Subtasks.{create_subtask}

abbrev task_table : Table PersonalTask (λ x. x.id)
task_table = list_table (λ x. x.id)

abbrev subtask_table : Table SubTask (λ x. x.id)
subtask_table = list_table (λ x. x.id)

abbrev prayer_table : Table PrayerCompletion (λ x. x.id)
prayer_table = list_table (λ x. x.id)

abbrev form : PersonalTaskForm
form = record {
  title = "Writing";
  description = "";
  date = 701;
  start_time = 9 * hour;
  end_time = 11 * hour;
  category = non_negotiable;
}

create_personal_task_limit_example :
    let (error, d, e) =
      create_personal_task task_table subtask_table 700 form (("Outline", 1) ∷ []) [] [] in
    count (is_non_negotiable_on 701) d ≤ 3
create_personal_task_limit_example =
    create_personal_task_limit task_table subtask_table 700 form (("Outline", 1) ∷ []) [] [] 701
      (omega arith)

abbrev morning : PrayerCompletion
morning = record {
  id = 1;
  prayer_name = fajr;
  date = 701;
  is_completed = false;
  status = not_yet;
  completed_at = none;
}

abbrev prayers_of_day : List PrayerCompletion
prayers_of_day = morning ∷ []

abbrev outline : SubTask
outline = record { id = 1; personal_task = 4; title = "Outline"; is_completed = false; order = 1 }

abbrev draft : SubTask
draft = record outline { id = 2; title = "Draft"; order = 2 }

abbrev two_subtasks : List SubTask
two_subtasks = outline ∷ draft ∷ []

abbrev three_subtasks : List SubTask
three_subtasks = record outline { id = 3; title = "Review"; order = 3 } ∷ two_subtasks

three_created : create_subtask subtask_table 4 "Review" two_subtasks ≡ some three_subtasks
unfolding create_subtask
three_created = refl

-- Yesterday's tasks: one that is copied at another time, and none under the id 9.
abbrev reading : PersonalTask
reading = record {
  id = 1;
  title = "Reading";
  description = "";
  date = 700;
  start_time = 9 * hour;
  end_time = 10 * hour;
  category = non_negotiable;
  is_completed = true;
  is_break = false;
  parent_task = none;
}

abbrev yesterday_tasks : List PersonalTask
yesterday_tasks = reading ∷ []

abbrev later : ℕ → Option TaskOverride
later task_id = some (record { start_time = at (11 * hour); end_time = at (12 * hour) })

copy_tasks_from_yesterday_counts_example :
    let c =
      copy_tasks_from_yesterday task_table subtask_table 700 later
        (1 ∷ 9 ∷ [])
        yesterday_tasks
        [] in
    (length c.copied_tasks + length c.errors ≡ 2)
    × (count (λ x. x.date == 700 + 1) c.tasks
        ≡ count (λ x. x.date == 700 + 1) yesterday_tasks + length c.copied_tasks)
    × (count (λ x. x.is_completed && not (x.date == 700 + 1)) c.tasks
        ≡ count (λ x. x.is_completed && not (x.date == 700 + 1)) yesterday_tasks)
copy_tasks_from_yesterday_counts_example =
    copy_tasks_from_yesterday_counts task_table subtask_table 700 later (1 ∷ 9 ∷ []) yesterday_tasks
      [] (λ x. x.is_completed)

-- One is copied.
one_copied :
    length
      (copy_tasks_from_yesterday task_table subtask_table 700 later
        (1 ∷ 9 ∷ [])
        yesterday_tasks
        []).copied_tasks
    ≡ 1
unfolding copy_tasks_from_yesterday copy_all copy_found copy_timed override_times overridden
    copy_subtasks
one_copied = refl
