-- ===== src/Planner/Projects.antt =====
-- The recurring tasks of a project: generate_schedule of scheduler/views/project_views.py.
pub mod Dates
pub mod Runs
pub mod Weeks
pub mod Editing
use Prim.Native.String.{◌++◌ as ◌+++◌}
use daily_scheduler.Base.{
  ℕ, zero, suc, ◌+◌, ◌-◌, ◌%◌, String, Bool, true, false, not, ◌&&◌, ◌||◌, none, List, [], ◌∷◌,
  ◌++◌, count, select, leb, ltb, ◌==◌, if◌then◌else◌,
}
use daily_scheduler.Orm.{Table, exists}
use daily_scheduler.Planner.Model.{PersonalTask, TaskTable, non_negotiable, day, weekday}
use daily_scheduler.Planner.Breaks.{overlaps}

pub data ProjectStatus : Type 0 where
  planned in_progress completed on_hold : ProjectStatus

pub record Project : Type 0 where
  pub id : ℕ
  pub title : String
  pub description : String
  pub start_date : ℕ
  pub end_date : ℕ
  pub status : ProjectStatus

-- A duration in hours is its microseconds, as timedelta(hours=…) gives them, and not negative.
pub record ProjectTask : Type 0 where
  pub id : ℕ
  pub project : ℕ
  pub title : String
  pub description : String
  pub duration_hours : ℕ
  pub order : ℕ
  pub is_scheduled : Bool

pub record ProjectSchedule : Type 0 where
  pub id : ℕ
  pub project_task : ℕ
  pub day_of_week : ℕ
  pub start_time : ℕ
  pub duration_hours : ℕ
  pub weeks : ℕ
  pub is_active : Bool

-- ProjectSchedule.get_end_time, which the loop computes once more.
unfoldable pub get_end_time : ProjectSchedule → ℕ
get_end_time schedule = (schedule.start_time + schedule.duration_hours) % day

pub record Conflict : Type 0 where
  pub task : String
  pub date : ℕ
  pub from : ℕ
  pub to : ℕ

-- The next occurrence of the schedule's day of the week, from `current_date` on.
unfoldable pub target_date : ℕ → ℕ → ℕ → ℕ
target_date start_date day_of_week current_date =
    let days_ahead = (day_of_week + 7 - weekday current_date) % 7 in
    if days_ahead == 0 && not (current_date == start_date)
    then current_date + 7
    else current_date + days_ahead

module _ (t : TaskTable) (pt : Table ProjectTask (λ x. x.id)) where
  -- What the view has done so far.
  pub record Run : Type 0 where
    pub tasks : t.Db
    pub project_tasks : pt.Db
    pub created_count : ℕ
    pub conflicts : List Conflict

  -- The lookup of the rows in the way: the same date, an overlapping time, and no break.
  abbrev pub in_the_way : ProjectSchedule → ℕ → PersonalTask → Bool
  in_the_way schedule target x =
      overlaps target schedule.start_time (get_end_time schedule) x && not x.is_break

  abbrev pub planned_row : Project → ProjectTask → ProjectSchedule → ℕ → ℕ → PersonalTask
  planned_row project task schedule target id = record {
    id = id;
    title = ◌+++◌ "📊 " (◌+++◌ project.title (◌+++◌ ": " task.title));
    description = ◌+++◌ "Project task for " project.title;
    date = target;
    start_time = schedule.start_time;
    end_time = get_end_time schedule;
    category = non_negotiable;
    is_completed = false;
    is_break = false;
    parent_task = none;
  }

  module _ (project : Project) (task : ProjectTask) (schedule : ProjectSchedule) where
    -- One date: a conflict is noted, or the task is created.
    unfoldable pub visit : ℕ → Run → Run
    visit target r =
        if exists t (in_the_way schedule target) r.tasks
        then record r {
          conflicts =
              r.conflicts
              ++ record {
                task = task.title;
                date = target;
                from = schedule.start_time;
                to = get_end_time schedule;
              }
                ∷ [];
        }
        else record r {
          tasks = t.insert (planned_row project task schedule target (t.next_id r.tasks)) r.tasks;
          created_count = r.created_count + 1;
        }

    -- The `while` loop, by recursion on `schedule.weeks - week_count`.
    unfoldable pub visit_weeks : ℕ → ℕ → Run → Run
    visit_weeks zero current_date r = r
    visit_weeks (suc left) current_date r =
        let target = target_date project.start_date schedule.day_of_week current_date in
        let rest = visit_weeks left (target + 1) (visit target r) in
        if leb current_date project.end_date
        then (if ltb project.end_date target then r else rest)
        else r

  -- `project_task.is_scheduled = True; project_task.save()`
  unfoldable pub mark_scheduled : ProjectTask → Run → Run
  mark_scheduled task r = record r {
    project_tasks = pt.update (record task { is_scheduled = true }) r.project_tasks;
  }

  -- The loop over the active schedules of one task.
  unfoldable pub visit_schedules : Project → ProjectTask → List ProjectSchedule → Run → Run
  visit_schedules project task [] r = r
  visit_schedules project task (schedule ∷ rest) r =
      visit_schedules project task rest (
        mark_scheduled task (visit_weeks project task schedule schedule.weeks project.start_date r))

  module _ (s : Table ProjectSchedule (λ x. x.id)) where
    unfoldable pub active_schedules : ProjectTask → s.Db → List ProjectSchedule
    active_schedules task d = select (λ x. x.project_task == task.id && x.is_active) (s.rows d)

    unfoldable pub visit_tasks : Project → s.Db → List ProjectTask → Run → Run
    visit_tasks project d [] r = r
    visit_tasks project d (task ∷ rest) r =
        visit_tasks project d rest (visit_schedules project task (active_schedules task d) r)

    abbrev member : ℕ → List ℕ → Bool
    member n [] = false
    member n (x ∷ xs) = x == n || member n xs

    -- generate_schedule, for the project and the `task_ids` of the request.
    unfoldable pub generate_schedule : Project → List ℕ → s.Db → t.Db → pt.Db → Run
    generate_schedule project task_ids d tasks project_tasks =
        visit_tasks project d
          (select (λ x. x.project == project.id && member x.id task_ids) (pt.rows project_tasks))
          (record {
            tasks = tasks;
            project_tasks = project_tasks;
            created_count = 0;
            conflicts = [];
          })
