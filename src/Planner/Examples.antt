-- ===== src/Planner/Examples.antt =====
-- The planner's theorems at concrete inputs, on tables that are held as lists.
use Prim.Native.Nat.{min}
use daily_scheduler.Base.{
  ◌+◌, ◌-◌, ◌*◌, ◌/◌, ◌≤◌, ◌≡◌, refl, true, false, none, some, List, [], ◌∷◌, arith, count, ltb,
}
use daily_scheduler.Orm.{Table}
use daily_scheduler.Orm.Memory.{list_table}
use daily_scheduler.Planner.Model.{
  PersonalTask, non_negotiable, secondary, fun, PrayerCompletion, fajr, prayed, not_yet, hour,
  minute,
}
use daily_scheduler.Planner.Breaks.{auto_insert_breaks, auto_insert_breaks_late}
use daily_scheduler.Planner.Projects.{
  Project, in_progress, ProjectTask, ProjectSchedule, Run, target_date, visit_weeks,
  generate_schedule, visit_tasks, visit_schedules, active_schedules, mark_scheduled, visit,
  get_end_time,
}
use daily_scheduler.Planner.Projects.Runs.{runs_over, busy, busy-generate_schedule}
use daily_scheduler.Planner.Projects.Weeks.{tried, tried-visit_weeks_first}

abbrev tasks : Table PersonalTask (λ x. x.id)
tasks = list_table (λ x. x.id)

abbrev prayers : Table PrayerCompletion (λ x. x.id)
prayers = list_table (λ x. x.id)

abbrev project_tasks : Table ProjectTask (λ x. x.id)
project_tasks = list_table (λ x. x.id)

abbrev schedules : Table ProjectSchedule (λ x. x.id)
schedules = list_table (λ x. x.id)

-- 9:00 to 10:30 on a Monday.
abbrev writing : PersonalTask
writing = record {
  id = 1;
  title = "Writing";
  description = "";
  date = 701;
  start_time = 9 * hour;
  end_time = 10 * hour + 30 * minute;
  category = non_negotiable;
  is_completed = true;
  is_break = false;
  parent_task = none;
}

-- 10:40 to 12:00 on the same day.
abbrev reading : PersonalTask
reading = record writing {
  id = 2;
  title = "Reading";
  start_time = 10 * hour + 40 * minute;
  end_time = 12 * hour;
  category = secondary;
  is_completed = false;
}

-- 22:00 to 23:55.
abbrev late_film : PersonalTask
late_film = record writing {
  id = 3;
  title = "Film";
  start_time = 22 * hour;
  end_time = 23 * hour + 55 * minute;
  category = fun;
}

abbrev two_tasks : List PersonalTask
two_tasks = writing ∷ reading ∷ []

auto_insert_breaks_late_example :
    count (λ x. ltb x.end_time x.start_time) (auto_insert_breaks tasks late_film (late_film ∷ []))
    ≡ 1 + count (λ x. ltb x.end_time x.start_time) (late_film ∷ [])
auto_insert_breaks_late_example =
    auto_insert_breaks_late tasks late_film (late_film ∷ []) refl (omega arith) (omega arith)
      (omega arith) refl refl

abbrev two_prayers : List PrayerCompletion
two_prayers =
    record {
      id = 1;
      prayer_name = fajr;
      date = 700;
      is_completed = true;
      status = prayed;
      completed_at = some 5;
    }
    ∷ record {
      id = 2;
      prayer_name = fajr;
      date = 701;
      is_completed = false;
      status = not_yet;
      completed_at = none;
    }
    ∷ []

-- A project of three weeks from a Sunday on.
abbrev thesis : Project
thesis = record {
  id = 1;
  title = "Thesis";
  description = "";
  start_date = 700;
  end_date = 720;
  status = in_progress;
}

abbrev chapter : ProjectTask
chapter = record {
  id = 1;
  project = 1;
  title = "Chapter";
  description = "";
  duration_hours = 2 * hour;
  order = 0;
  is_scheduled = false;
}

-- Mondays, 11:00 to 13:00.
abbrev mondays : ProjectSchedule
mondays = record {
  id = 1;
  project_task = 1;
  day_of_week = 0;
  start_time = 11 * hour;
  duration_hours = 2 * hour;
  weeks = 4;
  is_active = true;
}

abbrev monday_schedules : List ProjectSchedule
monday_schedules = mondays ∷ []

abbrev chapters : List ProjectTask
chapters = chapter ∷ []

abbrev before : Run tasks project_tasks
before = record { tasks = two_tasks; project_tasks = chapters; created_count = 0; conflicts = [] }

busy-generate_schedule_example :
    let after =
      (generate_schedule tasks project_tasks schedules thesis
        (1 ∷ [])
        monday_schedules
        two_tasks
        chapters).tasks in
    (count (runs_over tasks project_tasks) (tasks.rows after) ≡ 0)
    × (busy tasks project_tasks 708 (11 * hour) after ≤ 1)
busy-generate_schedule_example =
    busy-generate_schedule tasks project_tasks schedules thesis (1 ∷ []) monday_schedules two_tasks
      chapters 708 (11 * hour) refl refl (omega arith)

-- The first Monday from the start on is the day after it.
tried-visit_weeks_first_example :
    tried tasks project_tasks
      (visit_weeks tasks project_tasks thesis chapter mondays 4 thesis.start_date before)
    ≡ tried tasks project_tasks before + min 4 ((thesis.end_date + 7 - 701) / 7)
tried-visit_weeks_first_example =
    tried-visit_weeks_first tasks project_tasks thesis chapter mondays 4 701 before (omega arith)
      (omega arith) refl

-- The first Monday is taken by `reading`, the two others are free.
mondays_run :
    ((generate_schedule tasks project_tasks schedules thesis
        (1 ∷ [])
        monday_schedules
        two_tasks
        chapters).created_count
      ≡ 2)
    × (count
          (λ x. true)
          (generate_schedule tasks project_tasks schedules thesis
            (1 ∷ [])
            monday_schedules
            two_tasks
            chapters).conflicts
        ≡ 1)
unfolding generate_schedule visit_weeks visit_tasks visit_schedules active_schedules mark_scheduled
    target_date visit get_end_time
mondays_run = (refl, refl)
