-- ===== src/Planner/EditingExamples.antt =====
-- A schedule added to a project's task, at concrete inputs.
use daily_scheduler.Base.{true, List, [], ◌∷◌, arith}
use daily_scheduler.Orm.{Table}
use daily_scheduler.Orm.Memory.{list_table}
use daily_scheduler.Planner.Projects.{ProjectTask, ProjectSchedule}
use daily_scheduler.Planner.Projects.Editing.{
  IsUnique, IsPlanned, create_schedule, create_schedule-IsPlanned,
}

abbrev all_tasks : Table ProjectTask (λ x. x.id)
all_tasks = list_table (λ x. x.id)

abbrev all_schedules : Table ProjectSchedule (λ x. x.id)
all_schedules = list_table (λ x. x.id)

-- The task 1 is planned for Mondays.
abbrev on_mondays : List ProjectSchedule
on_mondays =
    record {
      id = 1;
      project_task = 1;
      day_of_week = 0;
      start_time = 0;
      duration_hours = 3600000000;
      weeks = 2;
      is_active = true;
    }
    ∷ []

on_mondays-IsUnique : IsUnique all_tasks all_schedules on_mondays
on_mondays-IsUnique = λ task day. ground arith

create_schedule-IsPlanned_example :
    IsPlanned all_tasks all_schedules 1 2 on_mondays
      (create_schedule all_tasks all_schedules 1 2 0 3600000000 4 on_mondays)
create_schedule-IsPlanned_example =
    create_schedule-IsPlanned all_tasks all_schedules 1 2 0 3600000000 4 on_mondays
      on_mondays-IsUnique
