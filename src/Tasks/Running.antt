-- ===== src/Tasks/Running.antt =====
-- Finding the task that a job is to run, and rescheduling all tasks: get_scheduled_task of
-- scheduler/models/task.py, and _reschedule_tasks of scheduler/worker/scheduler.py.
use daily_scheduler.Base.{
  ℕ, String, Bool, true, false, ◌&&◌, Option, none, some, List, [], ◌∷◌, select, str_eq, ◌==◌,
  if◌then◌else◌,
}
use daily_scheduler.Jobs.Model.{SchedulerConfiguration}
use daily_scheduler.Jobs.Broker.{Broker}
use daily_scheduler.Jobs.Queue.{UserCode}
use daily_scheduler.Tasks.Model.{
  Task, TaskType, cron, repeatable, once, Environment, Run, done, ◌>>=◌,
}
use daily_scheduler.Tasks.Rows.{Texts, World}
use daily_scheduler.Tasks.Saving.{save}

-- TaskType(task_type_str)
unfoldable pub task_type_of : String → Option TaskType
task_type_of s =
    if str_eq s "CronTaskType"
    then some cron
    else if str_eq s "RepeatableTaskType"
    then some repeatable
    else if str_eq s "OnceTaskType"
    then some once
    else none

abbrev pub same_type : TaskType → TaskType → Bool
same_type cron cron = true
same_type repeatable repeatable = true
same_type once once = true
same_type _ _ = false

-- The task, or one of the two ValueErrors.
pub data FoundTask : Type 0 where
  found : Task → FoundTask
  no_such_type no_such_task : FoundTask

unfoldable pub first_task : TaskType → ℕ → List Task → FoundTask
first_task type id [] = no_such_task
first_task type id (t ∷ ts) =
    let rest = first_task type id ts in
    if same_type t.task_type type && t.id == id then found t else rest

unfoldable pub task_of_type : Option TaskType → ℕ → List Task → FoundTask
unfolding first_task
task_of_type none id rows = no_such_type
task_of_type (some type) id rows = first_task type id rows

-- get_scheduled_task
unfoldable pub get_scheduled_task : String → ℕ → List Task → FoundTask
unfolding task_of_type task_type_of
get_scheduled_task task_type_str id rows = task_of_type (task_type_of task_type_str) id rows

module _ (b : Broker) (u : UserCode b) (config : SchedulerConfiguration) (texts : Texts)
    (env : Environment) where
  unfoldable pub reschedule : ℕ → List Task → World b → Run (World b)
  reschedule now [] w = done w
  reschedule now (task ∷ tasks) w =
      save b u config texts env false true now task w >>= λ (task', w'). reschedule now tasks w'

  -- _reschedule_tasks
  unfoldable pub reschedule_tasks : ℕ → World b → Run (World b)
  unfolding reschedule
  reschedule_tasks now w = reschedule now (select (λ t. t.enabled) w.rows) w
