-- ===== src/Tasks/Examples.antt =====
-- The theorems on tasks at concrete inputs.
use daily_scheduler.Base.{
  str_eq, if◌then◌else◌, ℕ, Bool, ◌≡◌, refl, true, false, none, some, [], ◌∷◌, arith,
}
use daily_scheduler.Jobs.Model.{JobModel, default_configuration}
use daily_scheduler.Jobs.Memory.{memory}
use daily_scheduler.Jobs.Store.{empty_store, find_first}
use daily_scheduler.Jobs.Examples.{quiet, waiting_job}
use daily_scheduler.Tasks.Model.{
  Task, repeatable, hours, Environment, done, interval_seconds, schedule_time,
}
use daily_scheduler.Tasks.Times.{IsMoved, schedule_time-IsMoved}
use daily_scheduler.Tasks.Ready.{IsReady}
use daily_scheduler.Tasks.Saving.{schedule, get_task_for_job, success_callback}
use daily_scheduler.Tasks.Rows.{Texts, World, find_task}
use daily_scheduler.Tasks.Settled.{Schedules}
use daily_scheduler.Tasks.Scheduling.{schedule-Schedules}
use daily_scheduler.Tasks.Callbacks.{IsCounted, success_callback-IsCounted}

abbrev any_environment : Environment
any_environment = record {
  is_cron = λ s. true;
  next_cron = λ s now. some now;
  is_callable = λ s. true;
  queue_names = "default" ∷ [];
  scheduler_interval = 10;
}

abbrev some_texts : Texts
some_texts = record {
  type_text = λ t. "RepeatableTaskType";
  next_job_id = λ q id now. "default:1:next";
  meta_text = λ m. "";
  args_text = λ t id. "";
  call_text = λ t id. "run_task()";
  async_of = λ q. if str_eq q "default" then some true else none;
}

-- Every hour, five times more, from 1000 on.
abbrev hourly : Task
hourly = record {
  id = 1;
  name = "report";
  task_type = repeatable;
  callable = "tests.report";
  enabled = true;
  queue = "default";
  job_name = none;
  at_front = false;
  timeout = none;
  result_ttl = none;
  failed_runs = 0;
  successful_runs = 2;
  last_successful_run = none;
  last_failed_run = none;
  interval = some 1;
  interval_unit = some hours;
  repeat = some 5;
  scheduled_time = some 1000;
  cron_string = none;
}

every_hour : interval_seconds hourly ≡ done 3600
unfolding interval_seconds
every_hour = refl

hourly-IsReady : IsReady any_environment 5000 repeatable hourly
hourly-IsReady = (1000, 3600, refl, every_hour, omega arith)

-- At 5000 the task is put off by two hours.
schedule_time-IsMoved_example :
    (time : ℕ) × (task' : Task) × (schedule_time any_environment 5000 hourly ≡ done (time, task'))
    × (task'.scheduled_time ≡ some time)
    × IsMoved hourly task' 5000 1000 3600
schedule_time-IsMoved_example =
    schedule_time-IsMoved any_environment 5000 1000 3600 hourly refl refl every_hour (omega arith)
      (omega arith) refl

abbrev one_row : World memory
one_row = record { conn = empty_store; rows = hourly ∷ [] }

no_hash : memory.hgetall "default:1:next" empty_store ≡ none
unfolding find_first
no_hash = refl

schedule-Schedules_example :
    (did : Bool) × (task' : Task) × (w' : World memory) × (schedule memory quiet
        default_configuration some_texts any_environment 5000 hourly one_row
      ≡ done (did, task', w'))
    × Schedules memory quiet default_configuration some_texts any_environment 5000 hourly one_row
        did task' w'
schedule-Schedules_example =
    schedule-Schedules memory quiet default_configuration some_texts any_environment 5000 hourly
      one_row true refl hourly-IsReady no_hash

abbrev job_of_task : JobModel
job_of_task = record waiting_job {
  task_type = some "RepeatableTaskType";
  scheduled_task_id = some 1;
}

the_task :
    get_task_for_job memory quiet default_configuration some_texts any_environment job_of_task
      one_row
    ≡ some hourly
unfolding get_task_for_job find_task
the_task = refl

success_callback-IsCounted_example :
    (row : Task) × (w' : World memory) × (success_callback memory quiet default_configuration
        some_texts any_environment 5000 job_of_task one_row
      ≡ done w')
    × IsCounted memory quiet default_configuration some_texts any_environment 5000 3 0 1 row w'
success_callback-IsCounted_example =
    success_callback-IsCounted memory quiet default_configuration some_texts any_environment 5000
      job_of_task hourly one_row true the_task refl hourly-IsReady no_hash
