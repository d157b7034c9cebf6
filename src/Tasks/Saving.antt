-- ===== src/Tasks/Saving.antt =====
-- Scheduling, saving and deleting a Task, and the callbacks of its jobs: scheduler/models/task.py. A
-- method takes the task as it is in memory and the world, and returns both as they are after it.
-- `now` is the reading of the clock during the call. A job's names, arguments and metadata are
-- texts, made by the functions of Texts; the mail to the admins, the times of
-- creation and change, and the list of fields to update are left out.
use daily_scheduler.Base.{
  ℕ, suc, String, Bool, true, false, not, ◌||◌, Option, none, some, ltb, if◌then◌else◌,
}
use daily_scheduler.Base.Int.{ℤ, pos, eqb_ℤ}
use daily_scheduler.Jobs.Model.{JobModel, Registry, SchedulerConfiguration, Callback}
use daily_scheduler.Jobs.Broker.{Broker}
use daily_scheduler.Jobs.Job.{JobRequest}
use daily_scheduler.Jobs.Queue.{Queue, UserCode, Result, delete_job, create_and_enqueue_job}
use daily_scheduler.Tasks.Rows.{Texts, World, find_task, store_task, remove_task}
use daily_scheduler.Tasks.Model.{
  Task, TaskType, cron, repeatable, once, Environment, Run, done, TaskError, ◌>>=◌,
  interval_seconds, schedule_time, clean,
}

-- A timeout that counts as true.
unfoldable pub true_timeout : Option ℤ → Option ℤ
true_timeout none = none
true_timeout (some t) = if eqb_ℤ t (pos 0) then none else some t

unfoldable pub task_meta : TaskType → Task → Run (Option (ℕ × Option ℕ))
task_meta repeatable task = interval_seconds task >>= λ i. done (some (i, task.repeat))
task_meta _ task = done none

-- The task is repeatable or once, and the time is past.
abbrev pub is_past : TaskType → ℕ → ℕ → Bool
is_past cron t now = false
is_past repeatable t now = ltb t now
is_past once t now = ltb t now

abbrev pub is_some {ℓ} : {A : Type ℓ} → Option A → Bool
is_some none = false
is_some (some x) = true

module _ (config : SchedulerConfiguration) (texts : Texts) where
  abbrev callback : String → Callback
  callback name = record { name = name; timeout = config.callback_timeout }

  abbrev pub request_of : ℕ → Task → Option (ℕ × Option ℕ) → JobRequest
  request_of now task meta = record {
    func_name = "scheduler.models.task.run_task";
    args = texts.args_text task.task_type task.id;
    kwargs = "";
    timeout = true_timeout task.timeout;
    result_ttl = task.result_ttl;
    job_info_ttl = none;
    description = texts.call_text task.task_type task.id;
    name = some (texts.next_job_id task.queue task.id now);
    at_front = task.at_front;
    meta = texts.meta_text meta;
    on_success = some (callback "scheduler.models.task.success_callback");
    on_failure = some (callback "scheduler.models.task.failure_callback");
    on_stopped = none;
    task_type = some (texts.type_text task.task_type);
    scheduled_task_id = some task.id;
  }

  -- Task._enqueue_args, with the function and the arguments of its callers.
  unfoldable pub enqueue_args : ℕ → Task → Run JobRequest
  unfolding true_timeout task_meta
  enqueue_args now task = task_meta task.task_type task >>= λ meta. done (request_of now task meta)

-- get_queue, for the setting of the queue.
unfoldable pub configured : String → Option Bool → Run Queue
configured name none = Run.raise TaskError.queue_not_found
configured name (some is_async) = done (record { name = name; is_async = is_async })

-- Task.rqueue
unfoldable pub rqueue : Texts → Task → Run Queue
unfolding configured
rqueue texts task = configured task.queue (texts.async_of task.queue)

module _ (b : Broker) where
  open b use {Conn, zscore}

  -- The three registries that Task.is_scheduled asks.
  unfoldable pub is_listed : String → String → Conn → Bool
  is_listed q n c =
      is_some (zscore q Registry.scheduled n c)
      || (is_some (zscore q Registry.queued n c) || is_some (zscore q Registry.active n c))

  module _ (texts : Texts) where
    unfoldable pub is_scheduled_as : Option String → Task → World b → Run (Bool × Task × World b)
    unfolding store_task is_listed rqueue
    is_scheduled_as none task w = done (false, task, w)
    is_scheduled_as (some n) task w = rqueue texts task >>= λ queue.
        if is_listed queue.name n w.conn
        then done (true, task, w)
        else let task' = record task { job_name = none } in
          done (false, task', record w { rows = store_task task' w.rows })

    -- Task.is_scheduled
    unfoldable pub is_scheduled : Task → World b → Run (Bool × Task × World b)
    unfolding is_scheduled_as
    is_scheduled task w = is_scheduled_as task.job_name task w

    unfoldable pub delete_named : Option String → Task → World b → Run (World b)
    unfolding rqueue
    delete_named none task w = done w
    delete_named (some n) task w = rqueue texts task >>= λ queue.
        done (record w { conn = delete_job b queue.name n true w.conn })

    -- Task.unschedule
    unfoldable pub unschedule : Task → World b → Run (Task × World b)
    unfolding delete_named store_task
    unschedule task w = delete_named task.job_name task w >>= λ w'.
        let task' = record task { job_name = none } in
        done (task', record w' { rows = store_task task' w'.rows })

    -- Task.delete
    unfoldable pub delete : Task → World b → Run (World b)
    unfolding unschedule remove_task
    delete task w = unschedule task w >>= λ (task', w').
        done (record w' { rows = remove_task task'.id w'.rows })

  module _ (u : UserCode b) (config : SchedulerConfiguration) (texts : Texts) where
    unfoldable pub enqueued : Task → World b → Result (JobModel × Conn) → Run (Task × World b)
    enqueued task w (Result.raise e) = Run.raise TaskError.job_exists
    enqueued task w (Result.ok (job, c)) =
        done (record task { job_name = some job.name }, record w { conn = c })

    -- The call of create_and_enqueue_job in Task._schedule, and the task's new job name.
    unfoldable pub enqueue_at : ℕ → ℕ → Task → World b → Run (Task × World b)
    unfolding enqueued enqueue_args rqueue
    enqueue_at now time task w = enqueue_args config texts now task >>= λ request.
        rqueue texts task >>= λ queue.
        enqueued task w
          (create_and_enqueue_job b u config queue now now "" (some time) request w.conn)

    module _ (env : Environment) where
      -- The part of _schedule for a task that is enabled.
      unfoldable pub schedule_due : ℕ → Task → World b → Run (Bool × Task × World b)
      unfolding enqueue_at
      schedule_due now task w = schedule_time env now task >>= λ (time, task').
          if is_past task'.task_type time now
          then done (false, task', w)
          else (enqueue_at now time task' w >>= λ (task'', w'). done (true, task'', w'))

      unfoldable pub schedule_checked : ℕ → Bool × Task × World b → Run (Bool × Task × World b)
      unfolding schedule_due
      schedule_checked now (true, task, w) = done (false, task, w)
      schedule_checked now (false, task, w) =
          if not task.enabled then done (false, task, w) else schedule_due now task w

      -- Task._schedule
      unfoldable pub schedule : ℕ → Task → World b → Run (Bool × Task × World b)
      unfolding schedule_checked is_scheduled
      schedule now task w = is_scheduled texts task w >>= λ checked. schedule_checked now checked

      -- Model.save
      abbrev pub save_row : Task → World b → World b
      save_row task w = record w { rows = store_task task w.rows }

      -- Task.save: the checks and the scheduling are the two flags.
      unfoldable pub save : Bool → Bool → ℕ → Task → World b → Run (Task × World b)
      unfolding schedule
      save should_clean schedule_job now task w =
          (if should_clean then clean env now task else done task) >>= λ task'.
          if schedule_job
          then (schedule now task' (save_row task' w) >>= λ (did, task'', w').
              done (task'', save_row task'' w'))
          else done (task', save_row task' w)

      -- _get_task_for_job
      unfoldable pub get_task_for_job : JobModel → World b → Option Task
      unfolding find_task
      get_task_for_job job w = elim job.task_type [
        | none ↦ none
        | some type ↦ elim job.scheduled_task_id [ none ↦ none | some id ↦ find_task id w.rows ]
      ]

      abbrev pub succeeded_task : ℕ → Task → Task
      succeeded_task now task = record task {
        job_name = none;
        successful_runs = suc task.successful_runs;
        last_successful_run = some now;
      }

      abbrev pub failed_task : ℕ → Task → Task
      failed_task now task = record task {
        job_name = none;
        failed_runs = suc task.failed_runs;
        last_failed_run = some now;
      }

      unfoldable pub save_found : ℕ → (Task → Task) → Option Task → World b → Run (World b)
      save_found now change none w = done w
      save_found now change (some task) w =
          save false true now (change task) w >>= λ (task', w'). done w'

      -- success_callback
      unfoldable pub success_callback : ℕ → JobModel → World b → Run (World b)
      unfolding save_found get_task_for_job
      success_callback now job w = save_found now (succeeded_task now) (get_task_for_job job w) w

      -- failure_callback
      unfoldable pub failure_callback : ℕ → JobModel → World b → Run (World b)
      unfolding save_found get_task_for_job
      failure_callback now job w = save_found now (failed_task now) (get_task_for_job job w) w

      -- Task.enqueue_to_run
      unfoldable pub enqueue_to_run : ℕ → ℕ → Task → World b → Run (Bool × World b)
      unfolding rqueue
      enqueue_to_run now ended task w = enqueue_args config texts now task >>= λ request.
          rqueue texts task >>= λ queue.
          elim (create_and_enqueue_job b u config queue now ended "" none request w.conn) [
            | Result.raise e ↦ Run.raise TaskError.job_exists
            | Result.ok made ↦ done (true, record w { conn = made.1 })
          ]
