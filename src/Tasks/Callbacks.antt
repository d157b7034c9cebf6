-- ===== src/Tasks/Callbacks.antt =====
-- What saving a task and the callbacks of its jobs leave
-- (scheduler/models/task.py).
use mathlib.Core.Path.{subst}
use daily_scheduler.Base.{Bool, ℕ, suc, ◌≡◌, true, false, Option, none, some}
use daily_scheduler.Jobs.Model.{JobModel, SchedulerConfiguration}
use daily_scheduler.Jobs.Broker.{Broker}
use daily_scheduler.Jobs.Queue.{UserCode}
use daily_scheduler.Tasks.Model.{
  Task, TaskType, cron, repeatable, once, Environment, done, interval_seconds,
}
use daily_scheduler.Tasks.Ready.{IsReady}
use daily_scheduler.Tasks.Saving.{
  get_task_for_job, save_found, success_callback, failure_callback, save,
}
use daily_scheduler.Tasks.Rows.{World, Texts, find_task, store_task}
use daily_scheduler.Tasks.Settled.{IsSettled, next_name, find_task-store_task}
use daily_scheduler.Tasks.Scheduling.{schedule-Schedules}

module _ (b : Broker) where
  open b use {Conn, zscore, hgetall}

  module _ (u : UserCode b) (config : SchedulerConfiguration) (texts : Texts) (env : Environment)
      (now : ℕ) where
    -- A run of the task was counted, its row was saved, and the row agrees with the queue.
    pub record IsCounted (successes failures : ℕ) (id : ℕ) (row : Task) (w' : World b)
        : Type 0 where
      pub found : find_task id w'.rows ≡ some row
      pub successes_are : row.successful_runs ≡ successes
      pub failures_are : row.failed_runs ≡ failures
      pub settled : IsSettled b row w'

    save-IsCounted :
        (task : Task) (w : World b) (is_async : Bool)
        → texts.async_of task.queue ≡ some is_async
        → IsReady env now task.task_type task
        → hgetall (next_name b u config texts env now task) w.conn ≡ none
        → (row : Task) × (w' : World b) × (save b u config texts env false true now task w
            ≡ done (row, w'))
          × IsCounted task.successful_runs task.failed_runs task.id row w'
    unfolding save
    save-IsCounted task w is_async known ready fresh =
        let (did, task', w', e, facts) =
          schedule-Schedules b u config texts env now task
            (record w { rows = store_task task w.rows }) is_async known ready fresh in
        (
          task',
          record w' { rows = store_task task' w'.rows },
          simp (e),
          record {
            found =
                subst (λ i. find_task i (store_task task' w'.rows) ≡ some task') facts.same_id
                  (find_task-store_task task' w'.rows);
            successes_are = facts.same_successful_runs;
            failures_are = facts.same_failed_runs;
            settled = facts.settled;
          },
        )

    IsReady-counted :
        (kind : TaskType) (task : Task) (s f : ℕ) (at_s at_f : Option ℕ)
        → IsReady env now kind task
        → IsReady env now kind (record task {
          job_name = none;
          successful_runs = s;
          failed_runs = f;
          last_successful_run = at_s;
          last_failed_run = at_f;
        })
    unfolding interval_seconds
    IsReady-counted cron task s f at_s at_f ready = ready
    IsReady-counted repeatable task s f at_s at_f ready = ready
    IsReady-counted once task s f at_s at_f ready = ready

    -- The callback of a job that has succeeded counts one success of the job's task and saves it: the
    -- row of the task then names no job, or one that waits, is queued or runs. For a task of a
    -- configured queue that is ready, so that a cron string has a next date, with a free job name.
    pub success_callback-IsCounted :
        (job : JobModel) (task : Task) (w : World b) (is_async : Bool)
        → get_task_for_job b u config texts env job w ≡ some task
        → texts.async_of task.queue ≡ some is_async
        → IsReady env now task.task_type task
        → hgetall (next_name b u config texts env now task) w.conn ≡ none
        → (row : Task) × (w' : World b) × (success_callback b u config texts env now job w
            ≡ done w')
          × IsCounted (suc task.successful_runs) task.failed_runs task.id row w'
    unfolding success_callback save_found
    success_callback-IsCounted job task w is_async found known ready fresh =
        let counted = record task {
          job_name = none;
          successful_runs = suc task.successful_runs;
          last_successful_run = some now;
        } in
        let (row, w', e, facts) =
          save-IsCounted counted w is_async known
            (IsReady-counted task.task_type task (suc task.successful_runs) task.failed_runs
              (some now) task.last_failed_run ready)
            fresh in
        (row, w', simp (found, e), facts)

    -- The callback of a job that has failed counts one failure in the same way.
    pub failure_callback-IsCounted :
        (job : JobModel) (task : Task) (w : World b) (is_async : Bool)
        → get_task_for_job b u config texts env job w ≡ some task
        → texts.async_of task.queue ≡ some is_async
        → IsReady env now task.task_type task
        → hgetall (next_name b u config texts env now task) w.conn ≡ none
        → (row : Task) × (w' : World b) × (failure_callback b u config texts env now job w
            ≡ done w')
          × IsCounted task.successful_runs (suc task.failed_runs) task.id row w'
    unfolding failure_callback save_found
    failure_callback-IsCounted job task w is_async found known ready fresh =
        let counted = record task {
          job_name = none;
          failed_runs = suc task.failed_runs;
          last_failed_run = some now;
        } in
        let (row, w', e, facts) =
          save-IsCounted counted w is_async known
            (IsReady-counted task.task_type task task.successful_runs (suc task.failed_runs)
              task.last_successful_run (some now) ready)
            fresh in
        (row, w', simp (found, e), facts)
