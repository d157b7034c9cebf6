-- ===== src/Tasks/Scheduling.antt =====
-- What Task._schedule of scheduler/models/task.py leaves.
use mathlib.Core.Path.{subst}
use daily_scheduler.Base.{
  ℕ, ◌≡◌, refl, inl, inr, String, Bool, true, false, Option, none, some, Bool-cases,
}
use daily_scheduler.Jobs.Model.{SchedulerConfiguration}
use daily_scheduler.Jobs.Broker.{Broker}
use daily_scheduler.Jobs.Queue.{UserCode}
use daily_scheduler.Tasks.Model.{Task, Environment, done, ◌>>=◌}
use daily_scheduler.Tasks.Ready.{IsReady, moved, schedule_time-moved}
use daily_scheduler.Tasks.Saving.{
  is_past, is_listed, is_scheduled_as, is_scheduled, schedule_due, schedule_checked, schedule,
  rqueue, configured,
}
use daily_scheduler.Tasks.Rows.{World, Texts, store_task}
use daily_scheduler.Tasks.Settled.{
  HasJob, next_name, Schedules, enqueue_at-HasJob, interval_seconds-moved, IsReady-unnamed,
}

module _ (b : Broker) (u : UserCode b) (config : SchedulerConfiguration) (texts : Texts)
    (env : Environment) (now : ℕ) where
  open b use {Conn, zscore, hgetall}

  schedule_due-Schedules :
      (task : Task) (w : World b) (is_async : Bool)
      → texts.async_of task.queue ≡ some is_async
      → IsReady env now task.task_type task
      → hgetall (next_name b u config texts env now task) w.conn ≡ none
      → task.job_name ≡ none
      → (did : Bool) × (task' : Task) × (w' : World b) × (schedule_due b u config texts env now task
            w
          ≡ done (did, task', w'))
        × Schedules b u config texts env now task w did task' w'
  unfolding schedule_due
  schedule_due-Schedules task w is_async known ready fresh unnamed =
      let (time, left, timed) = schedule_time-moved env now task ready in
      elim (Bool-cases (is_past task.task_type time now)) [
        | inl past ↦ (
          false,
          moved time left task,
          w,
          simp (timed, past),
          record {
            same_id = refl;
            same_successful_runs = refl;
            same_failed_runs = refl;
            settled = inl unnamed;
            has_job = λ e. absurd cc;
          },
        )
        | inr due ↦
            let (c, put, has) =
              enqueue_at-HasJob b u config texts env now time (moved time left task) task w is_async
                known ready (interval_seconds-moved b time left task) fresh in
            (
              true,
              record (moved time left task) {
                job_name = some (next_name b u config texts env now task);
              },
              record w { conn = c },
              simp (timed, due, put),
              record {
                same_id = refl;
                same_successful_runs = refl;
                same_failed_runs = refl;
                settled = inr has;
                has_job = λ e. has;
              },
            )
      ]

  schedule_checked-there :
      (task : Task) (w : World b)
      → schedule_checked b u config texts env now (true, task, w) ≡ done (false, task, w)
  unfolding schedule_checked
  schedule_checked-there task w = refl

  schedule_checked-Schedules :
      (task : Task) (w : World b) (is_async : Bool)
      → texts.async_of task.queue ≡ some is_async
      → IsReady env now task.task_type task
      → hgetall (next_name b u config texts env now task) w.conn ≡ none
      → task.job_name ≡ none
      → (did : Bool) × (task' : Task) × (w' : World b) × (schedule_checked b u config texts env now
            (false, task, w)
          ≡ done (did, task', w'))
        × Schedules b u config texts env now task w did task' w'
  unfolding schedule_checked
  schedule_checked-Schedules task w is_async known ready fresh unnamed =
      elim (Bool-cases task.enabled) [
        | inr off ↦ (
          false,
          task,
          w,
          rw off refl,
          record {
            same_id = refl;
            same_successful_runs = refl;
            same_failed_runs = refl;
            settled = inl unnamed;
            has_job = λ e. absurd cc;
          },
        )
        | inl on ↦
            let (did, task', w', e, facts) =
              schedule_due-Schedules task w is_async known ready fresh unnamed in
            (did, task', w', simp (on, e), facts)
      ]

  schedule-as :
      (o : Option String) (task : Task) (w : World b) (is_async : Bool)
      → texts.async_of task.queue ≡ some is_async
      → task.job_name ≡ o
      → IsReady env now task.task_type task
      → hgetall (next_name b u config texts env now task) w.conn ≡ none
      → (did : Bool) × (task' : Task) × (w' : World b) × ((is_scheduled_as b texts o task w
            >>= λ checked. schedule_checked b u config texts env now checked)
          ≡ done (did, task', w'))
        × Schedules b u config texts env now task w did task' w'
  unfolding is_scheduled_as rqueue configured
  schedule-as none task w is_async known named ready fresh =
      schedule_checked-Schedules task w is_async known ready fresh named
  schedule-as (some n) task w is_async known named ready fresh =
      elim (Bool-cases (is_listed b task.queue n w.conn)) [
        | inl there ↦ (
          false,
          task,
          w,
          rw (known, there) (schedule_checked-there task w),
          record {
            same_id = refl;
            same_successful_runs = refl;
            same_failed_runs = refl;
            settled = inr (n, named, there);
            has_job = λ e. absurd cc;
          },
        )
        | inr gone ↦
            let free = record task { job_name = none } in
            let (did, task', w', e, facts) =
              schedule_checked-Schedules free (record w { rows = store_task free w.rows }) is_async
                known (IsReady-unnamed b env now task.task_type task ready) fresh refl in
            (
              did,
              task',
              w',
              rw (known, gone) e,
              record {
                same_id = facts.same_id;
                same_successful_runs = facts.same_successful_runs;
                same_failed_runs = facts.same_failed_runs;
                settled = facts.settled;
                has_job = facts.has_job;
              },
            )
      ]

  -- Scheduling a task of a configured queue, under a job name that is free, returns, where a cron
  -- task has a string with a next date, a repeatable one a time and an interval above 0, and one that
  -- runs once a time; it leaves the
  -- task with no job, or with one that waits, is queued or runs, and with one whenever it answers
  -- true. The task's number and the counts of its runs stay.
  pub schedule-Schedules :
      (task : Task) (w : World b) (is_async : Bool)
      → texts.async_of task.queue ≡ some is_async
      → IsReady env now task.task_type task
      → hgetall (next_name b u config texts env now task) w.conn ≡ none
      → (did : Bool) × (task' : Task) × (w' : World b) × (schedule b u config texts env now task w
          ≡ done (did, task', w'))
        × Schedules b u config texts env now task w did task' w'
  unfolding schedule is_scheduled
  schedule-Schedules task w is_async known ready fresh =
      schedule-as task.job_name task w is_async known refl ready fresh

  schedule_again :
      (o : Option String) (task : Task) (w : World b) (is_async : Bool)
      → texts.async_of task.queue ≡ some is_async
      → task.job_name ≡ o
      → HasJob b task w
      → (is_scheduled_as b texts o task w >>= λ checked.
          schedule_checked b u config texts env now checked)
        ≡ done (false, task, w)
  unfolding is_scheduled_as rqueue configured
  schedule_again none task w is_async known named (n, named', there) = absurd cc
  schedule_again (some m) task w is_async known named (n, named', there) =
      let same : n ≡ m = cc in
      rw (known, subst (λ x. is_listed b task.queue x w.conn ≡ true) same there)
        (schedule_checked-there task w)

  -- A task of a configured queue whose job waits, is queued or runs is not scheduled again: nothing
  -- changes.
  pub schedule-HasJob :
      (task : Task) (w : World b) (is_async : Bool)
      → texts.async_of task.queue ≡ some is_async
      → HasJob b task w
      → schedule b u config texts env now task w ≡ done (false, task, w)
  unfolding schedule is_scheduled
  schedule-HasJob task w is_async known has =
      schedule_again task.job_name task w is_async known refl has
