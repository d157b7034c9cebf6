-- ===== src/Tasks/Settled.antt =====
-- A task and its job: when they agree, and the job that Task._schedule creates
-- (scheduler/models/task.py).
use daily_scheduler.Base.{
  ℕ, ◌≡◌, refl, ◌⊎◌, inl, inr, String, Bool, true, false, ◌==◌, Option, none, some, List, [], ◌∷◌,
  arith, eq_refl, Bool-cases,
}
use daily_scheduler.Base.Int.{ℤ, pos}
use daily_scheduler.Jobs.Model.{JobModel, JobStatus, Registry, SchedulerConfiguration}
use daily_scheduler.Jobs.Broker.{Broker}
use daily_scheduler.Jobs.Job.{JobRequest, new_job, if_none}
use daily_scheduler.Jobs.Queue.{
  Queue, UserCode, Result, create_and_enqueue_job, enqueue_created, create, name_taken,
}
use daily_scheduler.Tasks.Model.{
  Task, TaskType, cron, repeatable, once, Environment, done, interval_seconds,
}
use daily_scheduler.Tasks.Ready.{IsReady, moved}
use daily_scheduler.Tasks.Saving.{
  task_meta, enqueue_args, request_of, is_listed, enqueued, enqueue_at, rqueue, configured,
}
use daily_scheduler.Tasks.Rows.{World, Texts, find_task, store_task}

-- The row that was stored is the one found.
pub find_task-store_task : (t : Task) (ts : List Task) → find_task t.id (store_task t ts) ≡ some t
unfolding find_task store_task
find_task-store_task t [] = ground arith
find_task-store_task t (x ∷ xs) = elim (Bool-cases (x.id == t.id)) [
  | inl same ↦ rw same (ground arith)
  | inr other ↦ rw other (rw other (find_task-store_task t xs))
]

module _ (b : Broker) where
  open b use {Conn, zscore, hgetall, zadd}

  -- The task names a job that waits for its time, is queued or runs.
  abbrev pub HasJob : Task → World b → Type 0
  HasJob task w = (n : String) × (task.job_name ≡ some n) × (is_listed b task.queue n w.conn ≡ true)

  abbrev pub IsSettled : Task → World b → Type 0
  IsSettled task w = (task.job_name ≡ none) ⊎ HasJob task w

  name_taken-none : (n : String) (c : Conn) → hgetall n c ≡ none → name_taken b (some n) c ≡ false
  unfolding name_taken
  name_taken-none n c h = rw (h, name_taken) refl

  -- A name that no hash has is given to the job, and the job waits for its time.
  create_scheduled :
      (u : UserCode b) (config : SchedulerConfiguration) (queue : Queue) (now time : ℕ)
      (request : JobRequest) (n : String) (c : Conn)
      → request.name ≡ some n
      → hgetall n c ≡ none
      → (job : JobModel) × (c' : Conn) × (create_and_enqueue_job b u config queue now now ""
            (some time)
            request
            c
          ≡ Result.ok (job, c'))
        × (job.name ≡ n)
        × (zscore queue.name Registry.scheduled n c' ≡ some (pos time))
  unfolding create_and_enqueue_job enqueue_created create name_taken new_job if_none
  create_scheduled u config queue now time request n c named fresh =
      let job =
        new_job config queue.name JobStatus.scheduled now (if_none request.name "")
          (record request { at_front = false }) in
      (
        job,
        zadd queue.name Registry.scheduled job.name (pos time) (b.hset job (b.hset job c)),
        simp (named, name_taken-none n c fresh),
        simp (named),
        simp (named, b.zscore-zadd, eq_refl) (ground (arith, eq_refl queue.name, eq_refl n)),
      )

  task_meta-done :
      (env : Environment) (now : ℕ) (kind : TaskType) (task task' : Task)
      → IsReady env now kind task
      → interval_seconds task' ≡ interval_seconds task
      → (meta : Option (ℕ × Option ℕ)) × (task_meta kind task' ≡ done meta)
  unfolding task_meta
  task_meta-done env now cron task task' ready same = (none, refl)
  task_meta-done env now repeatable task task' (t, i, at_, every, p) same =
      (some (i, task'.repeat), simp (same, every))
  task_meta-done env now once task task' ready same = (none, refl)

  pub interval_seconds-moved :
      (t : ℕ) (left : Option ℕ) (task : Task)
      → interval_seconds (moved t left task) ≡ interval_seconds task
  unfolding interval_seconds
  interval_seconds-moved t left task = refl

  pub IsReady-unnamed :
      (env : Environment) (now : ℕ) (kind : TaskType) (task : Task)
      → IsReady env now kind task
      → IsReady env now kind (record task { job_name = none })
  unfolding interval_seconds
  IsReady-unnamed env now cron task ready = ready
  IsReady-unnamed env now repeatable task ready = ready
  IsReady-unnamed env now once task ready = ready

  is_listed-scheduled :
      (q n : String) (s : ℤ) (c : Conn)
      → zscore q Registry.scheduled n c ≡ some s
      → is_listed b q n c ≡ true
  unfolding is_listed
  is_listed-scheduled q n s c h = rw h refl

  module _ (u : UserCode b) (config : SchedulerConfiguration) (texts : Texts) (env : Environment)
      (now : ℕ) where
    abbrev pub next_name : Task → String
    next_name task = texts.next_job_id task.queue task.id now

    -- What _schedule leaves of a task: its time, its repeats and its job may be others.
    pub record Schedules (task : Task) (w : World b) (did : Bool) (task' : Task) (w' : World b)
        : Type 0 where
      pub same_id : task'.id ≡ task.id
      pub same_successful_runs : task'.successful_runs ≡ task.successful_runs
      pub same_failed_runs : task'.failed_runs ≡ task.failed_runs
      pub settled : IsSettled task' w'
      pub has_job : did ≡ true → HasJob task' w'

    enqueue_args-done :
        (task task0 : Task)
        → IsReady env now task.task_type task0
        → interval_seconds task ≡ interval_seconds task0
        → (request : JobRequest) × (enqueue_args config texts now task ≡ done request)
          × (request.name ≡ some (next_name task))
    unfolding enqueue_args
    enqueue_args-done task task0 ready same =
        let (meta, h) = task_meta-done env now task.task_type task0 task ready same in
        (request_of config texts now task meta, rw h refl, refl)

    pub enqueue_at-HasJob :
        (time : ℕ) (task task0 : Task) (w : World b) (is_async : Bool)
        → texts.async_of task.queue ≡ some is_async
        → IsReady env now task.task_type task0
        → interval_seconds task ≡ interval_seconds task0
        → hgetall (next_name task) w.conn ≡ none
        → (c : Conn) × (enqueue_at b u config texts now time task w
            ≡ done (record task { job_name = some (next_name task) }, record w { conn = c }))
          × HasJob (record task { job_name = some (next_name task) }) (record w { conn = c })
    unfolding enqueue_at enqueued rqueue configured
    enqueue_at-HasJob time task task0 w is_async known ready same fresh =
        let (request, made, named) = enqueue_args-done task task0 ready same in
        let (job, c, created, job_named, listed) =
          create_scheduled u config (record { name = task.queue; is_async = is_async }) now time
            request (next_name task) w.conn named fresh in
        (
          c,
          simp (made, known, created, job_named),
          (
            next_name task,
            refl,
            is_listed-scheduled task.queue (next_name task) (pos time) c listed,
          ),
        )
