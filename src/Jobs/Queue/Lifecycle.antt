-- ===== src/Jobs/Queue/Lifecycle.antt =====
-- The life of the jobs of one queue as steps on the broker, and what every step keeps.
use daily_scheduler.Base.{
  ℕ, String, ◌≡◌, refl, Bool, true, Option, none, some, arith, if◌then◌else◌,
}
use daily_scheduler.Base.Int.{ℤ}
use daily_scheduler.Jobs.Model.{
  JobModel, scheduled, queued, started, failed, stopped, Registry, SchedulerConfiguration,
}
use daily_scheduler.Jobs.Broker.{Broker}
use daily_scheduler.Jobs.Job.{JobRequest, prepare_for_execution}
use daily_scheduler.Jobs.Queue.{
  Queue, UserCode, ok, cancel_job, delete_job, job_handle_success, job_handle_failure, enqueue_job,
  create_and_enqueue_job,
}
use daily_scheduler.Jobs.Queue.Consistency.{IsConsistent}
use daily_scheduler.Jobs.Queue.Keeping.{
  start-IsConsistent, due-IsConsistent, succeed-IsConsistent, fail-IsConsistent,
  cancel_found-IsConsistent, delete-IsConsistent,
}
use daily_scheduler.Jobs.Queue.Creation.{create-IsConsistent}

module _ (b : Broker) (u : UserCode b) (config : SchedulerConfiguration) (queue : Queue) where
  open b use {Conn, zscore, hgetall, zrem, zadd, hset}

  abbrev q : String
  q = queue.name

  -- One operation on the queue, from the state `c` to the state `c'`. What the steps assume of the
  -- job is what their callers read just before: its hash, and its status there.
  pub data Step (c c' : Conn) : Type 0 where
    -- Queue.create_and_enqueue_job, under a name that no registry holds.
    enqueue :
        (now ended : ℕ) (made_up : String) (when : Option ℕ) (request : JobRequest) (job : JobModel)
        → create_and_enqueue_job b u config queue now ended made_up when request c ≡ ok (job, c')
        → ((r : Registry) → zscore q r job.name c ≡ none)
        → Step c c'
    -- WorkerScheduler.enqueue_scheduled_jobs, for one job that is due.
    due :
        (now ended : ℕ) (n : String) (job : JobModel) (at_front : Bool)
        → hgetall n c ≡ some job
        → job.status ≡ scheduled
        → c' ≡ (enqueue_job b u config queue now ended job at_front c).1
        → Step c c'
    -- The worker takes a job off the queue and prepares its execution.
    start :
        (worker : String) (now : ℕ) (n : String) (job : JobModel)
        → hgetall n c ≡ some job
        → job.status ≡ queued
        → c'
          ≡ (prepare_for_execution b worker q Registry.active now job
              (zrem q Registry.queued n c)).1
        → Step c c'
    -- The execution ends well; `job` is the worker's copy.
    succeed :
        (now : ℕ) (stored job : JobModel) (result : String) (info_ttl ttl : ℤ)
        → hgetall job.name c ≡ some stored
        → stored.status ≡ started
        → c' ≡ (job_handle_success b q now job result info_ttl ttl c).1
        → Step c c'
    -- The execution fails, or was stopped.
    fail :
        (now : ℕ) (stored job : JobModel) (killed : Bool) (error : String)
        → hgetall job.name c ≡ some stored
        → stored.status ≡ started
        → c'
          ≡ (job_handle_failure b config q now (if killed then stopped else failed) job error c).1
        → Step c c'
    cancel : (now : ℕ) (n : String) → cancel_job b config q now n c ≡ ok c' → Step c c'
    delete : (n : String) (expire : Bool) → c' ≡ delete_job b q n expire c → Step c c'

  -- Every operation of an asynchronous queue keeps its state consistent.
  pub Step-IsConsistent :
      {c c' : Conn} → queue.is_async ≡ true → Step c c' → IsConsistent b q c → IsConsistent b q c'
  unfolding cancel_job
  Step-IsConsistent {c} {c'} async (enqueue now ended made_up when request job e fresh) h =
      create-IsConsistent b u config queue now ended made_up when request job c c' h async e fresh
  Step-IsConsistent {c} async (due now ended n job at_front e st eq) h = rw eq (
      due-IsConsistent b u config queue now ended job at_front c async h
        (λ r s z. ground (arith, h.placed n r job s e, h.keyed n job e)))
  Step-IsConsistent {c} async (start worker now n job e st eq) h =
      rw eq (start-IsConsistent b u config queue worker now n job c h e st)
  Step-IsConsistent {c} async (succeed now stored job result info_ttl ttl e st eq) h =
      rw eq (succeed-IsConsistent b u config queue now stored job result info_ttl ttl c h e st)
  Step-IsConsistent {c} async (fail now stored job killed error e st eq) h =
      rw eq (fail-IsConsistent b u config queue now stored job killed error c h e st)
  Step-IsConsistent {c} {c'} async (cancel now n e) h =
      cancel_found-IsConsistent b u config queue now n (hgetall n c) c c' h refl e
  Step-IsConsistent {c} async (delete n expires eq) h =
      rw eq (delete-IsConsistent b u config queue n expires c h)

  -- The states that a sequence of operations reaches.
  pub data Reach (c : Conn) : Conn → Type 0 where
    here : Reach c c
    next : {d e : Conn} → Reach c d → Step d e → Reach c e

  -- From a consistent state, every sequence of the steps above of an asynchronous queue keeps each
  -- hash under its job's name, and each job in no registry but those of its status.
  pub Reach-IsConsistent :
      {c d : Conn} → queue.is_async ≡ true → IsConsistent b q c → Reach c d → IsConsistent b q d
  Reach-IsConsistent async h here = h
  Reach-IsConsistent async h (next r s) = Step-IsConsistent async s (Reach-IsConsistent async h r)
