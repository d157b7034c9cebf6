-- ===== src/Worker/Scheduler.antt =====
-- Moving the jobs whose time has come onto their queues: ScheduledJobRegistry.get_jobs_to_schedule of
-- scheduler/redis_models/registry/queue_registries.py, and enqueue_scheduled_jobs of
-- scheduler/worker/scheduler.py behind the rescheduling of the tasks.
use daily_scheduler.Base.{
  ℕ, String, Bool, ◌&&◌, Option, none, some, List, [], ◌∷◌, take, map, select,
}
use daily_scheduler.Base.Int.{ℤ, pos, leb_ℤ}
use daily_scheduler.Jobs.Model.{JobModel, Registry, SchedulerConfiguration}
use daily_scheduler.Jobs.Broker.{Broker}
use daily_scheduler.Jobs.Queue.{Queue, UserCode, enqueue_job}

module _ (b : Broker) where
  open b use {Conn, zscore, hgetall, entries}

  abbrev pub is_due : ℕ → String × ℤ → Bool
  is_due timestamp x = leb_ℤ (pos 0) x.1 && leb_ℤ x.1 (pos timestamp)

  -- ScheduledJobRegistry.get_jobs_to_schedule, a thousand names at most.
  unfoldable pub get_jobs_to_schedule : String → ℕ → Conn → List String
  get_jobs_to_schedule q timestamp c =
      map (λ x. x.0) (take 1000 (select (is_due timestamp) (entries q Registry.scheduled c)))

  -- HashModel.get_many
  unfoldable pub get_many : List String → Conn → List (Option JobModel)
  get_many [] c = []
  get_many (n ∷ ns) c = hgetall n c ∷ get_many ns c

  module _ (u : UserCode b) (config : SchedulerConfiguration) (now : ℕ) where
    unfoldable pub enqueue_found : Queue → List (Option JobModel) → Conn → Conn
    enqueue_found queue [] c = c
    enqueue_found queue (none ∷ jobs) c = enqueue_found queue jobs c
    enqueue_found queue (some job ∷ jobs) c =
        enqueue_found queue jobs (enqueue_job b u config queue now now job job.at_front c).1

    -- One round of the loop of WorkerScheduler.enqueue_scheduled_jobs.
    unfoldable pub enqueue_due : Queue → Conn → Conn
    unfolding enqueue_found get_many get_jobs_to_schedule
    enqueue_due queue c = enqueue_found queue (get_many (get_jobs_to_schedule queue.name now c) c) c

    unfoldable pub enqueue_scheduled_jobs : List Queue → Conn → Conn
    unfolding enqueue_due
    enqueue_scheduled_jobs [] c = c
    enqueue_scheduled_jobs (queue ∷ queues) c = enqueue_scheduled_jobs queues (enqueue_due queue c)
