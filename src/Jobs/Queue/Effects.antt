-- ===== src/Jobs/Queue/Effects.antt =====
-- What the other methods of Queue change in the broker.
use daily_scheduler.Base.{
  ℕ, String, ◌≡◌, Bool, true, not, ◌&&◌, none, some, str_eq, ◌==◌, if◌then◌else◌, Bool-cases, inl,
  inr,
}
use daily_scheduler.Base.Int.{ℤ, pos, ◌+ℤ◌, eqb_ℤ}
use daily_scheduler.Jobs.Model.{
  JobModel, JobStatus, canceled, stopped, finished, Registry, SchedulerConfiguration,
  registry_number,
}
use daily_scheduler.Jobs.Broker.{Broker, same_entry}
use daily_scheduler.Jobs.Job.{or_default, ended_job}
use daily_scheduler.Jobs.Job.Effects.{
  zscore-after_execution, hgetall-after_execution, zscore-save_result, hgetall-save_result,
}
use daily_scheduler.Jobs.Queue.{
  Queue, UserCode, is_queued, cancel, job_handle_success, job_handle_failure, enqueue_job,
  enqueued_job,
}
use daily_scheduler.Jobs.Queue.Removal.{
  zscore-remove_from_registries, hgetall-remove_from_registries,
}

module _ (b : Broker) where
  open b use {Conn, zscore, hgetall, last_score}

  -- The status that cancelling gives to a job.
  abbrev pub canceled_job : JobModel → JobModel
  canceled_job job = record job { status = if is_queued job.status then canceled else stopped }

  -- The registry that cancelling puts a job into.
  abbrev pub canceled_registry : JobModel → Registry
  canceled_registry job = if is_queued job.status then Registry.canceled else Registry.finished

  abbrev pub canceled_score : SchedulerConfiguration → ℕ → JobModel → ℤ
  canceled_score config now job =
      if is_queued job.status then pos 0 else pos now +ℤ config.default_failure_ttl

  module _ (config : SchedulerConfiguration) (q : String) (now : ℕ) (job : JobModel)
      (c : Conn) where
    pub zscore-cancel :
        (q' : String) (r : Registry) (m : String)
        → zscore q' r m (cancel b config q now job c) ≡ (
            if same_entry q (canceled_registry job) job.name q' r m
            then some (canceled_score config now job)
            else if str_eq q q' && (not (registry_number r == 2) && str_eq job.name m)
            then none
            else zscore q' r m c)
    unfolding cancel
    zscore-cancel q' r m = elim (Bool-cases (is_queued job.status)) [
      | inl e ↦ rw e (simp (b.zscore-zadd, zscore-remove_from_registries, b.zscore-hset))
      | inr e ↦ rw e (simp (b.zscore-zadd, zscore-remove_from_registries, b.zscore-hset))
    ]

    pub hgetall-cancel :
        (m : String)
        → hgetall m (cancel b config q now job c)
          ≡ (if str_eq job.name m then some (canceled_job job) else hgetall m c)
    unfolding cancel
    hgetall-cancel m = elim (Bool-cases (is_queued job.status)) [
      | inl e ↦ rw e (simp (b.hgetall-zadd, hgetall-remove_from_registries, b.hgetall-hset))
      | inr e ↦ rw e (simp (b.hgetall-zadd, hgetall-remove_from_registries, b.hgetall-hset))
    ]

  module _ (q : String) (now : ℕ) (job : JobModel) (result : String) (info_ttl ttl : ℤ)
      (c : Conn) where
    pub zscore-job_handle_success :
        (q' : String) (r : Registry) (m : String)
        → zscore q' r m (job_handle_success b q now job result info_ttl ttl c).1 ≡ (
            if not (eqb_ℤ info_ttl (pos 0)) && same_entry q Registry.finished job.name q' r m
            then some (pos now +ℤ info_ttl)
            else if same_entry q Registry.active job.name q' r m
            then none
            else zscore q' r m c)
    unfolding job_handle_success
    zscore-job_handle_success q' r m = simp (zscore-save_result, zscore-after_execution)

    pub hgetall-job_handle_success :
        (m : String)
        → hgetall m (job_handle_success b q now job result info_ttl ttl c).1
          ≡ (if str_eq job.name m then some (ended_job finished now job) else hgetall m c)
    unfolding job_handle_success
    hgetall-job_handle_success m = simp (hgetall-save_result, hgetall-after_execution)

  module _ (config : SchedulerConfiguration) (q : String) (now : ℕ) (status : JobStatus)
      (job : JobModel) (error : String) (c : Conn) where
    pub zscore-job_handle_failure :
        (q' : String) (r : Registry) (m : String)
        → zscore q' r m (job_handle_failure b config q now status job error c).1 ≡ (
            if not (eqb_ℤ config.default_failure_ttl (pos 0))
              && same_entry q Registry.failed job.name q' r m
            then some (pos now +ℤ config.default_failure_ttl)
            else if same_entry q Registry.active job.name q' r m
            then none
            else zscore q' r m c)
    unfolding job_handle_failure
    zscore-job_handle_failure q' r m = simp (zscore-save_result, zscore-after_execution)

    pub hgetall-job_handle_failure :
        (m : String)
        → hgetall m (job_handle_failure b config q now status job error c).1
          ≡ (if str_eq job.name m then some (ended_job status now job) else hgetall m c)
    unfolding job_handle_failure
    hgetall-job_handle_failure m = simp (hgetall-save_result, hgetall-after_execution)

  -- The score of a job that is put on the queue.
  abbrev pub queue_score : String → ℕ → Bool → Conn → ℤ
  queue_score q now at_front c =
      if at_front then pos now else or_default (last_score q Registry.queued c) (pos now)

  module _ (u : UserCode b) (config : SchedulerConfiguration) (queue : Queue) (now ended : ℕ)
      (job : JobModel) (at_front : Bool) (c : Conn) (async : queue.is_async ≡ true) where
    pub zscore-enqueue_job :
        (q' : String) (r : Registry) (m : String)
        → zscore q' r m (enqueue_job b u config queue now ended job at_front c).1 ≡ (
            if same_entry queue.name Registry.queued job.name q' r m
            then some (queue_score queue.name now at_front c)
            else if same_entry queue.name Registry.scheduled job.name q' r m
            then none
            else zscore q' r m c)
    unfolding enqueue_job enqueued_job
    zscore-enqueue_job q' r m = rw async (simp (b.zscore-zadd, b.zscore-zrem, b.zscore-hset))

    pub hgetall-enqueue_job :
        (m : String)
        → hgetall m (enqueue_job b u config queue now ended job at_front c).1
          ≡ (if str_eq job.name m then some (enqueued_job now job) else hgetall m c)
    unfolding enqueue_job enqueued_job
    hgetall-enqueue_job m = rw async (simp (b.hgetall-zadd, b.hgetall-zrem, b.hgetall-hset))
