-- ===== src/Jobs/Queue/Sync.antt =====
-- What running a job in the caller's process leaves behind: Queue.run_sync.
use daily_scheduler.Base.{ℕ, String, ◌≡◌, ◌⊎◌, inl, inr, refl, none, some, arith, eq_refl}
use daily_scheduler.Base.Int.{ℤ}
use daily_scheduler.Jobs.Model.{JobModel, finished, failed, Registry, SchedulerConfiguration}
use daily_scheduler.Jobs.Broker.{Broker}
use daily_scheduler.Jobs.Job.{prepare_for_execution, after_execution, ended_job}
use daily_scheduler.Jobs.Queue.{
  UserCode, Outcome, returned, raised, job_handle_success, job_handle_failure, queue_perform_job,
  sync_ended, run_sync,
}
use daily_scheduler.Jobs.Queue.Effects.{
  zscore-job_handle_success, hgetall-job_handle_success, zscore-job_handle_failure,
  hgetall-job_handle_failure,
}

module _ (b : Broker) (u : UserCode b) (config : SchedulerConfiguration) (q : String) where
  open b use {Conn, zscore, hgetall}

  -- A job that has ended: it is not active, its hash is its model, and its status is an end.
  pub record HasEnded (done : JobModel × Conn) : Type 0 where
    pub inactive : zscore q Registry.active done.0.name done.1 ≡ none
    pub stored : hgetall done.0.name done.1 ≡ some done.0
    pub status : (done.0.status ≡ finished) ⊎ (done.0.status ≡ failed)

  model-job_handle_success :
      (now : ℕ) (job : JobModel) (result : String) (info_ttl ttl : ℤ) (c : Conn)
      → (job_handle_success b q now job result info_ttl ttl c).0 ≡ ended_job finished now job
  unfolding job_handle_success after_execution
  model-job_handle_success now job result info_ttl ttl c = refl

  model-job_handle_failure :
      (now : ℕ) (job : JobModel) (error : String) (c : Conn)
      → (job_handle_failure b config q now failed job error c).0 ≡ ended_job failed now job
  unfolding job_handle_failure after_execution
  model-job_handle_failure now job error c = refl

  success-HasEnded :
      (now : ℕ) (job : JobModel) (result : String) (info_ttl ttl : ℤ) (c : Conn)
      → HasEnded (job_handle_success b q now job result info_ttl ttl c)
  unfolding ended_job
  success-HasEnded now job result info_ttl ttl c =
      let model = model-job_handle_success now job result info_ttl ttl c in
      record {
        inactive = rw model (
            ground (
              arith,
              zscore-job_handle_success b q now job result info_ttl ttl c q Registry.active
                  job.name,
              eq_refl q,
              eq_refl job.name,
            ));
        stored = rw model (
            ground (
              arith,
              hgetall-job_handle_success b q now job result info_ttl ttl c job.name,
              eq_refl job.name,
            ));
        status = rw model (inl refl);
      }

  failure-HasEnded :
      (now : ℕ) (job : JobModel) (error : String) (c : Conn)
      → HasEnded (job_handle_failure b config q now failed job error c)
  unfolding ended_job
  failure-HasEnded now job error c =
      let model = model-job_handle_failure now job error c in
      record {
        inactive = rw model (
            ground (
              arith,
              zscore-job_handle_failure b config q now failed job error c q Registry.active
                  job.name,
              eq_refl q,
              eq_refl job.name,
            ));
        stored = rw model (
            ground (
              arith,
              hgetall-job_handle_failure b config q now failed job error c job.name,
              eq_refl job.name,
            ));
        status = rw model (inr refl);
      }

  sync_ended-HasEnded :
      (now : ℕ) (outcome : Outcome) (job : JobModel) (c : Conn)
      → HasEnded (sync_ended b u config q now (outcome, job, c))
  unfolding sync_ended
  sync_ended-HasEnded now (returned value) job c =
      success-HasEnded now job value job.job_info_ttl job.success_ttl c
  sync_ended-HasEnded now (raised error) job c = failure-HasEnded now job error c

  -- However its function and its callbacks end, a job that is run in the caller's process is
  -- finished or failed afterwards, is stored as such, and is not among the active jobs of the
  -- queue.
  pub run_sync-HasEnded :
      (began ended : ℕ) (job : JobModel) (c : Conn)
      → HasEnded (run_sync b u config q began ended job c)
  unfolding run_sync
  run_sync-HasEnded began ended job c =
      let (job', c') = prepare_for_execution b "sync" q Registry.active began job c in
      let (outcome, job'', c'') = queue_perform_job b u job' c' in
      sync_ended-HasEnded ended outcome job'' c''
