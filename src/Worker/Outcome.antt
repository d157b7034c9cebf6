-- ===== src/Worker/Outcome.antt =====
-- What performing a job leaves: the job is over, and the worker has counted it
-- (scheduler/worker/worker.py).
use daily_scheduler.Base.{
  ℕ, ◌+◌, ◌≡◌, refl, ◌⊎◌, inl, inr, String, true, Option, none, some, str_eq, arith, eq_refl,
  Bool-cases,
}
use daily_scheduler.Base.Int.{ℤ, pos, eqb_ℤ}
use daily_scheduler.Jobs.Model.{
  JobModel, JobStatus, finished, failed, Registry, SchedulerConfiguration,
}
use daily_scheduler.Jobs.Broker.{Broker}
use daily_scheduler.Jobs.Job.{prepare_for_execution, after_execution, ended_job}
use daily_scheduler.Jobs.Job.Effects.{zscore-expire, hgetall-expire}
use daily_scheduler.Jobs.Queue.{
  UserCode, Outcome, returned, raised, queue_perform_job, job_handle_success, job_handle_failure,
}
use daily_scheduler.Jobs.Queue.Effects.{
  zscore-job_handle_success, hgetall-job_handle_success, zscore-job_handle_failure,
  hgetall-job_handle_failure,
}
use daily_scheduler.Worker.Perform.{
  WorkerModel, failure_status, count_failure, count_success, handle_job_failure, handle_job_success,
  performed, worker_perform_job, worker_before_execution,
}

-- The worker has no job, and its count of completed jobs goes with those of the two kinds.
pub record IsCounted (before after : WorkerModel) : Type 0 where
  pub no_job : after.current_job_name ≡ none
  pub counts :
      after.completed_jobs + (before.successful_job_count + before.failed_job_count)
      ≡ before.completed_jobs + (after.successful_job_count + after.failed_job_count)

count_failure-IsCounted :
    (status : JobStatus) (model : WorkerModel) → IsCounted model (count_failure status model)
unfolding count_failure
count_failure-IsCounted failed model = record { no_job = refl; counts = omega arith }
count_failure-IsCounted _ model = record { no_job = refl; counts = omega arith }

count_success-IsCounted : (model : WorkerModel) → IsCounted model (count_success model)
unfolding count_success
count_success-IsCounted model = record { no_job = refl; counts = omega arith }

failure_status-cases :
    (o : Option String) (n : String)
    → (failure_status o n ≡ failed) ⊎ (failure_status o n ≡ JobStatus.stopped)
unfolding failure_status
failure_status-cases none n = inl refl
failure_status-cases (some s) n = elim (Bool-cases (str_eq s n)) [
  | inl same ↦ rw same (inr refl)
  | inr other ↦ rw other (inl refl)
]

module _ (b : Broker) (u : UserCode b) (config : SchedulerConfiguration) (q : String) where
  open b use {Conn, zscore, hgetall}

  -- The job is not active, its hash says how it ended or is gone with a time to live of 0, and the
  -- worker has counted it.
  pub record IsOver (before : WorkerModel) (job : JobModel) (c : Conn) (model : WorkerModel)
      : Type 0 where
    pub inactive : zscore q Registry.active job.name c ≡ none
    pub stored : (hgetall job.name c ≡ some job) ⊎ (eqb_ℤ job.success_ttl (pos 0) ≡ true)
    pub status :
        (job.status ≡ finished) ⊎ ((job.status ≡ failed) ⊎ (job.status ≡ JobStatus.stopped))
    pub counted : IsCounted before model

  model-failure :
      (now : ℕ) (status : JobStatus) (job : JobModel) (error : String) (c : Conn)
      → (job_handle_failure b config q now status job error c).0 ≡ ended_job status now job
  unfolding job_handle_failure after_execution
  model-failure now status job error c = refl

  model-success :
      (now : ℕ) (job : JobModel) (result : String) (info_ttl ttl : ℤ) (c : Conn)
      → (job_handle_success b q now job result info_ttl ttl c).0 ≡ ended_job finished now job
  unfolding job_handle_success after_execution
  model-success now job result info_ttl ttl c = refl

  pub handle_job_failure-IsOver :
      (o : Option String) (now : ℕ) (job : JobModel) (error : String) (c : Conn)
      (model : WorkerModel)
      → (let (job', c', model') = handle_job_failure b u config q o now job error c model in
          IsOver model job' c' model')
  unfolding handle_job_failure ended_job
  handle_job_failure-IsOver o now job error c model =
      let status = failure_status o job.name in
      let same = model-failure now status job error c in
      record {
        inactive = rw same (
            ground (
              arith,
              zscore-job_handle_failure b config q now status job error c q Registry.active
                  job.name,
              eq_refl q,
              eq_refl job.name,
            ));
        stored = inl (
            rw same (
              ground (
                arith,
                hgetall-job_handle_failure b config q now status job error c job.name,
                eq_refl job.name,
              )));
        status = inr (rw same (failure_status-cases o job.name));
        counted = count_failure-IsCounted _ model;
      }

  handle_job_success-IsOver :
      (now : ℕ) (job : JobModel) (result : String) (c : Conn) (model : WorkerModel)
      → (let (job', c', model') = handle_job_success b u config q now job result c model in
          IsOver model job' c' model')
  unfolding handle_job_success ended_job
  handle_job_success-IsOver now job result c model =
      let after = (job_handle_success b q now job result job.job_info_ttl job.success_ttl c).1 in
      let ended = ended_job finished now job in
      let same = model-success now job result job.job_info_ttl job.success_ttl c in
      record {
        inactive = rw same (
            ground (
              arith,
              zscore-expire b q Registry.active job.name ended job.success_ttl after,
              zscore-job_handle_success b q now job result job.job_info_ttl job.success_ttl c q
                  Registry.active job.name,
              eq_refl q,
              eq_refl job.name,
            ));
        stored = elim (Bool-cases (eqb_ℤ job.success_ttl (pos 0))) [
          | inl none_left ↦ inr (rw same none_left)
          | inr kept ↦ inl (
              rw same (
                ground (
                  arith,
                  kept,
                  hgetall-expire b job.name ended job.success_ttl after,
                  hgetall-job_handle_success b q now job result job.job_info_ttl job.success_ttl c
                      job.name,
                  eq_refl job.name,
                )))
        ];
        status = inl (rw same refl);
        counted = count_success-IsCounted model;
      }

  performed-IsOver :
      (o : Option String) (ended : ℕ) (outcome : Outcome) (job : JobModel) (c : Conn)
      (model : WorkerModel)
      → (let (done, job', c', model') = performed b u config q o ended (outcome, job, c) model in
          IsOver model job' c' model')
  unfolding performed
  performed-IsOver o ended (returned value) job c model =
      handle_job_success-IsOver ended job value c model
  performed-IsOver o ended (raised error) job c model =
      handle_job_failure-IsOver o ended job error c model

  -- However the function and the callbacks of a job end, a worker that has performed the job leaves it
  -- finished, failed or stopped and not active, with its hash saying so unless the time to live of
  -- its result is 0; the worker then has no job, and has counted one more completed job exactly if
  -- it counted one more success or failure.
  pub worker_perform_job-IsOver :
      (o : Option String) (pid began ended : ℕ) (job : JobModel) (c : Conn) (model : WorkerModel)
      → (let (done, job', c', model') =
            worker_perform_job b u config q o pid began ended job c model in
          IsOver model job' c' model')
  unfolding worker_perform_job worker_before_execution
  worker_perform_job-IsOver o pid began ended job c model =
      let (job', c') = prepare_for_execution b model.name q Registry.active began job c in
      let (outcome, job'', c'') = queue_perform_job b u job' c' in
      let over =
        performed-IsOver o ended outcome job'' c'' (worker_before_execution pid began job model) in
      record {
        inactive = over.inactive;
        stored = over.stored;
        status = over.status;
        counted = record { no_job = over.counted.no_job; counts = over.counted.counts };
      }
