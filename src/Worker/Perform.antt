-- ===== src/Worker/Perform.antt =====
-- How a worker performs a job and counts it: scheduler/worker/worker.py and the model WorkerModel of
-- scheduler/redis_models/worker.py. The working times are whole seconds; the total of them, the
-- titles of the process and the logs are left out. `stopped_job_name` is the field of that name as
-- the broker has it.
use daily_scheduler.Base.{
  ℕ, zero, suc, ◌+◌, String, Bool, true, false, Option, none, some, List, str_eq, ltb,
  if◌then◌else◌,
}
use daily_scheduler.Base.Int.{ℤ, pos, negsuc, ◌+ℤ◌, leb_ℤ}
use daily_scheduler.Jobs.Model.{
  JobModel, JobStatus, finished, failed, Registry, SchedulerConfiguration,
}
use daily_scheduler.Jobs.Broker.{Broker}
use daily_scheduler.Jobs.Job.{prepare_for_execution, expire}
use daily_scheduler.Jobs.Queue.{
  UserCode, Outcome, returned, raised, queue_perform_job, job_handle_success, job_handle_failure,
  run_callback,
}

pub data WorkerStatus : Type 0 where
  created starting started suspended busy idle stopped : WorkerStatus

pub record WorkerModel : Type 0 where
  pub name : String
  pub queue_names : List String
  pub pid : ℕ
  pub state : WorkerStatus
  pub job_execution_process_pid : ℕ
  pub successful_job_count : ℕ
  pub failed_job_count : ℕ
  pub completed_jobs : ℕ
  pub last_heartbeat : Option ℕ
  pub is_suspended : Bool
  pub current_job_name : Option String
  pub stopped_job_name : Option String
  pub current_job_working_time : ℕ
  pub last_cleaned_at : Option ℕ
  pub shutdown_requested_date : Option ℕ
  pub has_scheduler : Bool

-- Worker.should_run_maintenance_tasks
unfoldable pub should_run_maintenance_tasks : ℕ → ℕ → Option ℕ → Bool
should_run_maintenance_tasks maintenance_interval now none = true
should_run_maintenance_tasks maintenance_interval now (some last_cleaned_at) =
    ltb (last_cleaned_at + maintenance_interval) now

abbrev minus : ℤ → ℕ → ℤ
minus z zero = z
minus z (suc n) = z +ℤ negsuc n

abbrev min_ℤ : ℤ → ℤ → ℤ
min_ℤ a b = if leb_ℤ a b then a else b

-- Worker.get_heartbeat_ttl
unfoldable pub get_heartbeat_ttl : ℕ → ℤ → ℕ → ℤ
get_heartbeat_ttl job_monitoring_interval timeout working_time =
    if leb_ℤ timeout (pos 0)
    then pos (job_monitoring_interval + 60)
    else min_ℤ (minus timeout working_time) (pos job_monitoring_interval) +ℤ pos 60

-- The attributes that Worker.worker_before_execution sets, with those of the heartbeat.
unfoldable pub worker_before_execution : ℕ → ℕ → JobModel → WorkerModel → WorkerModel
worker_before_execution pid now job model = record model {
  current_job_name = some job.name;
  current_job_working_time = 0;
  job_execution_process_pid = pid;
  last_heartbeat = some now;
}

abbrev is_failed : JobStatus → Bool
is_failed failed = true
is_failed _ = false

-- The status that Worker.handle_job_failure gives.
unfoldable pub failure_status : Option String → String → JobStatus
failure_status none job_name = failed
failure_status (some stopped_job_name) job_name =
    if str_eq stopped_job_name job_name then JobStatus.stopped else failed

unfoldable pub count_failure : JobStatus → WorkerModel → WorkerModel
count_failure status model =
    let ended = record model { current_job_name = none; current_job_working_time = 0 } in
    if is_failed status
    then record ended {
      failed_job_count = suc model.failed_job_count;
      completed_jobs = suc model.completed_jobs;
    }
    else ended

unfoldable pub count_success : WorkerModel → WorkerModel
count_success model = record model {
  current_job_name = none;
  successful_job_count = suc model.successful_job_count;
  completed_jobs = suc model.completed_jobs;
}

module _ (b : Broker) (u : UserCode b) (config : SchedulerConfiguration) (q : String) where
  open b use {Conn, hgetall}

  -- Worker.handle_job_failure
  unfoldable pub handle_job_failure :
      Option String → ℕ → JobModel → String → Conn → WorkerModel → JobModel × Conn × WorkerModel
  unfolding failure_status count_failure
  handle_job_failure stopped_job_name now job exc_string c model =
      let (job', c') =
        job_handle_failure b config q now (failure_status stopped_job_name job.name) job exc_string
          c in
      (job', c', count_failure job'.status model)

  -- Worker.handle_job_success
  unfoldable pub handle_job_success :
      ℕ → JobModel → String → Conn → WorkerModel → JobModel × Conn × WorkerModel
  unfolding count_success
  handle_job_success now job return_value c model =
      let (job', c') =
        job_handle_success b q now job return_value job.job_info_ttl job.success_ttl c in
      (job', expire b job' job'.success_ttl c', count_success model)

  -- What Worker.worker_perform_job does once the job's function has ended, and its result.
  unfoldable pub performed :
      Option String
      → ℕ
      → Outcome × JobModel × Conn
      → WorkerModel
      → Bool × JobModel × Conn × WorkerModel
  unfolding handle_job_failure handle_job_success
  performed stopped_job_name ended (returned value, job, c) model =
      let (job', c', model') = handle_job_success ended job value c model in
      (true, job', c', model')
  performed stopped_job_name ended (raised error, job, c) model =
      let (job', c', model') = handle_job_failure stopped_job_name ended job error c model in
      (false, job', c', model')

  -- Worker.worker_perform_job. A job that runs longer than its timeout is one whose function raises.
  unfoldable pub worker_perform_job :
      Option String
      → ℕ
      → ℕ
      → ℕ
      → JobModel
      → Conn
      → WorkerModel
      → Bool × JobModel × Conn × WorkerModel
  unfolding performed worker_before_execution
  worker_perform_job stopped_job_name pid began ended job c model =
      let (job', c') = prepare_for_execution b model.name q Registry.active began job c in
      performed stopped_job_name ended (queue_perform_job b u job' c')
        (worker_before_execution pid began job model)

  -- SimpleWorker.execute_job, and Worker.execute_job where it does not fork.
  unfoldable pub execute_job :
      Option String → ℕ → ℕ → ℕ → JobModel → Conn → WorkerModel → JobModel × Conn × WorkerModel
  unfolding worker_perform_job
  execute_job stopped_job_name pid began ended job c model =
      let (done, job', c', model') =
        worker_perform_job stopped_job_name pid began ended job c (record model { state = busy }) in
      (job', c', record model' { state = idle })

  abbrev pub is_over : JobStatus → Bool
  is_over finished = true
  is_over failed = true
  is_over _ = false

  abbrev pub is_stopped : Option String → String → Bool
  is_stopped none job_name = false
  is_stopped (some stopped_job_name) job_name = str_eq stopped_job_name job_name

  -- How the end of Worker.monitor_job_execution_process ends: an exception of the callback, or the
  -- job, the broker and the worker's model.
  pub data Monitored : Type 0 where
    monitored : JobModel × Conn × WorkerModel → Monitored
    callback_raised : String → Conn → Monitored

  -- Its branch for a job that the user has stopped, once the callback of the job has ended.
  unfoldable pub stopped_by_user :
      Option String → ℕ → JobModel → WorkerModel → Outcome × Conn → Monitored
  unfolding handle_job_failure
  stopped_by_user stopped_job_name now job model (raised error, c) = callback_raised error c
  stopped_by_user stopped_job_name now job model (returned value, c) = monitored (
      handle_job_failure stopped_job_name now job
        "Job stopped by user, job execution process terminated." c model)

  -- The part of Worker.monitor_job_execution_process behind its loop, for a process that did not
  -- exit normally, by the hash of the job.
  unfoldable pub process_died :
      Option String → ℕ → String → JobModel → Option JobModel → Conn → WorkerModel → Monitored
  unfolding stopped_by_user
  process_died stopped_job_name now exc_string job none c model = monitored (job, c, model)
  process_died stopped_job_name now exc_string job (some found) c model =
      if is_stopped stopped_job_name job.name
      then stopped_by_user stopped_job_name now job model
          (run_callback b u job.stopped_callback job c)
      else if is_over found.status
      then monitored (job, c, model)
      else monitored (handle_job_failure stopped_job_name now job exc_string c model)

  unfoldable pub process_ended :
      Option String → ℕ → Bool → String → JobModel → Conn → WorkerModel → Monitored
  unfolding process_died
  process_ended stopped_job_name now exited_normally exc_string job c model =
      let idle_model = record model { current_job_working_time = 0 } in
      if exited_normally
      then monitored (job, c, idle_model)
      else process_died stopped_job_name now exc_string job (hgetall job.name c) c idle_model
