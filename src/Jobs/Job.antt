-- ===== src/Jobs/Job.antt =====
-- The methods of JobModel in scheduler/redis_models/job.py that change the broker, and the saving of
-- a result in scheduler/redis_models/result.py. A method returns the job as it is after the call
-- and the new state of the broker; `now` is the reading of the clock.
pub mod Effects
use daily_scheduler.Base.{ℕ, String, Bool, Option, none, some, not, if◌then◌else◌}
use daily_scheduler.Base.Int.{ℤ, pos, ◌+ℤ◌, leb_ℤ, eqb_ℤ}
use daily_scheduler.Jobs.Model.{
  JobStatus, started, Registry, SchedulerConfiguration, Callback, JobModel, JobResult, ResultType,
}
use daily_scheduler.Jobs.Broker.{Broker, job_key, result_key}

-- What `queue_name`'s enqueueing hands to JobModel.create.
pub record JobRequest : Type 0 where
  pub func_name : String
  pub args : String
  pub kwargs : String
  pub timeout : Option ℤ
  pub result_ttl : Option ℤ
  pub job_info_ttl : Option ℤ
  pub description : String
  pub name : Option String
  pub at_front : Bool
  pub meta : String
  pub on_success : Option Callback
  pub on_failure : Option Callback
  pub on_stopped : Option Callback
  pub task_type : Option String
  pub scheduled_task_id : Option ℕ

-- A Python `x or d` on a number: None and 0 give way to `d`.
unfoldable pub or_default : Option ℤ → ℤ → ℤ
or_default none d = d
or_default (some t) d = if eqb_ℤ t (pos 0) then d else t

-- `x if x is not None else d`.
unfoldable pub if_none {ℓ} : {A : Type ℓ} → Option A → A → A
if_none none d = d
if_none (some t) d = t

-- The model that JobModel.create builds, under the name that was given or made up.
unfoldable pub new_job :
    SchedulerConfiguration → String → JobStatus → ℕ → String → JobRequest → JobModel
unfolding or_default if_none
new_job config queue_name status now name request = record {
  name = name;
  args = request.args;
  kwargs = request.kwargs;
  queue_name = queue_name;
  description = request.description;
  func_name = request.func_name;
  timeout = or_default request.timeout config.default_job_timeout;
  success_ttl = if_none request.result_ttl config.default_success_ttl;
  job_info_ttl = if_none request.job_info_ttl config.default_job_ttl;
  at_front = request.at_front;
  last_heartbeat = none;
  worker_name = none;
  started_at = none;
  enqueued_at = none;
  ended_at = none;
  success_callback = request.on_success;
  failure_callback = request.on_failure;
  stopped_callback = request.on_stopped;
  task_type = request.task_type;
  scheduled_task_id = request.scheduled_task_id;
  status = status;
  created_at = now;
  meta = request.meta;
}

-- The attributes that JobModel.prepare_for_execution sets.
unfoldable pub started_job : String → ℕ → JobModel → JobModel
started_job worker now job = record job {
  worker_name = some worker;
  last_heartbeat = some now;
  started_at = some now;
  status = started;
}

-- The attributes that JobModel.after_execution sets.
unfoldable pub ended_job : JobStatus → ℕ → JobModel → JobModel
ended_job status now job = record job {
  status = status;
  ended_at = some now;
  last_heartbeat = some now;
}

module _ (b : Broker) where
  open b use {Conn, zadd, zrem, hset, del_job, xadd, del_results, set_ttl}

  -- JobModel.expire
  unfoldable pub expire : JobModel → ℤ → Conn → Conn
  expire job ttl c =
      if eqb_ℤ ttl (pos 0)
      then del_job job.name c
      else if leb_ℤ ttl (pos 0)
      then c
      else set_ttl (job_key job.name) (some ttl) c

  -- JobModel.persist
  unfoldable pub persist : JobModel → Conn → Conn
  persist job c = set_ttl (job_key job.name) none c

  -- JobModel.prepare_for_execution, for the registry `r` of the queue `q`.
  unfoldable pub prepare_for_execution :
      String → String → Registry → ℕ → JobModel → Conn → JobModel × Conn
  unfolding started_job
  prepare_for_execution worker q r now job c =
      let job' = started_job worker now job in
      (job', hset job' (zadd q r job.name (pos now +ℤ job.timeout) c))

  -- JobModel.after_execution, from one registry of the queue `q` to another. The hash is written as
  -- the job is in memory: save writes the changed fields only, which is the same where the job in
  -- memory and the hash differ in no other field.
  unfoldable pub after_execution :
      ℤ → JobStatus → String → Registry → Registry → ℕ → JobModel → Conn → JobModel × Conn
  unfolding ended_job
  after_execution job_info_ttl status q prev new now job c =
      let job' = ended_job status now job in
      let left = zrem q prev job.name c in
      (
        job',
        hset job' (
            if not (eqb_ℤ job_info_ttl (pos 0))
            then zadd q new job.name (pos now +ℤ job_info_ttl) left
            else left),
      )

  -- Result.create and Result.save
  unfoldable pub save_result :
      String → Option String → ResultType → ℤ → Option String → Option String → Conn → Conn
  unfolding if_none
  save_result job_name worker type ttl return_value exc_string c =
      let result : JobResult = record {
        parent = job_name;
        type = type;
        worker_name = if_none worker "unknown_worker";
        ttl = ttl;
        return_value = return_value;
        exc_string = exc_string;
      } in
      if eqb_ℤ ttl (pos 0)
      then del_results job_name c
      else if leb_ℤ ttl (pos 0)
      then set_ttl (result_key job_name) none (xadd result c)
      else set_ttl (result_key job_name) (some ttl) (xadd result c)
