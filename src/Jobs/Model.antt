-- ===== src/Jobs/Model.antt =====
-- The data of scheduler/redis_models/job.py, result.py and types/settings_types.py. A moment is a
-- whole number of seconds; a timeout or a time to live is an integer, since -1 stands for no limit.
use daily_scheduler.Base.{ℕ, String, Bool, Option, ◌≡◌, refl, sym, ap, ◌∙◌, ◌==◌, if◌then◌else◌}
use daily_scheduler.Base.Int.{ℤ, pos}

pub data JobStatus : Type 0 where
  scheduled queued canceled started finished failed stopped : JobStatus

-- The six sorted sets of job names that a queue keeps.
pub data Registry : Type 0 where
  queued active failed finished scheduled canceled : Registry

abbrev pub registry_number : Registry → ℕ
registry_number queued = 0
registry_number active = 1
registry_number failed = 2
registry_number finished = 3
registry_number scheduled = 4
registry_number canceled = 5

-- The number tells the registry.
abbrev registry_of : ℕ → Registry
registry_of n =
    if n == 0
    then Registry.queued
    else if n == 1
    then Registry.active
    else if n == 2
    then Registry.failed
    else if n == 3
    then Registry.finished
    else if n == 4
    then Registry.scheduled
    else Registry.canceled

registry_of-registry_number : (r : Registry) → registry_of (registry_number r) ≡ r
registry_of-registry_number Registry.queued = refl
registry_of-registry_number Registry.active = refl
registry_of-registry_number Registry.failed = refl
registry_of-registry_number Registry.finished = refl
registry_of-registry_number Registry.scheduled = refl
registry_of-registry_number Registry.canceled = refl

pub registry_number_inj : (r r' : Registry) → registry_number r ≡ registry_number r' → r ≡ r'
registry_number_inj r r' e =
    sym (registry_of-registry_number r) ∙ ap registry_of e ∙ registry_of-registry_number r'

-- The settings that the queue reads.
pub record SchedulerConfiguration : Type 0 where
  pub callback_timeout : ℤ
  pub default_success_ttl : ℤ
  pub default_failure_ttl : ℤ
  pub default_job_ttl : ℤ
  pub default_job_timeout : ℤ

-- The values that the class gives where the settings say nothing.
abbrev pub default_configuration : SchedulerConfiguration
default_configuration = record {
  callback_timeout = pos 60;
  default_success_ttl = pos 600;
  default_failure_ttl = pos 31536000;
  default_job_ttl = pos 600;
  default_job_timeout = pos 300;
}

pub record Callback : Type 0 where
  pub name : String
  pub timeout : ℤ

-- The pickled arguments and the metadata are texts that the queue only passes on.
pub record JobModel : Type 0 where
  pub name : String
  pub args : String
  pub kwargs : String
  pub queue_name : String
  pub description : String
  pub func_name : String
  pub timeout : ℤ
  pub success_ttl : ℤ
  pub job_info_ttl : ℤ
  pub at_front : Bool
  pub last_heartbeat : Option ℕ
  pub worker_name : Option String
  pub started_at : Option ℕ
  pub enqueued_at : Option ℕ
  pub ended_at : Option ℕ
  pub success_callback : Option Callback
  pub failure_callback : Option Callback
  pub stopped_callback : Option Callback
  pub task_type : Option String
  pub scheduled_task_id : Option ℕ
  pub status : JobStatus
  pub created_at : ℕ
  pub meta : String

pub data ResultType : Type 0 where
  successful failed stopped : ResultType

pub record JobResult : Type 0 where
  pub parent : String
  pub type : ResultType
  pub worker_name : String
  pub ttl : ℤ
  pub return_value : Option String
  pub exc_string : Option String
