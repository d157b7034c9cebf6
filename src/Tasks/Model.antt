-- ===== src/Tasks/Model.antt =====
-- The model Task of scheduler/models/task.py, its checks and its times. A moment is a whole number
-- of seconds, without an upper bound: the overflow of dates is left out.
use daily_scheduler.Base.{
  ℕ, zero, ◌+◌, ◌-◌, ◌*◌, ◌/◌, String, Bool, true, false, not, ◌&&◌, ◌||◌, Option, none, some, List,
  [], ◌∷◌, ltb, leb, ◌==◌, str_eq, if◌then◌else◌,
}
use daily_scheduler.Base.Int.{ℤ, pos, eqb_ℤ, leb_ℤ}

pub data TaskType : Type 0 where
  cron repeatable once : TaskType

pub data TimeUnits : Type 0 where
  seconds minutes hours days weeks : TimeUnits

abbrev pub unit_seconds : TimeUnits → ℕ
unit_seconds seconds = 1
unit_seconds minutes = 60
unit_seconds hours = 3600
unit_seconds days = 86400
unit_seconds weeks = 604800

pub record Task : Type 0 where
  pub id : ℕ
  pub name : String
  pub task_type : TaskType
  pub callable : String
  pub enabled : Bool
  pub queue : String
  pub job_name : Option String
  pub at_front : Bool
  pub timeout : Option ℤ
  pub result_ttl : Option ℤ
  pub failed_runs : ℕ
  pub successful_runs : ℕ
  pub last_successful_run : Option ℕ
  pub last_failed_run : Option ℕ
  pub interval : Option ℕ
  pub interval_unit : Option TimeUnits
  pub repeat : Option ℕ
  pub scheduled_time : Option ℕ
  pub cron_string : Option String

-- The exceptions of the model: the checks of `clean`, a value that is missing, a division by an
-- interval of 0, the name of a job that is taken, a cron string for which croniter finds no date,
-- and a queue that is not configured.
pub data TaskError : Type 0 where
  invalid_queue invalid_callable invalid_cron_string interval_too_low result_ttl_too_low
        scheduled_time_required scheduled_time_past :
      TaskError
  type_error zero_division job_exists no_cron_date queue_not_found : TaskError

pub data Run {ℓ} (A : Type ℓ) : Type ℓ where
  done : A → Run A
  raise : TaskError → Run A

infixl 5 ◌>>=◌
abbrev pub ◌>>=◌ {ℓ κ} : {A : Type ℓ} {B : Type κ} → Run A → (A → Run B) → Run B
done a >>= f = f a
raise e >>= f = raise e

-- What the model asks of other code: croniter, whose get_next raises where there is no next date, the
-- import of a callable, and the names of the queues in the settings.
pub record Environment : Type 0 where
  pub is_cron : String → Bool
  pub next_cron : String → ℕ → Option ℕ
  pub is_callable : String → Bool
  pub queue_names : List String
  pub scheduler_interval : ℕ

unfoldable pub interval_seconds : Task → Run ℕ
interval_seconds task = elim task.interval [
  | none ↦ raise type_error
  | some n ↦ elim task.interval_unit [
    | none ↦ raise type_error
    | some u ↦ done (n * unit_seconds u)
  ]
]

-- math.ceil(a / b)
abbrev pub ceil_div : ℕ → ℕ → ℕ
ceil_div a b = (a + (b - 1)) / b

-- `self.repeat is None or self.repeat >= gap`, and the times left after `gap` of them.
abbrev pub has_repeats : Option ℕ → ℕ → Bool
has_repeats none gap = true
has_repeats (some n) gap = leb gap n

abbrev pub less_repeats : Option ℕ → ℕ → Option ℕ
less_repeats none gap = none
less_repeats (some n) gap = some (n - gap)

unfoldable pub move_on : ℕ → ℕ → ℕ → Task → Run Task
move_on now scheduled_time zero task = raise zero_division
move_on now scheduled_time interval task =
    let gap = ceil_div (now - scheduled_time) interval in
    done (
      if has_repeats task.repeat gap
      then record task {
        scheduled_time = some (scheduled_time + interval * gap);
        repeat = less_repeats task.repeat gap;
      }
      else task)

unfoldable pub required : Option ℕ → Run ℕ
required none = raise type_error
required (some t) = done t

-- The part of Task._schedule_time for a repeatable task.
unfoldable pub repeat_time : ℕ → Task → Run Task
repeat_time now task = required task.scheduled_time >>= λ t.
    if leb now t then done task else (interval_seconds task >>= λ i. move_on now t i task)

-- get_next_cron_time
unfoldable pub next_date : Option ℕ → Run (Option ℕ)
next_date none = raise no_cron_date
next_date (some t) = done (some t)

unfoldable pub get_next_cron_time : Environment → ℕ → Option String → Run (Option ℕ)
unfolding next_date
get_next_cron_time env now none = done none
get_next_cron_time env now (some cron_string) = next_date (env.next_cron cron_string now)

-- The task that Task._schedule_time leaves; its result is the task's scheduled time.
unfoldable pub moved_task : Environment → ℕ → TaskType → Task → Run Task
moved_task env now cron task =
    get_next_cron_time env now task.cron_string >>= λ t. done (record task { scheduled_time = t })
moved_task env now repeatable task = repeat_time now task
moved_task env now once task = done task

unfoldable pub schedule_time : Environment → ℕ → Task → Run (ℕ × Task)
schedule_time env now task = moved_task env now task.task_type task >>= λ task'.
    required task'.scheduled_time >>= λ t. done (t, task')

abbrev pub mem_text : String → List String → Bool
mem_text s [] = false
mem_text s (x ∷ xs) = str_eq x s || mem_text s xs

-- Task.clean_interval_unit
unfoldable pub clean_interval_unit : Environment → Task → Run Task
clean_interval_unit env task = interval_seconds task >>= λ i.
    if ltb i env.scheduler_interval then raise interval_too_low else done task

-- Whether a number of Python counts as true.
abbrev pub is_set : Option ℕ → Bool
is_set none = false
is_set (some n) = not (n == 0)

-- A result's time to live that is neither none, 0 or -1, and below the interval.
abbrev pub is_short : Option ℤ → ℕ → Bool
is_short none i = false
is_short (some ttl) i =
    not (eqb_ℤ ttl (pos 0)) && (not (eqb_ℤ ttl (ℤ.negsuc 0)) && not (leb_ℤ (pos i) ttl))

-- Task.clean_result_ttl
unfoldable pub clean_result_ttl : Task → Run Task
clean_result_ttl task = interval_seconds task >>= λ i.
    if is_short task.result_ttl i && is_set task.repeat then raise result_ttl_too_low else done task

-- Task.clean_queue and Task.clean_callable
unfoldable pub clean_common : Environment → Task → Run Task
clean_common env task =
    if not (mem_text task.queue env.queue_names)
    then raise invalid_queue
    else if not (env.is_callable task.callable)
    then raise invalid_callable
    else done task

-- The parts of Task.clean by the type of the task.
unfoldable pub clean_cron : Environment → Option String → Task → Run Task
clean_cron env none task = raise type_error
clean_cron env (some s) task = if env.is_cron s then done task else raise invalid_cron_string

unfoldable pub default_time : ℕ → Option ℕ → Task → Task
default_time now none task = record task { scheduled_time = some (now + 2) }
default_time now (some t) task = task

unfoldable pub clean_once : ℕ → Option ℕ → Task → Run Task
clean_once now none task = raise scheduled_time_required
clean_once now (some t) task = if ltb t now then raise scheduled_time_past else done task

unfoldable pub clean_type : Environment → ℕ → TaskType → Task → Run Task
clean_type env now cron task = clean_cron env task.cron_string task
clean_type env now repeatable task = clean_interval_unit env task >>= λ task'.
    clean_result_ttl task' >>= λ task''. done (default_time now task''.scheduled_time task'')
clean_type env now once task = clean_once now task.scheduled_time task

-- Task.clean
unfoldable pub clean : Environment → ℕ → Task → Run Task
clean env now task = clean_common env task >>= λ task'. clean_type env now task'.task_type task'
