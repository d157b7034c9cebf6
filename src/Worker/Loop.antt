-- ===== src/Worker/Loop.antt =====
-- Worker.bootstrap, worker_start and the loop of Worker.work of scheduler/worker/worker.py, for a worker
-- that performs its jobs in its own process. A turn of the loop gets its times and what comes from
-- outside meanwhile; the list of turns bounds the loop. The teardown behind the loop is left out.
pub mod Answers
pub mod Burst
use daily_scheduler.Base.{
  ℕ, zero, suc, ◌+◌, ◌≡◌, String, Bool, true, false, not, Option, none, some, List, [], ◌∷◌, ltb,
  leb, if◌then◌else◌,
}
use daily_scheduler.Jobs.Model.{JobModel, SchedulerConfiguration}
use daily_scheduler.Jobs.Broker.{Broker}
use daily_scheduler.Jobs.Queue.{UserCode}
use daily_scheduler.Worker.Perform.{
  WorkerModel, WorkerStatus, started, busy, worker_before_execution, execute_job,
}
use daily_scheduler.Worker.Commands.{find_worker, update_worker}
use daily_scheduler.Worker.Waiting.{
  Outside, save_all, heartbeat, refresh, Checked, raises_stop_requested, passed, still_suspended,
  check_for_suspension, Settings, maintain, Attempt, WorkerState, WaitEnd, got, no_job,
  raised_value_error, still_waiting, beat, dequeue_job_and_maintain_ttl,
}

abbrev has_scheduler_at_start : Settings → WorkerModel → Bool
has_scheduler_at_start s w = if s.with_scheduler then not s.burst else w.has_scheduler

abbrev born : Settings → ℕ → WorkerModel → WorkerModel
born s now w = record w {
  last_heartbeat = some now;
  state = started;
  has_scheduler = has_scheduler_at_start s w;
}

-- Worker.bootstrap, with worker_start: only the fields that it sets are saved.
unfoldable pub bootstrap :
    Settings → ℕ → WorkerModel → List WorkerModel → WorkerModel × List WorkerModel
unfolding update_worker
bootstrap s now model workers = (
  born s now model,
  update_worker model.name
      (λ w. record w {
        last_heartbeat = some now;
        state = started;
        has_scheduler = has_scheduler_at_start s model;
      })
      workers,
)

-- The fields that a performed job has set, saved over the hash.
abbrev save_performed : WorkerModel → WorkerModel → WorkerModel
save_performed model w = record w {
  state = model.state;
  current_job_name = model.current_job_name;
  current_job_working_time = model.current_job_working_time;
  job_execution_process_pid = model.job_execution_process_pid;
  successful_job_count = model.successful_job_count;
  failed_job_count = model.failed_job_count;
  completed_jobs = model.completed_jobs;
}

-- The field `stopped_job_name` of a hash.
abbrev stopped_name : Option WorkerModel → Option String
stopped_name none = none
stopped_name (some w) = w.stopped_job_name

-- How the loop ends, or that it still runs after its turns.
pub data WorkEnd : Type 0 where
  out_of_jobs idle_too_long jobs_done on_request exception still_running : WorkEnd

-- What Worker.work returns.
unfoldable pub work_result : WorkEnd → WorkerModel → Bool
work_result exception model = false
work_result still_running model = false
work_result _ model = ltb 0 model.completed_jobs

abbrev pub enough : Option ℕ → ℕ → Bool
enough none completed_jobs = false
enough (some max_jobs) completed_jobs = leb max_jobs completed_jobs

module _ (b : Broker) where
  pub record Turn : Type 0 where
    -- Until the worker reads its hash, and in each second of a suspension.
    pub commands : Outside
    pub seconds : List Outside
    -- The time of the maintenance, the rounds of the wait for a job, and the time of its end.
    pub now : ℕ
    pub attempts : List (Attempt b)
    pub waited : ℕ
    -- The process and the times of the job, and what comes while it runs.
    pub pid : ℕ
    pub began : ℕ
    pub ended : ℕ
    pub running : Outside

  -- What a turn leaves: the end of the loop, or a further turn; and the job that it has performed.
  pub data Turned : Type 0 where
    ends : WorkEnd → WorkerState b → Turned
    performed_and : Bool → String → WorkerState b → Turned
    goes_on : WorkerState b → Turned

  module _ (u : UserCode b) (config : SchedulerConfiguration) where
    unfoldable pub perform : Turn → JobModel → String → WorkerState b → WorkerState b
    unfolding save_all worker_before_execution update_worker find_worker
    perform t job q s =
        let before = worker_before_execution t.pid t.began job (record s.model { state = busy }) in
        let running = t.running (save_all before s.workers) in
        let (job', c, model) =
          execute_job b u config q (stopped_name (find_worker s.model.name running)) t.pid t.began
            t.ended job s.conn s.model in
        record s {
          conn = c;
          model = model;
          workers = update_worker s.model.name (save_performed model) running;
        }

    -- The refresh, the heartbeat and the save behind a job, and the test of `max_jobs`.
    unfoldable pub after_job : Option ℕ → ℕ → String → Option WorkerModel → WorkerState b → Turned
    unfolding heartbeat
    after_job max_jobs now job_name none s = ends exception s
    after_job max_jobs now job_name (some model) s =
        performed_and (enough max_jobs model.completed_jobs) job_name
          (beat b now (record s { model = model }))

    unfoldable pub after_wait :
        Settings → Option ℕ → Option ℕ → Turn → WaitEnd b × WorkerState b → Turned
    unfolding perform after_job refresh
    after_wait settings max_jobs max_idle_time t (got job q, s) =
        let s' = perform t job q s in
        after_job max_jobs t.ended job.name (refresh s'.model s'.workers) s'
    after_wait settings max_jobs none t (no_job, s) =
        if settings.burst then ends out_of_jobs s else goes_on s
    after_wait settings max_jobs (some max_idle_time) t (no_job, s) =
        if settings.burst then ends out_of_jobs s else ends idle_too_long s
    after_wait settings max_jobs max_idle_time t (raised_value_error, s) = ends exception s
    after_wait settings max_jobs max_idle_time t (still_waiting, s) = ends still_running s

    module _ (shuffle : List String → List String) (rounds worker_ttl : ℕ) (settings : Settings)
        (max_jobs max_idle_time : Option ℕ) where
      abbrev pub timeout : Option ℕ
      timeout = if settings.burst then none else some worker_ttl

      unfoldable pub wait_turn : Turn → Option ℕ → WorkerState b → Turned
      unfolding after_wait
      wait_turn t (some shutdown_requested_date) s = ends on_request s
      wait_turn t none s = after_wait settings max_jobs max_idle_time t (
          dequeue_job_and_maintain_ttl b shuffle rounds settings timeout max_idle_time t.now
            t.attempts t.waited s)

      unfoldable pub checked_turn : Turn → Checked → WorkerState b → Turned
      unfolding wait_turn
      checked_turn t raises_stop_requested s = ends exception s
      checked_turn t (still_suspended model workers) s =
          ends still_running (record s { model = model; workers = workers })
      checked_turn t (passed model workers) s =
          let (model', workers') = maintain settings t.now model workers in
          wait_turn t model'.shutdown_requested_date
            (record s { model = model'; workers = workers' })

      unfoldable pub refreshed_turn : Turn → Option WorkerModel → WorkerState b → Turned
      unfolding checked_turn
      refreshed_turn t none s = ends exception s
      refreshed_turn t (some model) s =
          checked_turn t (check_for_suspension t.seconds settings.burst model s.workers) s

      unfoldable pub turn : Turn → WorkerState b → Turned
      unfolding refreshed_turn refresh
      turn t s =
          let s' = record s { workers = t.commands s.workers } in
          refreshed_turn t (refresh s'.model s'.workers) s'

      -- What is behind a turn: `rest` is the loop from a state on.
      unfoldable pub behind :
          Turned
          → (WorkerState b → WorkEnd × WorkerState b × List String)
          → WorkEnd × WorkerState b × List String
      behind (ends end s) rest = (end, s, [])
      behind (performed_and true job_name s) rest = (jobs_done, s, job_name ∷ [])
      behind (performed_and false job_name s) rest =
          let (end, s', names) = rest s in (end, s', job_name ∷ names)
      behind (goes_on s) rest = rest s

      -- The `while True` of Worker.work: its end, the last state, and the names of the jobs that it has
      -- performed.
      unfoldable pub work : List Turn → WorkerState b → WorkEnd × WorkerState b × List String
      unfolding behind turn
      work [] s = (still_running, s, [])
      work (t ∷ ts) s = behind (turn t s) (work ts)
