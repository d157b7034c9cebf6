-- ===== src/Jobs/Queue.antt =====
-- The class Queue of scheduler/helpers/queues/queue_logic.py, over any broker.
pub mod Removal
pub mod Effects
pub mod Consistency
pub mod Keeping
pub mod Creation
pub mod Lifecycle
pub mod Order
pub mod Sync
use daily_scheduler.Base.{
  ℕ, String, Bool, true, false, Option, none, some, List, [], ◌∷◌, str_eq, if◌then◌else◌,
}
use daily_scheduler.Base.Int.{ℤ, pos, ◌+ℤ◌, eqb_ℤ}
use daily_scheduler.Jobs.Model.{
  JobStatus, queued, canceled, scheduled, stopped, finished, failed, Registry,
  SchedulerConfiguration, Callback, JobModel, ResultType,
}
use daily_scheduler.Jobs.Broker.{Broker}
use daily_scheduler.Jobs.Job.{
  JobRequest, or_default, if_none, new_job, expire, persist, prepare_for_execution, after_execution,
  save_result,
}

pub record Queue : Type 0 where
  pub name : String
  pub is_async : Bool

pub data QueueError : Type 0 where
  no_such_job invalid_job_operation job_exists : QueueError

pub data Result {ℓ} (A : Type ℓ) : Type ℓ where
  ok : A → Result A
  raise : QueueError → Result A

-- How a job's function or a callback ended: the printed value, or the exception.
pub data Outcome : Type 0 where
  returned raised : String → Outcome

-- The functions that the jobs and the callbacks name, and what they do to the broker.
pub record UserCode (b : Broker) : Type 1 where
  pub call : JobModel → b.Conn → Outcome × JobModel × b.Conn
  pub call_back : Callback → JobModel → b.Conn → Outcome × b.Conn

-- The attributes that Queue.enqueue_job sets.
unfoldable pub enqueued_job : ℕ → JobModel → JobModel
enqueued_job now job = record job {
  started_at = none;
  ended_at = none;
  status = queued;
  enqueued_at = some now;
}

abbrev is_queued : JobStatus → Bool
is_queued queued = true
is_queued _ = false

abbrev is_canceled : JobStatus → Bool
is_canceled canceled = true
is_canceled _ = false

module _ (b : Broker) where
  open b use {Conn, zscore, hgetall, last_score, zadd, zrem, hset}

  -- Queue._remove_from_registries: all registries but that of the failed jobs.
  unfoldable pub remove_from_registries : String → String → Conn → Conn
  remove_from_registries q job_name c = zrem q Registry.queued job_name (
      zrem q Registry.canceled job_name (
        zrem q Registry.active job_name
          (zrem q Registry.scheduled job_name (zrem q Registry.finished job_name c))))

  unfoldable pub expire_found : Option JobModel → Conn → Conn
  expire_found none c = c
  expire_found (some job) c = expire b job job.job_info_ttl c

  -- Queue.delete_job
  unfoldable pub delete_job : String → String → Bool → Conn → Conn
  delete_job q job_name expire_job_model c =
      let left = zrem q Registry.failed job_name (remove_from_registries q job_name c) in
      if expire_job_model then expire_found (hgetall job_name c) left else left

  -- The part of Queue.cancel_job behind its two checks.
  unfoldable pub cancel : SchedulerConfiguration → String → ℕ → JobModel → Conn → Conn
  cancel config q now job c =
      if is_queued job.status
      then zadd q Registry.canceled job.name (pos 0)
          (remove_from_registries q job.name (hset (record job { status = canceled }) c))
      else zadd q Registry.finished job.name (pos now +ℤ config.default_failure_ttl)
          (remove_from_registries q job.name (hset (record job { status = stopped }) c))

  unfoldable pub cancel_found :
      SchedulerConfiguration → String → ℕ → Option JobModel → Conn → Result Conn
  cancel_found config q now none c = raise no_such_job
  cancel_found config q now (some job) c =
      if is_canceled job.status then raise invalid_job_operation else ok (cancel config q now job c)

  -- Queue.cancel_job
  unfoldable pub cancel_job : SchedulerConfiguration → String → ℕ → String → Conn → Result Conn
  unfolding cancel_found
  cancel_job config q now job_name c = cancel_found config q now (hgetall job_name c) c

  -- Queue.job_handle_success
  unfoldable pub job_handle_success :
      String → ℕ → JobModel → String → ℤ → ℤ → Conn → JobModel × Conn
  job_handle_success q now job result job_info_ttl result_ttl c =
      let (job', c') =
        after_execution b job_info_ttl finished q Registry.active Registry.finished now job c in
      (
        job',
        save_result b job'.name job'.worker_name ResultType.successful result_ttl (some result) none
            c',
      )

  -- Queue.job_handle_failure
  unfoldable pub job_handle_failure :
      SchedulerConfiguration → String → ℕ → JobStatus → JobModel → String → Conn → JobModel × Conn
  job_handle_failure config q now status job exc_string c =
      let ttl = config.default_failure_ttl in
      let (job', c') = after_execution b ttl status q Registry.active Registry.failed now job c in
      (
        job',
        save_result b job'.name job'.worker_name ResultType.failed ttl none (some exc_string) c',
      )

  unfoldable pub name_taken : Option String → Conn → Bool
  name_taken none c = false
  name_taken (some name) c = elim (hgetall name c) [ none ↦ false | some _ ↦ true ]

  -- JobModel.create. `made_up` is the name that is made from the queue, the task and the time where
  -- none is given.
  unfoldable pub create :
      SchedulerConfiguration
      → String
      → JobStatus
      → ℕ
      → String
      → JobRequest
      → Conn
      → Result (JobModel × Conn)
  create config q status now made_up request c =
      let job = new_job config q status now (if_none request.name made_up) request in
      if name_taken request.name c then raise job_exists else ok (job, hset job c)

  module _ (u : UserCode b) where
    open u use {call, call_back}

    -- JobModel.call_success_callback and call_failure_callback
    unfoldable pub run_callback : Option Callback → JobModel → Conn → Outcome × Conn
    run_callback none job c = (returned "None", c)
    run_callback (some callback) job c = call_back callback job c

    -- The handler of queue_perform_job: the failure callback, and the exception again.
    unfoldable pub perform_failed : String → JobModel → Conn → Outcome × JobModel × Conn
    unfolding run_callback
    perform_failed error job c =
        let (outcome, c') = run_callback job.failure_callback job c in
        elim outcome [ returned _ ↦ (raised error, job, c') | raised e ↦ (raised e, job, c') ]

    -- queue_perform_job. A function that returns a coroutine, which runs behind the save, is left out.
    unfoldable pub queue_perform_job : JobModel → Conn → Outcome × JobModel × Conn
    queue_perform_job job c =
        let (outcome, job', c') = call job (persist b job c) in
        elim outcome [
          | raised error ↦ perform_failed error job' c'
          | returned value ↦
              let (called, c'') = run_callback job'.success_callback job' (hset job' c') in
              elim called [
                | returned _ ↦ (returned value, job', c'')
                | raised error ↦ perform_failed error job' c''
              ]
        ]

    -- What Queue.run_sync does once the job has returned or raised.
    unfoldable pub sync_ended :
        SchedulerConfiguration → String → ℕ → Outcome × JobModel × Conn → JobModel × Conn
    sync_ended config q ended (returned value, job, c) =
        job_handle_success q ended job value job.job_info_ttl job.success_ttl c
    sync_ended config q ended (raised error, job, c) =
        job_handle_failure config q ended failed job error c

    -- Queue.run_sync; `began` and `ended` are the readings of the clock.
    unfoldable pub run_sync :
        SchedulerConfiguration → String → ℕ → ℕ → JobModel → Conn → JobModel × Conn
    run_sync config q began ended job c =
        let (job', c') = prepare_for_execution b "sync" q Registry.active began job c in
        sync_ended config q ended (queue_perform_job job' c')

    -- Queue.enqueue_job
    unfoldable pub enqueue_job :
        SchedulerConfiguration → Queue → ℕ → ℕ → JobModel → Bool → Conn → JobModel × Conn
    enqueue_job config queue now ended job at_front c =
        let job' = enqueued_job now job in
        let saved = hset job' c in
        if queue.is_async
        then (
          job',
          zadd queue.name Registry.queued job'.name
              (if at_front
                then pos now
                else or_default (last_score queue.name Registry.queued c) (pos now))
              (zrem queue.name Registry.scheduled job'.name saved),
        )
        else let (job'', c'') = run_sync config queue.name now ended job' saved in
          (job'', expire b job'' job''.job_info_ttl c'')

    unfoldable pub enqueue_created :
        SchedulerConfiguration
        → Queue
        → ℕ
        → ℕ
        → Option ℕ
        → Bool
        → Result (JobModel × Conn)
        → Result (JobModel × Conn)
    enqueue_created config queue now ended when at_front (raise e) = raise e
    enqueue_created config queue now ended none at_front (ok (job, c)) =
        ok (enqueue_job config queue now ended job at_front c)
    enqueue_created config queue now ended (some moment) at_front (ok (job, c)) =
        ok (job, zadd queue.name Registry.scheduled job.name (pos moment) (hset job c))

    -- Queue.create_and_enqueue_job. It does not pass `at_front` on to JobModel.create, which takes
    -- None for it; a job whose `at_front` is None counts as not at the front.
    unfoldable pub create_and_enqueue_job :
        SchedulerConfiguration
        → Queue
        → ℕ
        → ℕ
        → String
        → Option ℕ
        → JobRequest
        → Conn
        → Result (JobModel × Conn)
    unfolding enqueue_created
    create_and_enqueue_job config queue now ended made_up when request c =
        enqueue_created config queue now ended when request.at_front (
          create config queue.name (elim when [ none ↦ queued | some _ ↦ scheduled ]) now made_up
            (record request { at_front = false }) c)
