-- ===== src/Worker/Waiting.antt =====
-- How a worker waits: refresh, _check_for_suspension, run_maintenance_tasks and
-- dequeue_job_and_maintain_ttl of scheduler/worker/worker.py, and WorkerModel.heartbeat of
-- scheduler/redis_models/worker.py. Time is in whole seconds. What other processes do meanwhile comes
-- from outside: the commands change the hashes of the workers, and the jobs of the broker change by
-- their work and by the cleaning of registries, which is Jobs.Cleaning's.

pub mod Lost
use daily_scheduler.Base.{
  ℕ, zero, suc, ◌+◌, ◌-◌, ◌≡◌, String, Bool, true, false, not, Option, none, some, List, [], ◌∷◌,
  str_eq, ltb, leb, ◌==◌, if◌then◌else◌,
}
use daily_scheduler.Jobs.Model.{JobModel}
use daily_scheduler.Jobs.Broker.{Broker}
use daily_scheduler.Jobs.Registries.{
  Dequeued, dequeued, nothing, timed_out, value_error, out_of_rounds, dequeue_any,
}
use daily_scheduler.Worker.Perform.{
  WorkerModel, WorkerStatus, suspended, idle, should_run_maintenance_tasks,
}
use daily_scheduler.Worker.Commands.{find_worker, update_worker}
use daily_scheduler.Worker.Rotation.{DequeueStrategy, reorder_queues}

abbrev pub Outside : Type 0
Outside = List WorkerModel → List WorkerModel

-- WorkerModel.save with all fields: the hash is the model afterwards.
unfoldable pub save_all : WorkerModel → List WorkerModel → List WorkerModel
save_all w [] = w ∷ []
save_all w (x ∷ xs) = let rest = save_all w xs in if str_eq x.name w.name then w ∷ xs else x ∷ rest

-- WorkerModel.heartbeat
unfoldable pub heartbeat : ℕ → WorkerModel → List WorkerModel → WorkerModel × List WorkerModel
unfolding save_all
heartbeat now model workers =
    let model' = record model { last_heartbeat = some now } in (model', save_all model' workers)

-- `set_field("state", …)`
unfoldable pub set_state :
    WorkerStatus → WorkerModel → List WorkerModel → WorkerModel × List WorkerModel
unfolding update_worker
set_state state model workers = (
  record model { state = state },
  update_worker model.name (λ w. record w { state = state }) workers,
)

-- Worker.refresh; none is WorkerNotFound.
unfoldable pub refresh : WorkerModel → List WorkerModel → Option WorkerModel
unfolding find_worker
refresh model workers = find_worker model.name workers

-- The end of _check_for_suspension: StopRequested, its return, or a loop that still runs once the
-- given seconds are over.
pub data Checked : Type 0 where
  raises_stop_requested : Checked
  passed still_suspended : WorkerModel → List WorkerModel → Checked

-- `while self._model.is_suspended`, for a worker that has noted its state, and what came from outside
-- in each second.
unfoldable pub sleep_suspended :
    List Outside → WorkerStatus → WorkerModel → List WorkerModel → Checked
unfolding set_state
sleep_suspended [] before_state model workers = still_suspended model workers
sleep_suspended (commands ∷ seconds) before_state model workers =
    let again = sleep_suspended seconds before_state model (commands workers) in
    let (model', workers') = set_state before_state model workers in
    if model.is_suspended then again else passed model' workers'

unfoldable pub check_for_suspension : List Outside → Bool → WorkerModel → List WorkerModel → Checked
unfolding sleep_suspended set_state
check_for_suspension seconds burst model workers =
    let (model', workers') = set_state suspended model workers in
    if not model.is_suspended
    then passed model workers
    else if burst
    then raises_stop_requested
    else sleep_suspended seconds model.state model' workers'

-- The settings of a worker, and whether the thread of its scheduler stands.
pub record Settings : Type 0 where
  pub maintenance_interval : ℕ
  pub strategy : DequeueStrategy
  pub with_scheduler : Bool
  pub burst : Bool
  pub scheduler_stopped : Bool

abbrev clean_time : ℕ → Bool → WorkerModel → WorkerModel
clean_time now has_scheduler w = record w {
  last_cleaned_at = some now;
  has_scheduler = has_scheduler;
}

abbrev has_scheduler_then : Settings → WorkerModel → Bool
has_scheduler_then s w =
    if s.burst then false else if s.scheduler_stopped then true else w.has_scheduler

-- Worker.run_maintenance_tasks, for a worker that has made its scheduler if it is to have one: without
-- a scheduler the time of the cleaning is not saved.
unfoldable pub run_maintenance_tasks :
    Settings → ℕ → WorkerModel → List WorkerModel → WorkerModel × List WorkerModel
unfolding update_worker
run_maintenance_tasks s now model workers =
    if not s.with_scheduler then (record model { last_cleaned_at = some now }, workers) else (
      clean_time now (has_scheduler_then s model) model,
      update_worker model.name (clean_time now (has_scheduler_then s model)) workers,
    )

unfoldable pub maintain :
    Settings → ℕ → WorkerModel → List WorkerModel → WorkerModel × List WorkerModel
unfolding run_maintenance_tasks should_run_maintenance_tasks
maintain s now model workers =
    if should_run_maintenance_tasks s.maintenance_interval now model.last_cleaned_at
    then run_maintenance_tasks s now model workers
    else (model, workers)

-- `min(timeout, idle_time_left)`, where both are given.
abbrev pub shorter : Option ℕ → Option ℕ → Option ℕ
shorter none left = none
shorter (some timeout) none = some timeout
shorter (some timeout) (some left) = some (if leb timeout left then timeout else left)

-- The seconds of a limit that are left at a time.
abbrev pub left_at : Option ℕ → ℕ → ℕ → Option ℕ
left_at none idle_since now = none
left_at (some max_idle_time) idle_since now = some (max_idle_time - (now - idle_since))

abbrev pub is_used_up : Option ℕ → Bool
is_used_up (some zero) = true
is_used_up _ = false

module _ (b : Broker) where
  open b use {Conn}

  -- One round of the loop: its time, what comes from outside until the queues have answered, and the
  -- time then; or a connection that fails at once, at the heartbeat.
  pub data Attempt : Type 0 where
    reads : ℕ → (Conn → Conn) → Outside → ℕ → Attempt
    connection_error : ℕ → Attempt

  pub record WorkerState : Type 0 where
    pub conn : Conn
    pub model : WorkerModel
    pub workers : List WorkerModel
    pub ordered_queues : List String

  -- The end of the wait: a job and its queue, none, the ValueError of a timeout of 0 or of the reordering,
  -- or a loop that still runs after the given rounds.
  pub data WaitEnd : Type 0 where
    got : JobModel → String → WaitEnd
    no_job raised_value_error still_waiting : WaitEnd

  abbrev pub beat : ℕ → WorkerState → WorkerState
  beat now s = record s {
    model = (heartbeat now s.model s.workers).0;
    workers = (heartbeat now s.model s.workers).1;
  }

  abbrev pub maintained : Settings → ℕ → WorkerState → WorkerState
  maintained settings now s = record s {
    model = (maintain settings now s.model s.workers).0;
    workers = (maintain settings now s.model s.workers).1;
  }

  -- The state when the queues have answered.
  abbrev pub answered : Conn → Outside → WorkerState → WorkerState
  answered c commands s = record s { conn = c; workers = commands s.workers }

  unfoldable pub take_answer :
      JobModel → String → Option (List String) → WorkerState → WaitEnd × WorkerState
  take_answer job q none s = (raised_value_error, s)
  take_answer job q (some order) s = (got job q, record s { ordered_queues = order })

  -- The branches behind Queue.dequeue_any; `again` is the next round of the loop.
  unfoldable pub after_dequeue :
      (List String → List String)
      → Settings
      → Dequeued
      → Option ℕ
      → WorkerState
      → WaitEnd × WorkerState
      → WaitEnd × WorkerState
  unfolding take_answer
  after_dequeue shuffle settings (dequeued job q) left s again =
      take_answer job q (reorder_queues shuffle settings.strategy q s.ordered_queues) s
  after_dequeue shuffle settings nothing left s again = (no_job, s)
  after_dequeue shuffle settings timed_out left s again =
      if is_used_up left then (no_job, s) else again
  after_dequeue shuffle settings value_error left s again = (raised_value_error, s)
  after_dequeue shuffle settings out_of_rounds left s again = (still_waiting, s)

  -- The loop. `rounds` are those of Queue.dequeue_any.
  unfoldable pub wait_for_job :
      (List String → List String)
      → ℕ
      → Settings
      → Option ℕ
      → ℕ
      → List Attempt
      → Option ℕ
      → Option ℕ
      → WorkerState
      → WaitEnd × WorkerState
  unfolding after_dequeue
  wait_for_job shuffle rounds settings max_idle_time idle_since [] timeout left s =
      (still_waiting, s)
  wait_for_job shuffle rounds settings max_idle_time idle_since (connection_error now ∷ rest)
        timeout left s =
      wait_for_job shuffle rounds settings max_idle_time idle_since rest timeout left
        (record s { model = record s.model { last_heartbeat = some now } })
  wait_for_job shuffle rounds settings max_idle_time idle_since
        (reads now jobs commands until ∷ rest) timeout left s =
      let s1 = maintained settings now (beat now s) in
      let timeout' = shorter timeout left in
      let (answer, c) = dequeue_any b rounds s1.ordered_queues timeout' (jobs s1.conn) in
      let s2 = answered c commands s1 in
      let left' = left_at max_idle_time idle_since until in
      let again =
        wait_for_job shuffle rounds settings max_idle_time idle_since rest timeout' left' s2 in
      after_dequeue shuffle settings answer left' s2 again

  -- The heartbeat at the end, which an exception skips.
  unfoldable pub end_wait : ℕ → WaitEnd × WorkerState → WaitEnd × WorkerState
  end_wait now (got job q, s) = (got job q, beat now s)
  end_wait now (no_job, s) = (no_job, beat now s)
  end_wait now (raised_value_error, s) = (raised_value_error, s)
  end_wait now (still_waiting, s) = (still_waiting, s)

  -- Worker.dequeue_job_and_maintain_ttl
  unfoldable pub dequeue_job_and_maintain_ttl :
      (List String → List String)
      → ℕ
      → Settings
      → Option ℕ
      → Option ℕ
      → ℕ
      → List Attempt
      → ℕ
      → WorkerState
      → WaitEnd × WorkerState
  unfolding wait_for_job end_wait
  dequeue_job_and_maintain_ttl shuffle rounds settings timeout max_idle_time now attempts ended s =
      let (model, workers) = set_state idle s.model s.workers in
      end_wait ended (
        wait_for_job shuffle rounds settings max_idle_time now attempts timeout max_idle_time
          (record s { model = model; workers = workers }))
