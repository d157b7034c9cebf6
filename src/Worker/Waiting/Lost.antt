-- ===== src/Worker/Waiting/Lost.antt =====
-- Commands that reach a worker while it waits: a suspended one never sees that it may resume, and one
-- that waits for a job writes over what a command has set.
use daily_scheduler.Base.{
  ℕ, ◌≡◌, refl, ◌∙◌, String, Bool, true, false, Option, none, some, List, [], ◌∷◌, str_eq, eq_refl,
  arith, if◌then◌else◌, Bool-cases, inl, inr,
}
use daily_scheduler.Jobs.Broker.{Broker}
use daily_scheduler.Jobs.Registries.{
  Dequeued, dequeued, nothing, timed_out, value_error, out_of_rounds, dequeue_any,
}
use daily_scheduler.Worker.Perform.{WorkerModel, idle}
use daily_scheduler.Worker.Commands.{find_worker, find_worker-cons}
use daily_scheduler.Worker.Rotation.{reorder_queues}
use daily_scheduler.Worker.Waiting.{
  save_all, heartbeat, set_state, Checked, raises_stop_requested, passed, still_suspended, Settings,
  maintain, shorter, left_at, is_used_up, Attempt, reads, connection_error, WorkerState, WaitEnd,
  got, no_job, raised_value_error, still_waiting, beat, maintained, answered, take_answer,
  after_dequeue, wait_for_job, end_wait, dequeue_job_and_maintain_ttl,
}

abbrev pub IsStillSuspended : Checked → Type 0
IsStillSuspended raises_stop_requested = ⊥
IsStillSuspended (passed model workers) = ⊥
IsStillSuspended (still_suspended model workers) = model.is_suspended ≡ true

find_worker-save_all :
    (m : WorkerModel) (ws : List WorkerModel) → find_worker m.name (save_all m ws) ≡ some m
unfolding find_worker save_all
find_worker-save_all m [] = rw (eq_refl m.name)
find_worker-save_all m (x ∷ xs) = elim (Bool-cases (str_eq x.name m.name)) [
  | inl same ↦ rw same (find_worker-cons m.name m xs (eq_refl m.name))
  | inr other ↦ rw other (rw other (find_worker-save_all m xs))
]

-- A model that a worker keeps in memory is the other one in what commands set.
abbrev Keeps : WorkerModel → WorkerModel → Type 0
Keeps m w =
    (w.name ≡ m.name)
    × (w.is_suspended ≡ m.is_suspended)
    × (w.stopped_job_name ≡ m.stopped_job_name)

maintain-Keeps :
    (s : Settings) (now : ℕ) (m : WorkerModel) (ws : List WorkerModel)
    → Keeps m (maintain s now m ws).0
unfolding maintain
maintain-Keeps s now m ws = (ground arith, ground arith, ground arith)

module _ (b : Broker) where
  -- The end of a wait, for the model that it began with: the worker's hash is its model in memory, and
  -- what a command can set is as it was before.
  abbrev pub IsOverwritten : WorkerModel → WaitEnd b × WorkerState b → Type 0
  IsOverwritten m (got job q, s) =
      (find_worker s.model.name s.workers ≡ some s.model) × Keeps m s.model
  IsOverwritten m (no_job, s) =
      (find_worker s.model.name s.workers ≡ some s.model) × Keeps m s.model
  IsOverwritten m (raised_value_error, s) = Keeps m s.model
  IsOverwritten m (still_waiting, s) = Keeps m s.model

  after_dequeue-Keeps :
      (shuffle : List String → List String) (settings : Settings) (m : WorkerModel)
      (answer : Dequeued) (left : Option ℕ) (s : WorkerState b) (again : WaitEnd b × WorkerState b)
      → Keeps m s.model
      → Keeps m again.1.model
      → Keeps m (after_dequeue b shuffle settings answer left s again).1.model
  unfolding after_dequeue
  after_dequeue-Keeps shuffle settings m (dequeued job q) left s again h k =
      order_kept (reorder_queues shuffle settings.strategy q s.ordered_queues)
    where
      order_kept : (o : Option (List String)) → Keeps m (take_answer b job q o s).1.model
      order_kept none = h
      order_kept (some order) = h
  after_dequeue-Keeps shuffle settings m nothing left s again h k = h
  after_dequeue-Keeps shuffle settings m timed_out left s again h k = kept (is_used_up left)
    where
      kept : (o : Bool) → Keeps m (if o then (no_job, s) else again).1.model
      kept true = h
      kept false = k
  after_dequeue-Keeps shuffle settings m value_error left s again h k = h
  after_dequeue-Keeps shuffle settings m out_of_rounds left s again h k = h

  maintained-Keeps :
      (settings : Settings) (now : ℕ) (m : WorkerModel) (s : WorkerState b)
      → Keeps m s.model
      → Keeps m (maintained b settings now (beat b now s)).model
  unfolding heartbeat
  maintained-Keeps settings now m s (name, suspension, stopped) =
      let (model, workers) = heartbeat now s.model s.workers in
      let (name', suspension', stopped') = maintain-Keeps settings now model workers in
      (name' ∙ name, suspension' ∙ suspension, stopped' ∙ stopped)

  wait_for_job-Keeps :
      (shuffle : List String → List String) (rounds : ℕ) (settings : Settings)
      (max_idle_time : Option ℕ) (idle_since : ℕ) (m : WorkerModel) (attempts : List (Attempt b))
      (timeout left : Option ℕ) (s : WorkerState b)
      → Keeps m s.model
      → Keeps m
          (wait_for_job b shuffle rounds settings max_idle_time idle_since attempts timeout left
            s).1.model
  unfolding wait_for_job
  wait_for_job-Keeps shuffle rounds settings max_idle_time idle_since m [] timeout left s h = h
  wait_for_job-Keeps shuffle rounds settings max_idle_time idle_since m
        (connection_error now ∷ rest) timeout left s h =
      wait_for_job-Keeps shuffle rounds settings max_idle_time idle_since m rest timeout left
        (record s { model = record s.model { last_heartbeat = some now } }) h
  wait_for_job-Keeps shuffle rounds settings max_idle_time idle_since m
        (reads now jobs commands until ∷ rest) timeout left s h =
      let s1 = maintained b settings now (beat b now s) in
      let h1 : Keeps m s1.model = maintained-Keeps settings now m s h in
      let answer = dequeue_any b rounds s1.ordered_queues (shorter timeout left) (jobs s1.conn) in
      let s2 = answered b answer.1 commands s1 in
      after_dequeue-Keeps shuffle settings m answer.0 (left_at max_idle_time idle_since until) s2 _
        h1
        (wait_for_job-Keeps shuffle rounds settings max_idle_time idle_since m rest
          (shorter timeout left) (left_at max_idle_time idle_since until) s2 h1)

  end_wait-IsOverwritten :
      (now : ℕ) (m : WorkerModel) (end : WaitEnd b × WorkerState b)
      → Keeps m end.1.model
      → IsOverwritten m (end_wait b now end)
  unfolding end_wait heartbeat
  end_wait-IsOverwritten now m (got job q, s) h =
      (find_worker-save_all (record s.model { last_heartbeat = some now }) s.workers, h)
  end_wait-IsOverwritten now m (no_job, s) h =
      (find_worker-save_all (record s.model { last_heartbeat = some now }) s.workers, h)
  end_wait-IsOverwritten now m (raised_value_error, s) h = h
  end_wait-IsOverwritten now m (still_waiting, s) h = h

  -- Whatever commands reach a worker while it waits for a job, once the wait is over, with a job or
  -- none, the worker's hash is the model that the worker has in memory, whose suspension and stopped
  -- job are those from before the wait: a command to suspend it, to resume it or to stop a job is
  -- lost. Where the wait raises or is not over, the model in memory has them, too.
  pub dequeue_job_and_maintain_ttl-IsOverwritten :
      (shuffle : List String → List String) (rounds : ℕ) (settings : Settings)
      (timeout max_idle_time : Option ℕ) (now : ℕ) (attempts : List (Attempt b)) (ended : ℕ)
      (s : WorkerState b)
      → IsOverwritten s.model (
          dequeue_job_and_maintain_ttl b shuffle rounds settings timeout max_idle_time now attempts
            ended s)
  unfolding dequeue_job_and_maintain_ttl set_state
  dequeue_job_and_maintain_ttl-IsOverwritten shuffle rounds settings timeout max_idle_time now
        attempts ended s =
      let (model, workers) = set_state idle s.model s.workers in
      end_wait-IsOverwritten ended s.model _ (
        wait_for_job-Keeps shuffle rounds settings max_idle_time now s.model attempts timeout
          max_idle_time (record s { model = model; workers = workers }) (refl, refl, refl))
