-- ===== src/Worker/Loop/Answers.antt =====
-- A worker in burst mode neither stays suspended nor waits once its queues have answered.
use daily_scheduler.Base.{
  ℕ, suc, ◌≡◌, refl, String, Bool, true, false, not, Option, none, some, List, [], ◌∷◌,
  if◌then◌else◌,
}
use daily_scheduler.Jobs.Broker.{Broker}
use daily_scheduler.Jobs.Registries.{
  Dequeued, dequeued, nothing, timed_out, value_error, out_of_rounds,
}
use daily_scheduler.Jobs.Registries.Dequeue.{IsDequeued, dequeue_any-IsDequeued}
use daily_scheduler.Worker.Perform.{WorkerModel}
use daily_scheduler.Worker.Rotation.{reorder_queues}
use daily_scheduler.Worker.Waiting.{
  Outside, Checked, raises_stop_requested, passed, still_suspended, check_for_suspension, Settings,
  maintained, left_at, Attempt, reads, connection_error, WorkerState, WaitEnd, got, no_job,
  raised_value_error, still_waiting, beat, take_answer, after_dequeue, wait_for_job, end_wait,
}

abbrev pub IsNotSuspended : Checked → Type 0
IsNotSuspended raises_stop_requested = Unit {0}
IsNotSuspended (passed model workers) = Unit {0}
IsNotSuspended (still_suspended model workers) = ⊥

IsNotSuspended-if :
    (k : Bool) (x y : Checked)
    → IsNotSuspended x
    → IsNotSuspended y
    → IsNotSuspended (if k then x else y)
IsNotSuspended-if true x y h h' = h
IsNotSuspended-if false x y h h' = h'

pub check_for_suspension-IsNotSuspended :
    (seconds : List Outside) (model : WorkerModel) (workers : List WorkerModel)
    → IsNotSuspended (check_for_suspension seconds true model workers)
unfolding check_for_suspension
check_for_suspension-IsNotSuspended seconds model workers =
    IsNotSuspended-if (not model.is_suspended) _ _ tt tt

module _ (b : Broker) where
  -- Some round reads the queues, behind connections that fail.
  abbrev pub has_read : List (Attempt b) → Bool
  has_read [] = false
  has_read (connection_error now ∷ rest) = has_read rest
  has_read (reads now jobs commands until ∷ rest) = true

  abbrev pub IsAnswered : WaitEnd b → Type 0
  IsAnswered (got job q) = Unit {0}
  IsAnswered no_job = Unit {0}
  IsAnswered raised_value_error = Unit {0}
  IsAnswered still_waiting = ⊥

  after_dequeue-IsAnswered :
      (shuffle : List String → List String) (settings : Settings) (queues : List String)
      (before : b.Conn) (r : Dequeued × b.Conn) (left : Option ℕ) (s : WorkerState b)
      (again : WaitEnd b × WorkerState b)
      → IsDequeued b queues none before r
      → IsAnswered (after_dequeue b shuffle settings r.0 left s again).0
  unfolding after_dequeue
  after_dequeue-IsAnswered shuffle settings queues before (dequeued job q, c) left s again h =
      taken (reorder_queues shuffle settings.strategy q s.ordered_queues)
    where
      taken : (o : Option (List String)) → IsAnswered (take_answer b job q o s).0
      taken none = tt
      taken (some order) = tt
  after_dequeue-IsAnswered shuffle settings queues before (nothing, c) left s again h = tt
  after_dequeue-IsAnswered shuffle settings queues before (timed_out, c) left s again h =
      absurd (h.0 refl)
  after_dequeue-IsAnswered shuffle settings queues before (value_error, c) left s again h = tt
  after_dequeue-IsAnswered shuffle settings queues before (out_of_rounds, c) left s again h = h

  pub wait_for_job-IsAnswered :
      (shuffle : List String → List String) (rounds : ℕ) (settings : Settings)
      (max_idle_time : Option ℕ) (idle_since : ℕ) (attempts : List (Attempt b)) (left : Option ℕ)
      (s : WorkerState b)
      → has_read attempts ≡ true
      → IsAnswered
          (wait_for_job b shuffle
            (suc rounds)
            settings
            max_idle_time
            idle_since
            attempts
            none
            left
            s).0
  unfolding wait_for_job
  wait_for_job-IsAnswered shuffle rounds settings max_idle_time idle_since [] left s h = absurd cc
  wait_for_job-IsAnswered shuffle rounds settings max_idle_time idle_since
        (connection_error now ∷ rest) left s h =
      wait_for_job-IsAnswered shuffle rounds settings max_idle_time idle_since rest left
        (record s { model = record s.model { last_heartbeat = some now } }) h
  wait_for_job-IsAnswered shuffle rounds settings max_idle_time idle_since
        (reads now jobs commands until ∷ rest) left s h =
      let s1 = maintained b settings now (beat b now s) in
      after_dequeue-IsAnswered shuffle settings s1.ordered_queues (jobs s1.conn) _
        (left_at max_idle_time idle_since until) _ _
        (dequeue_any-IsDequeued b rounds s1.ordered_queues none (jobs s1.conn))

  pub end_wait-IsAnswered :
      (now : ℕ) (r : WaitEnd b × WorkerState b) → IsAnswered r.0 → IsAnswered (end_wait b now r).0
  unfolding end_wait
  end_wait-IsAnswered now (got job q, s) h = tt
  end_wait-IsAnswered now (no_job, s) h = tt
  end_wait-IsAnswered now (raised_value_error, s) h = tt
  end_wait-IsAnswered now (still_waiting, s) h = h
