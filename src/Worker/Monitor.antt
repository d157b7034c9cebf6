-- ===== src/Worker/Monitor.antt =====
-- What the worker makes of a job whose process has died: the end of
-- Worker.monitor_job_execution_process of scheduler/worker/worker.py.
use daily_scheduler.Base.{◌≡◌, String, Option, some, none}
use daily_scheduler.Jobs.Model.{JobModel, Registry, SchedulerConfiguration}
use daily_scheduler.Jobs.Broker.{Broker}
use daily_scheduler.Jobs.Queue.{UserCode, Outcome}
use daily_scheduler.Worker.Perform.{
  WorkerModel, monitored, Monitored, callback_raised, failure_status,
}
use daily_scheduler.Worker.Outcome.{IsCounted}

module _ (b : Broker) (u : UserCode b) (config : SchedulerConfiguration) (q : String) where
  open b use {Conn, hgetall, zscore}

  -- A job whose failure was handled: it is not active, the status of its hash says whether it was to be
  -- stopped, and the worker has no job and has counted it.
  abbrev pub IsEnded : Option String → String → WorkerModel → Conn → WorkerModel → Type 0
  IsEnded o n before c model =
      (stored : JobModel) × (hgetall n c ≡ some stored)
      × (stored.status ≡ failure_status o n)
      × (zscore q Registry.active n c ≡ none)
      × IsCounted before model

  -- The job has ended so, unless the callback for a stopped job has raised.
  abbrev pub IsHandled : Option String → String → WorkerModel → Monitored b u config q → Type 0
  IsHandled o n before (monitored (job, c, model)) = IsEnded o n before c model
  IsHandled o n before (callback_raised error c) = Unit
