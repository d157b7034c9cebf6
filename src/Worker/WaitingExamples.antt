-- ===== src/Worker/WaitingExamples.antt =====
-- The theorems on a waiting worker at concrete inputs.
use daily_scheduler.Base.{refl, true, false, none, some, List, [], ◌∷◌}
use daily_scheduler.Jobs.Memory.{memory}
use daily_scheduler.Jobs.Model.{default_configuration}
use daily_scheduler.Jobs.Examples.{quiet, one_waiting}
use daily_scheduler.Worker.Perform.{WorkerModel}
use daily_scheduler.Worker.Commands.{suspend}
use daily_scheduler.Worker.Rotation.{round_robin}
use daily_scheduler.Worker.Waiting.{
  Settings, WorkerState, Attempt, reads, connection_error, dequeue_job_and_maintain_ttl,
}
use daily_scheduler.Worker.Waiting.Lost.{IsOverwritten, dequeue_job_and_maintain_ttl-IsOverwritten}
use daily_scheduler.Worker.Loop.{Turn, work}
use daily_scheduler.Worker.Loop.Burst.{IsBurstEnd, work-IsBurstEnd}
use daily_scheduler.Worker.Examples.{some_worker}

abbrev suspended_worker : WorkerModel
suspended_worker = record some_worker { is_suspended = true }

abbrev settings : Settings
settings = record {
  maintenance_interval = 600;
  strategy = round_robin;
  with_scheduler = false;
  burst = false;
  scheduler_stopped = false;
}

abbrev active_worker : WorkerModel
active_worker = record some_worker { is_suspended = false; last_cleaned_at = some 90 }

abbrev before_wait : WorkerState memory
before_wait = record {
  conn = one_waiting;
  model = active_worker;
  workers = active_worker ∷ [];
  ordered_queues = "default" ∷ [];
}

-- The connection fails once; then the command to suspend the worker comes while the queues are read.
abbrev attempts : List (Attempt memory)
attempts = connection_error 100 ∷ reads 101 (λ c. c) (suspend "w") 105 ∷ []

dequeue_job_and_maintain_ttl-IsOverwritten_example : IsOverwritten memory active_worker (
    dequeue_job_and_maintain_ttl memory
      (λ qs. qs)
      1
      settings
      (some 405)
      none
      100
      attempts
      106
      before_wait)
dequeue_job_and_maintain_ttl-IsOverwritten_example =
    dequeue_job_and_maintain_ttl-IsOverwritten memory (λ qs. qs) 1 settings (some 405) none 100
      attempts 106 before_wait

abbrev one_turn : Turn memory
one_turn = record {
  commands = λ ws. ws;
  seconds = [];
  now = 100;
  attempts = attempts;
  waited = 106;
  pid = 7;
  began = 106;
  ended = 108;
  running = λ ws. ws;
}

-- One job waits, and there are two turns.
work-IsBurstEnd_example : IsBurstEnd memory 2 (
    work memory quiet default_configuration
      (λ qs. qs)
      1
      405
      (record settings { burst = true })
      none
      none
      (one_turn ∷ one_turn ∷ [])
      before_wait)
work-IsBurstEnd_example =
    work-IsBurstEnd memory quiet default_configuration (λ qs. qs) 0 405
      (record settings { burst = true }) none none refl (one_turn ∷ one_turn ∷ []) before_wait
      (refl, (refl, tt))
