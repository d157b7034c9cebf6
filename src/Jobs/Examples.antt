-- ===== src/Jobs/Examples.antt =====
-- The queue's theorems at concrete inputs, on the broker that keeps everything in lists.
use daily_scheduler.Base.{◌≡◌, refl, true, false, none, some, [], ◌∷◌, arith}
use daily_scheduler.Base.Int.{ℤ, pos, ◌≤ℤ◌}
use daily_scheduler.Jobs.Model.{JobModel, queued, started, Registry, default_configuration}
use daily_scheduler.Jobs.Job.{JobRequest, prepare_for_execution, new_job, or_default, if_none}
use daily_scheduler.Jobs.Memory.{memory}
use daily_scheduler.Jobs.Store.{Store, empty_store, find_first, find_score, without, top_score}
use daily_scheduler.Jobs.Queue.{
  Queue, UserCode, ok, returned, create_and_enqueue_job, enqueue_created, create, name_taken,
  enqueue_job, enqueued_job, delete_job, job_handle_success, run_sync,
}
use daily_scheduler.Jobs.Queue.Consistency.{IsConsistent}
use daily_scheduler.Jobs.Queue.Removal.{zscore-delete_job}
use daily_scheduler.Jobs.Queue.Sync.{HasEnded, run_sync-HasEnded}
use daily_scheduler.Jobs.Queue.Order.{enqueue_job_last}
use daily_scheduler.Jobs.Queue.Lifecycle.{Step, Reach, here, next, Reach-IsConsistent}

-- Functions that return at once.
abbrev pub quiet : UserCode memory
quiet = record { call = λ job c. (returned "1", job, c); call_back = λ k job c. (returned "", c) }

abbrev pub default_queue : Queue
default_queue = record { name = "default"; is_async = true }

abbrev request : JobRequest
request = record {
  func_name = "tests.test_job";
  args = "";
  kwargs = "";
  timeout = none;
  result_ttl = none;
  job_info_ttl = none;
  description = "a job";
  name = none;
  at_front = true;
  meta = "";
  on_success = none;
  on_failure = none;
  on_stopped = none;
  task_type = none;
  scheduled_task_id = none;
}

-- The job that the request makes, as it is created and as it is put on the queue.
abbrev created_job : JobModel
created_job = record {
  name = "default::1";
  args = "";
  kwargs = "";
  queue_name = "default";
  description = "a job";
  func_name = "tests.test_job";
  timeout = pos 300;
  success_ttl = pos 600;
  job_info_ttl = pos 600;
  at_front = false;
  last_heartbeat = none;
  worker_name = none;
  started_at = none;
  enqueued_at = none;
  ended_at = none;
  success_callback = none;
  failure_callback = none;
  stopped_callback = none;
  task_type = none;
  scheduled_task_id = none;
  status = queued;
  created_at = 100;
  meta = "";
}

abbrev pub waiting_job : JobModel
waiting_job = record created_job { enqueued_at = some 100 }

-- One job waits with the score 100.
abbrev pub one_waiting : Store
one_waiting = record {
  entries =
      record { queue = "default"; registry = Registry.queued; name = "default::1"; score = pos 100 }
      ∷ [];
  hashes = waiting_job ∷ created_job ∷ [];
  streams = [];
}

empty-IsConsistent : IsConsistent memory "default" empty_store
unfolding find_first
empty-IsConsistent = record { keyed = λ n j e. cc; placed = λ n r j s e z. cc }

zscore-delete_job_example :
    memory.zscore "default" Registry.queued "default::1"
      (delete_job memory "default" "default::1" true one_waiting)
    ≡ none
zscore-delete_job_example =
    zscore-delete_job memory "default" "default::1" true "default" Registry.queued "default::1"
      one_waiting

one_waiting_score :
    memory.zscore "default" Registry.queued "default::1" one_waiting ≡ some (pos 100)
unfolding find_score find_first
one_waiting_score = refl

enqueue_job_last_example :
    (t : ℤ) × (memory.zscore "default" Registry.queued "default::1"
        (enqueue_job memory quiet default_configuration default_queue 200 200 waiting_job true
          one_waiting).1
      ≡ some t)
    × (pos 100 ≤ℤ t)
enqueue_job_last_example =
    enqueue_job_last memory quiet default_configuration default_queue 200 200 waiting_job true
      one_waiting "default::1" (pos 100) refl one_waiting_score (λ e. omega arith)

abbrev pub worker_copy : JobModel
worker_copy = record waiting_job {
  worker_name = some "w";
  last_heartbeat = some 101;
  started_at = some 101;
  status = started;
}

one_enqueued :
    create_and_enqueue_job memory quiet default_configuration default_queue 100 100 "default::1"
      none request empty_store
    ≡ ok (waiting_job, one_waiting)
unfolding create_and_enqueue_job enqueue_created create name_taken new_job or_default if_none
    enqueue_job enqueued_job top_score without
one_enqueued = refl

-- A job is created and enqueued, a worker starts it, and it ends well.
abbrev pub one_started : Store
one_started =
    (prepare_for_execution memory "w" "default" Registry.active 101 waiting_job
      (memory.zrem "default" Registry.queued "default::1" one_waiting)).1

pub one_started_job : memory.hgetall "default::1" one_started ≡ some worker_copy
unfolding prepare_for_execution find_first without
one_started_job = refl

abbrev one_finished : Store
one_finished =
    (job_handle_success memory "default" 105 worker_copy "1" (pos 600) (pos 600) one_started).1

one_life : Reach memory quiet default_configuration default_queue empty_store one_finished
unfolding find_score find_first
one_life =
    next
      (next
        (next here
          (Step.enqueue 100 100 "default::1" none request waiting_job one_enqueued (λ r. refl)))
        (Step.start "w" 101 "default::1" waiting_job refl refl refl))
      (Step.succeed 105 worker_copy worker_copy "1" (pos 600) (pos 600) one_started_job refl refl)

Reach-IsConsistent_example : IsConsistent memory "default" one_finished
Reach-IsConsistent_example =
    Reach-IsConsistent memory quiet default_configuration default_queue refl empty-IsConsistent
      one_life

run_sync-HasEnded_example :
    HasEnded memory quiet default_configuration "default"
      (run_sync memory quiet default_configuration "default" 100 105 waiting_job one_waiting)
run_sync-HasEnded_example =
    run_sync-HasEnded memory quiet default_configuration "default" 100 105 waiting_job one_waiting
