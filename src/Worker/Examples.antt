-- ===== src/Worker/Examples.antt =====
-- The theorems on the worker at concrete inputs.
use Prim.Native.String.{[] as empty_text, ◌∷◌ as ◌∷ₜ◌}
use daily_scheduler.Base.{
  ◌↔◌, Option, ℕ, zero, suc, ◌+◌, ◌<◌, String, ◌≡◌, refl, ap, Bool, true, false, none, some, [],
  ◌∷◌, arith, str_eq, eq_iff, Bool-cases, inl, inr,
}
use daily_scheduler.Base.Int.{pos}
use daily_scheduler.Jobs.Model.{JobModel, JobStatus, Registry, default_configuration}
use daily_scheduler.Jobs.Memory.{memory}
use daily_scheduler.Jobs.Store.{Store, find_score, find_first}
use daily_scheduler.Jobs.Store.Listing.{listed}
use daily_scheduler.Jobs.Examples.{quiet, default_queue, waiting_job, one_waiting}
use daily_scheduler.Worker.Naming.{
  calc_worker_name, IsFirstFree, has_name, calc_worker_name-IsFirstFree,
}
use daily_scheduler.Worker.Rotation.{index_of}
use daily_scheduler.Worker.Turns.{served, served-has_name}
use daily_scheduler.Worker.Perform.{failure_status, WorkerModel, busy, worker_perform_job}
use daily_scheduler.Worker.Outcome.{IsOver, worker_perform_job-IsOver}
use daily_scheduler.Worker.Scheduler.{enqueue_due}
use daily_scheduler.Worker.Due.{is_in, enqueue_due-zscore}
use daily_scheduler.Worker.Commands.{find_worker, kill_group, stop_job, stop_both, stop_found}
use daily_scheduler.Worker.Commands.Stopping.{IsTarget, stop_job-IsTarget}
use daily_scheduler.Worker.Locks.{key_table, WorkerScheduler, started, lock_queues, acquire, stop}
use daily_scheduler.Worker.Exclusion.{lock_queues_exclusive, stop-get}

-- Names with as many strokes as the count.
abbrev stroke_name : ℕ → String
stroke_name zero = "host-worker."
stroke_name (suc n) = "1" ∷ₜ stroke_name n

abbrev size : String → ℕ
size empty_text = 0
size (c ∷ₜ s) = suc (size s)

size-stroke_name : (n : ℕ) → size (stroke_name n) ≡ n + 12
size-stroke_name zero = refl
size-stroke_name (suc n) = omega (arith, size-stroke_name n)

names_apart : (j k : ℕ) → j < k → str_eq (stroke_name k) (stroke_name j) ≡ false
names_apart j k lt = elim (Bool-cases (str_eq (stroke_name k) (stroke_name j))) [
  | inr other ↦ other
  | inl same ↦
      let e = ap size ((eq_iff (stroke_name k) (stroke_name j)).0 same) in
      absurd (omega (arith, e, size-stroke_name j, size-stroke_name k))
]

calc_worker_name-IsFirstFree_example :
    (k : ℕ) × (calc_worker_name stroke_name ("1host-worker." ∷ []) ≡ some (stroke_name k))
    × IsFirstFree stroke_name ("1host-worker." ∷ []) 1 k
calc_worker_name-IsFirstFree_example =
    calc_worker_name-IsFirstFree stroke_name names_apart ("1host-worker." ∷ [])

abbrev all_wait : String → Bool
all_wait q = true

served-has_name_example :
    has_name "low" (served (all_wait ∷ all_wait ∷ []) ("high" ∷ "low" ∷ [])) ≡ true
unfolding index_of
served-has_name_example =
    served-has_name "low" (all_wait ∷ all_wait ∷ []) ("high" ∷ "low" ∷ []) 1 (refl, (refl, tt)) refl
      (omega arith)

abbrev pub some_worker : WorkerModel
some_worker = record {
  name = "w";
  queue_names = "default" ∷ [];
  pid = 7;
  state = busy;
  job_execution_process_pid = 0;
  successful_job_count = 2;
  failed_job_count = 1;
  completed_jobs = 3;
  last_heartbeat = none;
  is_suspended = false;
  current_job_name = none;
  stopped_job_name = none;
  current_job_working_time = 0;
  last_cleaned_at = none;
  shutdown_requested_date = none;
  has_scheduler = false;
}

worker_perform_job-IsOver_example :
    (let (result, job, c, model) =
        worker_perform_job memory quiet default_configuration "default" none 8 101 105 waiting_job
          one_waiting some_worker in
      IsOver memory quiet default_configuration "default" some_worker job c model)
worker_perform_job-IsOver_example =
    worker_perform_job-IsOver memory quiet default_configuration "default" none 8 101 105
      waiting_job one_waiting some_worker

-- A job that is due since 50.
abbrev one_due : Store
one_due = record one_waiting {
  entries =
      record {
        queue = "default";
        registry = Registry.scheduled;
        name = "default::1";
        score = pos 50;
      }
      ∷ [];
}

enqueue_due-zscore_example :
    (memory.zscore "default" Registry.scheduled "default::1"
        (enqueue_due memory quiet default_configuration 100 default_queue one_due)
      ≡ none)
    × (is_in memory (
          memory.zscore "default" Registry.queued "default::1"
            (enqueue_due memory quiet default_configuration 100 default_queue one_due))
        ≡ true)
unfolding find_score find_first listed
enqueue_due-zscore_example =
    enqueue_due-zscore memory quiet default_configuration 100 default_queue refl one_due
      "default::1" (pos 50) waiting_job refl refl refl refl (omega arith)

abbrev own_key : String → String
own_key q = q

abbrev no_locks : key_table.Conn
no_locks = λ k. none

lock_queues_exclusive_example :
    has_name "default"
      (lock_queues key_table own_key "2" 70
        ("default" ∷ [])
        (lock_queues key_table own_key "1" 70 ("high" ∷ "default" ∷ []) no_locks).1).0
    ≡ false
unfolding lock_queues acquire
lock_queues_exclusive_example =
    lock_queues_exclusive key_table own_key (λ a a'. refl) "1" "2" 70 70 ("high" ∷ "default" ∷ [])
      ("default" ∷ []) "default" no_locks refl

abbrev first_scheduler : WorkerScheduler
first_scheduler = record {
  pid = "1";
  queues = "default" ∷ [];
  locks = "default" ∷ [];
  scheduled_job_registries = "default" ∷ [];
  lock_acquisition_time = some 100;
  interval = 10;
  status = started;
}

-- The lock of the first scheduler has lapsed and the second one has taken it.
stop-get_example :
    key_table.get "default"
      (stop key_table own_key first_scheduler
        (lock_queues key_table own_key "2" 70 ("default" ∷ []) (
          key_table.lapse "default"
            (lock_queues key_table own_key "1" 70 ("default" ∷ []) no_locks).1)).1).1
    ≡ none
stop-get_example =
    stop-get key_table own_key (λ a a'. refl) first_scheduler "default"
      (lock_queues key_table own_key "2" 70 ("default" ∷ []) (
        key_table.lapse "default"
          (lock_queues key_table own_key "1" 70 ("default" ∷ []) no_locks).1)).1
      refl

-- A worker that has a job in a process of its own.
abbrev forked_worker : WorkerModel
forked_worker = record some_worker {
  job_execution_process_pid = 9;
  current_job_name = some "default::1";
}

abbrev own_group : ℕ → Option ℕ
own_group pid = some pid

-- The group 9 gets the signal, and no other.
stop_job-IsTarget_example :
    let after = stop_job memory own_group "w" "default::1" one_waiting (forked_worker ∷ []) in
    (after.1 ≡ some 9) ↔ (
      (w : WorkerModel) × (w' : WorkerModel) × (job : JobModel) × (find_worker "w"
          (forked_worker ∷ [])
        ≡ some w)
      × (memory.hgetall "default::1" one_waiting ≡ some job)
      × IsTarget own_group "default::1" w 9
      × (find_worker "w" after.0 ≡ some w')
      × (failure_status w'.stopped_job_name "default::1" ≡ JobStatus.stopped))
stop_job-IsTarget_example =
    stop_job-IsTarget memory own_group "w" "default::1" one_waiting (forked_worker ∷ []) 9

-- The signal is sent.
stop_sends :
    (stop_job memory own_group "w" "default::1" one_waiting (forked_worker ∷ [])).1 ≡ some 9
unfolding stop_job stop_both stop_found find_worker find_first kill_group
stop_sends = refl
