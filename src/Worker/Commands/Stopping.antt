-- ===== src/Worker/Commands/Stopping.antt =====
-- When the command to stop a job sends a signal (scheduler/worker/commands/stop_job.py).
use mathlib.Core.Path.{subst}
use daily_scheduler.Base.{
  ℕ, ◌≡◌, ◌↔◌, refl, sym, ap, ◌∙◌, String, false, true, Option, none, some, List, arith, eq_iff,
  eq_refl, ◌==◌, Bool-cases, inl, inr,
}
use daily_scheduler.Jobs.Model.{JobModel, JobStatus}
use daily_scheduler.Jobs.Broker.{Broker}
use daily_scheduler.Worker.Perform.{WorkerModel, failure_status}
use daily_scheduler.Worker.Commands.{
  find_worker, update_worker, is_current, stop_requested, kill_group, stop_found, stop_both,
  stop_job, find_worker-name, find_worker-update_worker,
}

stop_found-update :
    (group_of : ℕ → Option ℕ) (job_name : String) (w : WorkerModel) (workers : List WorkerModel)
    → (w.job_execution_process_pid == 0) ≡ false
    → (w.pid == w.job_execution_process_pid) ≡ false
    → is_current w.current_job_name job_name ≡ true
    → stop_found group_of job_name w workers ≡ (
      update_worker w.name (stop_requested job_name) workers,
      kill_group w.pid (group_of w.job_execution_process_pid),
    )
unfolding stop_found
stop_found-update group_of job_name w workers forked apart current =
    rw forked (rw apart (rw current refl))

failure_status-same : (n : String) → failure_status (some n) n ≡ JobStatus.stopped
unfolding failure_status
failure_status-same n = rw (eq_refl n) refl

-- A worker that the command marks keeps the mark until it handles the end of the job's process.
stop_job-failure_status :
    (b : Broker) (group_of : ℕ → Option ℕ) (worker_name job_name : String) (c : b.Conn)
    (workers : List WorkerModel) (w : WorkerModel) (job : JobModel)
    → find_worker worker_name workers ≡ some w
    → b.hgetall job_name c ≡ some job
    → (w.job_execution_process_pid == 0) ≡ false
    → (w.pid == w.job_execution_process_pid) ≡ false
    → is_current w.current_job_name job_name ≡ true
    → (w' : WorkerModel) × (find_worker worker_name
          (stop_job b group_of worker_name job_name c workers).0
        ≡ some w')
      × (failure_status w'.stopped_job_name job_name ≡ JobStatus.stopped)
      × ((stop_job b group_of worker_name job_name c workers).1
          ≡ kill_group w.pid (group_of w.job_execution_process_pid))
unfolding stop_job stop_both
stop_job-failure_status b group_of worker_name job_name c workers w job found stored forked apart
      current =
    let named : w.name ≡ worker_name =
      (eq_iff w.name worker_name).0 (find_worker-name worker_name workers w found) in
    let result : stop_job b group_of worker_name job_name c workers ≡ (
      update_worker w.name (stop_requested job_name) workers,
      kill_group w.pid (group_of w.job_execution_process_pid),
    ) =
      ap (λ o. stop_both group_of job_name o (b.hgetall job_name c) workers) found
      ∙ ap (λ o. stop_both group_of job_name (some w) o workers) stored
      ∙ stop_found-update group_of job_name w workers forked apart current in
    (
      stop_requested job_name w,
      ap (λ r. find_worker worker_name r.0) result
          ∙ ap (λ n. find_worker worker_name (update_worker n (stop_requested job_name) workers))
              named
          ∙ find_worker-update_worker worker_name (stop_requested job_name) workers w (λ v. refl)
              found,
      failure_status-same job_name,
      ap (λ r. r.1) result,
    )

-- What has to hold of a worker for the command to signal a group.
abbrev pub IsTarget : (ℕ → Option ℕ) → String → WorkerModel → ℕ → Type 0
IsTarget group_of job_name w g =
    ((w.job_execution_process_pid == 0) ≡ false)
    × ((w.pid == w.job_execution_process_pid) ≡ false)
    × (is_current w.current_job_name job_name ≡ true)
    × (group_of w.job_execution_process_pid ≡ some g)
    × ((g == w.pid) ≡ false)

kill_group_inv :
    (pid g : ℕ) (o : Option ℕ) → kill_group pid o ≡ some g → (o ≡ some g) × ((g == pid) ≡ false)
unfolding kill_group
kill_group_inv pid g none e = absurd cc
kill_group_inv pid g (some group) e = elim (Bool-cases (group == pid)) [
  | inl own ↦ absurd (ground arith)
  | inr other ↦
      let it : some group ≡ some g = sym (rw other refl) ∙ e in
      let same : group ≡ g = cc in (it, subst (λ n. (n == pid) ≡ false) same other)
]

kill_group-other : (pid g : ℕ) → (g == pid) ≡ false → kill_group pid (some g) ≡ some g
unfolding kill_group
kill_group-other pid g other = rw other refl

stop_found-IsTarget :
    (group_of : ℕ → Option ℕ) (job_name : String) (w : WorkerModel) (workers : List WorkerModel)
    (g : ℕ)
    → (stop_found group_of job_name w workers).1 ≡ some g
    → IsTarget group_of job_name w g
unfolding stop_found
stop_found-IsTarget group_of job_name w workers g e =
    elim (Bool-cases (w.job_execution_process_pid == 0)) [
      | inl idle ↦ absurd (ground arith)
      | inr forked ↦ elim (Bool-cases (w.pid == w.job_execution_process_pid)) [
        | inl own ↦ absurd (ground arith)
        | inr apart ↦ elim (Bool-cases (is_current w.current_job_name job_name)) [
          | inr other ↦ absurd (ground arith)
          | inl current ↦
              let (group, not_own) =
                kill_group_inv w.pid g (group_of w.job_execution_process_pid)
                  (sym (rw (forked, apart, current) refl) ∙ e) in
              (forked, apart, current, group, not_own)
        ]
      ]
    ]

stop_both-IsTarget :
    (group_of : ℕ → Option ℕ) (job_name : String) (found : Option WorkerModel)
    (stored : Option JobModel) (workers : List WorkerModel) (g : ℕ)
    → (stop_both group_of job_name found stored workers).1 ≡ some g
    → (w : WorkerModel) × (job : JobModel) × (found ≡ some w)
      × (stored ≡ some job)
      × IsTarget group_of job_name w g
unfolding stop_both
stop_both-IsTarget group_of job_name none stored workers g e = absurd cc
stop_both-IsTarget group_of job_name (some w) none workers g e = absurd cc
stop_both-IsTarget group_of job_name (some w) (some job) workers g e =
    (w, job, refl, refl, stop_found-IsTarget group_of job_name w workers g e)

-- The command to stop a job sends a signal to a group exactly if the worker and the job's hash are
-- there, the job is the worker's current one and has a process other than the worker's, and the group
-- is that of the process and not numbered like the worker's process; and a worker for whose job a
-- signal was sent is marked, so that the job's end counts as stopped and not as failed.
pub stop_job-IsTarget :
    (b : Broker) (group_of : ℕ → Option ℕ) (worker_name job_name : String) (c : b.Conn)
    (workers : List WorkerModel) (g : ℕ)
    → let after = stop_job b group_of worker_name job_name c workers in
      (after.1 ≡ some g) ↔ (
        (w : WorkerModel) × (w' : WorkerModel) × (job : JobModel) × (find_worker worker_name workers
          ≡ some w)
        × (b.hgetall job_name c ≡ some job)
        × IsTarget group_of job_name w g
        × (find_worker worker_name after.0 ≡ some w')
        × (failure_status w'.stopped_job_name job_name ≡ JobStatus.stopped))
stop_job-IsTarget b group_of worker_name job_name c workers g = (
  λ e.
      let (w, job, found, stored, (forked, apart, current, group, not_own)) =
        stop_both-IsTarget group_of job_name (find_worker worker_name workers)
          (b.hgetall job_name c) workers g (unfold stop_job in e) in
      let (w', marked, stopped, signal) =
        stop_job-failure_status b group_of worker_name job_name c workers w job found stored forked
          apart current in
      (w, w', job, found, stored, (forked, apart, current, group, not_own), marked, stopped),
  λ (w, w', job, found, stored, (forked, apart, current, group, not_own), marked', stopped').
      let (w'', marked, stopped, signal) =
        stop_job-failure_status b group_of worker_name job_name c workers w job found stored forked
          apart current in
      signal ∙ ap (kill_group w.pid) group ∙ kill_group-other w.pid g not_own,
)
