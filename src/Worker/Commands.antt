-- ===== src/Worker/Commands.antt =====
-- The commands that a worker is sent: stop_job.py and suspend_worker.py of scheduler/worker/commands.
-- `workers` are the hashes of the workers. A command leaves the hashes, and a signal where it sends
-- one; `group_of` is os.getpgid, with none for a process that is not there.
pub mod Stopping
use mathlib.Core.Path.{subst}
use daily_scheduler.Base.{
  ℕ, ◌≡◌, ◌↔◌, refl, sym, ap, ◌∙◌, String, Bool, true, false, not, Option, none, some, List, [],
  ◌∷◌, str_eq, eq_iff, eq_refl, ◌==◌, if◌then◌else◌, Bool-cases, inl, inr,
}
use daily_scheduler.Jobs.Model.{JobModel, JobStatus}
use daily_scheduler.Jobs.Broker.{Broker}
use daily_scheduler.Worker.Perform.{WorkerModel, failure_status}

unfoldable pub find_worker : String → List WorkerModel → Option WorkerModel
find_worker name [] = none
find_worker name (w ∷ ws) = if str_eq w.name name then some w else find_worker name ws

-- WorkerModel.set_field, for the worker of the name.
unfoldable pub update_worker :
    String → (WorkerModel → WorkerModel) → List WorkerModel → List WorkerModel
update_worker name change [] = []
update_worker name change (w ∷ ws) =
    let rest = update_worker name change ws in
    if str_eq w.name name then change w ∷ ws else w ∷ rest

abbrev pub is_current : Option String → String → Bool
is_current none job_name = false
is_current (some current) job_name = str_eq current job_name

abbrev pub stop_requested : String → WorkerModel → WorkerModel
stop_requested job_name w = record w { stopped_job_name = some job_name }

-- The signal to the group of the job's process, unless it is the worker's own.
unfoldable pub kill_group : ℕ → Option ℕ → Option ℕ
kill_group pid none = none
kill_group pid (some group) = if group == pid then none else some group

-- The part of StopJobCommand.process_command behind the reading of the worker and the job.
unfoldable pub stop_found :
    (ℕ → Option ℕ) → String → WorkerModel → List WorkerModel → List WorkerModel × Option ℕ
unfolding kill_group update_worker
stop_found group_of job_name w workers =
    if w.job_execution_process_pid == 0
    then (workers, none)
    else if w.pid == w.job_execution_process_pid
    then (workers, none)
    else if not (is_current w.current_job_name job_name)
    then (workers, none)
    else (
      update_worker w.name (stop_requested job_name) workers,
      kill_group w.pid (group_of w.job_execution_process_pid),
    )

unfoldable pub stop_both :
    (ℕ → Option ℕ)
    → String
    → Option WorkerModel
    → Option JobModel
    → List WorkerModel
    → List WorkerModel × Option ℕ
unfolding stop_found
stop_both group_of job_name none job workers = (workers, none)
stop_both group_of job_name (some w) none workers = (workers, none)
stop_both group_of job_name (some w) (some job) workers = stop_found group_of job_name w workers

-- StopJobCommand.process_command
unfoldable pub stop_job :
    (b : Broker)
    → (ℕ → Option ℕ)
    → String
    → String
    → b.Conn
    → List WorkerModel
    → List WorkerModel × Option ℕ
unfolding stop_both find_worker
stop_job b group_of worker_name job_name c workers =
    stop_both group_of job_name (find_worker worker_name workers) (b.hgetall job_name c) workers

unfoldable pub set_suspended : Bool → Option WorkerModel → List WorkerModel → List WorkerModel
unfolding update_worker
set_suspended value none workers = workers
set_suspended true (some w) workers =
    if w.is_suspended
    then workers
    else update_worker w.name (λ v. record v { is_suspended = true }) workers
set_suspended false (some w) workers =
    if not w.is_suspended
    then workers
    else update_worker w.name (λ v. record v { is_suspended = false }) workers

-- SuspendWorkCommand.process_command and ResumeWorkCommand.process_command
unfoldable pub suspend : String → List WorkerModel → List WorkerModel
unfolding set_suspended find_worker
suspend worker_name workers = set_suspended true (find_worker worker_name workers) workers

unfoldable pub resume : String → List WorkerModel → List WorkerModel
unfolding set_suspended find_worker
resume worker_name workers = set_suspended false (find_worker worker_name workers) workers

-- The worker found has the name.
pub find_worker-name :
    (name : String) (ws : List WorkerModel) (w : WorkerModel)
    → find_worker name ws ≡ some w
    → str_eq w.name name ≡ true
unfolding find_worker
find_worker-name name [] w e = absurd cc
find_worker-name name (x ∷ ws) w e = elim (Bool-cases (str_eq x.name name)) [
  | inl same ↦
      let found : some x ≡ some w = sym (rw same refl) ∙ e in
      let it : x ≡ w = cc in subst (λ (v : WorkerModel). str_eq v.name name ≡ true) it same
  | inr other ↦ find_worker-name name ws w (sym (rw other refl) ∙ e)
]

pub find_worker-cons :
    (name : String) (w : WorkerModel) (ws : List WorkerModel)
    → str_eq w.name name ≡ true
    → find_worker name (w ∷ ws) ≡ some w
unfolding find_worker
find_worker-cons name w ws same = rw same refl

update_worker-cons :
    (name : String) (change : WorkerModel → WorkerModel) (w : WorkerModel) (ws : List WorkerModel)
    → str_eq w.name name ≡ true
    → update_worker name change (w ∷ ws) ≡ change w ∷ ws
unfolding update_worker
update_worker-cons name change w ws same = rw same refl

-- What a change of the worker's hash leaves under its name.
pub find_worker-update_worker :
    (name : String) (change : WorkerModel → WorkerModel) (ws : List WorkerModel) (w : WorkerModel)
    → ((v : WorkerModel) → (change v).name ≡ v.name)
    → find_worker name ws ≡ some w
    → find_worker name (update_worker name change ws) ≡ some (change w)
unfolding find_worker update_worker
find_worker-update_worker name change [] w keeps e = absurd cc
find_worker-update_worker name change (x ∷ ws) w keeps e = elim (Bool-cases (str_eq x.name name)) [
  | inl same ↦
      let found : some x ≡ some w = sym (rw same refl) ∙ e in
      let it : x ≡ w = cc in
      let named : str_eq (change x).name name ≡ true = ap (λ n. str_eq n name) (keeps x) ∙ same in
      ap (find_worker name) (update_worker-cons name change x ws same)
      ∙ find_worker-cons name (change x) ws named
      ∙ ap (λ v. some (change v)) it
  | inr other ↦
      rw other
        (rw other (find_worker-update_worker name change ws w keeps (sym (rw other refl) ∙ e)))
]
