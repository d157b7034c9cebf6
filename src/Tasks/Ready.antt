-- ===== src/Tasks/Ready.antt =====
-- What the checks of a task make sure of: Task.clean and Task._schedule_time of
-- scheduler/models/task.py.
use mathlib.Core.Path.{subst}
use daily_scheduler.Base.{
  ◌&&◌, not, ℕ, zero, suc, ◌+◌, ◌-◌, ◌*◌, ◌<◌, ◌≡◌, refl, String, Bool, true, false, Option, none,
  some, arith, ltb, leb, if◌then◌else◌, Bool-cases, inl, inr, sym, ◌∙◌, ap,
}
use daily_scheduler.Tasks.Model.{
  get_next_cron_time, next_date, mem_text, Task, TaskType, cron, repeatable, once, Environment, Run,
  done, raise, TaskError, type_error, invalid_cron_string, scheduled_time_required,
  scheduled_time_past, interval_too_low, result_ttl_too_low, is_short, is_set, ◌>>=◌,
  interval_seconds, ceil_div, has_repeats, less_repeats, move_on, required, repeat_time, moved_task,
  schedule_time, clean, clean_type, clean_common, clean_cron, clean_once, clean_interval_unit,
  clean_result_ttl, default_time,
}

-- What the checks make sure of, by the type of the task.
abbrev pub IsChecked : TaskType → Task → Type 0
IsChecked cron task = (s : String) × (task.cron_string ≡ some s)
IsChecked repeatable task =
    (t : ℕ) × (i : ℕ) × (task.scheduled_time ≡ some t) × (interval_seconds task ≡ done i) × (0 < i)
IsChecked once task = (t : ℕ) × (task.scheduled_time ≡ some t)

-- What a task needs for its next time to be computed at a moment: for a cron string, a next date.
abbrev pub IsReady : Environment → ℕ → TaskType → Task → Type 0
IsReady env now cron task =
    (s : String) × (t : ℕ) × (task.cron_string ≡ some s) × (env.next_cron s now ≡ some t)
IsReady env now repeatable task = IsChecked repeatable task
IsReady env now once task = IsChecked once task

raised-ne-done {ℓ} : {A : Type ℓ} (error : TaskError) (x : A) → raise error ≡ done x → ⊥
raised-ne-done error x e = cc

done_of_if {ℓ} :
    {A : Type ℓ} (k : Bool) (error : TaskError) (x y : A)
    → (if k then raise error else done x) ≡ done y
    → (k ≡ false) × (x ≡ y)
done_of_if true error x y e = absurd (raised-ne-done error y e)
done_of_if false error x y e = (refl, cc)

done_or_not {ℓ} :
    {A : Type ℓ} (k : Bool) (error : TaskError) (r : Run A) (y : A)
    → (if k then raise error else r) ≡ done y
    → (k ≡ false) × (r ≡ done y)
done_or_not true error r y e = absurd (raised-ne-done error y e)
done_or_not false error r y e = (refl, e)

bind-done {ℓ κ} :
    {A : Type ℓ} {B : Type κ} (r : Run A) (f : A → Run B) (y : B)
    → (r >>= f) ≡ done y
    → (x : A) × (r ≡ done x) × (f x ≡ done y)
bind-done (done x) f y e = (x, refl, e)
bind-done (raise error) f y e = absurd (raised-ne-done error y e)

clean_cron-IsChecked :
    (env : Environment) (o : Option String) (task task' : Task)
    → task.cron_string ≡ o
    → clean_cron env o task ≡ done task'
    → (task ≡ task') × IsChecked cron task
unfolding clean_cron
clean_cron-IsChecked env none task task' h e = absurd (raised-ne-done type_error task' e)
clean_cron-IsChecked env (some s) task task' h e = elim (Bool-cases (env.is_cron s)) [
  | inl good ↦ (cc, (s, h))
  | inr bad ↦ absurd (raised-ne-done invalid_cron_string task' (sym (rw bad refl) ∙ e))
]

clean_once-IsChecked :
    (now : ℕ) (o : Option ℕ) (task task' : Task)
    → task.scheduled_time ≡ o
    → clean_once now o task ≡ done task'
    → (task ≡ task') × IsChecked once task
unfolding clean_once
clean_once-IsChecked now none task task' h e =
    absurd (raised-ne-done scheduled_time_required task' e)
clean_once-IsChecked now (some t) task task' h e =
    ((done_of_if (ltb t now) scheduled_time_past task task' e).1, (t, h))

clean_interval_unit-IsChecked :
    (env : Environment) (task task' : Task)
    → 0 < env.scheduler_interval
    → clean_interval_unit env task ≡ done task'
    → (task ≡ task') × ((i : ℕ) × (interval_seconds task ≡ done i) × (0 < i))
unfolding clean_interval_unit
clean_interval_unit-IsChecked env task task' p e =
    let (i, every, rest) = bind-done (interval_seconds task) _ task' e in
    let (enough, same) =
      done_of_if (ltb i env.scheduler_interval) interval_too_low task task' rest in
    (same, (i, every, ground arith))

clean_result_ttl-same : (task task' : Task) → clean_result_ttl task ≡ done task' → task ≡ task'
unfolding clean_result_ttl
clean_result_ttl-same task task' e =
    let (i, every, rest) = bind-done (interval_seconds task) _ task' e in
    (done_of_if (is_short task.result_ttl i && is_set task.repeat) result_ttl_too_low task task'
      rest).1

default_time-IsChecked :
    (now i : ℕ) (o : Option ℕ) (task : Task)
    → task.scheduled_time ≡ o
    → interval_seconds task ≡ done i
    → 0 < i
    → IsChecked repeatable (default_time now o task)
unfolding default_time interval_seconds
default_time-IsChecked now i none task h every p = (now + 2, i, refl, every, p)
default_time-IsChecked now i (some t) task h every p = (t, i, h, every, p)

type_default_time :
    (now : ℕ) (o : Option ℕ) (task : Task) → (default_time now o task).task_type ≡ task.task_type
unfolding default_time
type_default_time now none task = refl
type_default_time now (some t) task = refl

clean_type-IsChecked :
    (env : Environment) (now : ℕ) (kind : TaskType) (task task' : Task)
    → 0 < env.scheduler_interval
    → clean_type env now kind task ≡ done task'
    → IsChecked kind task' × (task'.task_type ≡ task.task_type)
unfolding clean_type
clean_type-IsChecked env now cron task task' p e =
    let (same, ready) = clean_cron-IsChecked env task.cron_string task task' refl e in
    (subst (IsChecked cron) same ready, ap (λ (x : Task). x.task_type) (sym same))
clean_type-IsChecked env now once task task' p e =
    let (same, ready) = clean_once-IsChecked now task.scheduled_time task task' refl e in
    (subst (IsChecked once) same ready, ap (λ (x : Task). x.task_type) (sym same))
clean_type-IsChecked env now repeatable task task' p e =
    let (task1, first, rest) = bind-done (clean_interval_unit env task) _ task' e in
    let (same1, (i, every, positive)) = clean_interval_unit-IsChecked env task task1 p first in
    let (task2, second, last) = bind-done (clean_result_ttl task1) _ task' rest in
    let same2 = clean_result_ttl-same task1 task2 second in
    let same = same1 ∙ same2 in
    let every2 : interval_seconds task2 ≡ done i =
      subst (λ x. interval_seconds x ≡ done i) same every in
    let ready = default_time-IsChecked now i task2.scheduled_time task2 refl every2 positive in
    let end_ : default_time now task2.scheduled_time task2 ≡ task' = cc in
    (
      subst (IsChecked repeatable) end_ ready,
      ap (λ (x : Task). x.task_type) (sym end_)
          ∙ type_default_time now task2.scheduled_time task2
          ∙ ap (λ (x : Task). x.task_type) (sym same),
    )

clean_common-same :
    (env : Environment) (task task' : Task) → clean_common env task ≡ done task' → task ≡ task'
unfolding clean_common
clean_common-same env task task' e =
    let (known, rest) =
      done_or_not (not (mem_text task.queue env.queue_names)) TaskError.invalid_queue _ task' e in
    (done_of_if (not (env.is_callable task.callable)) TaskError.invalid_callable task task' rest).1

clean-IsChecked :
    (env : Environment) (now : ℕ) (task task' : Task)
    → 0 < env.scheduler_interval
    → clean env now task ≡ done task'
    → IsChecked task'.task_type task'
unfolding clean
clean-IsChecked env now task task' p e =
    let (task1, common, rest) = bind-done (clean_common env task) _ task' e in
    let (ready, kind) = clean_type-IsChecked env now task1.task_type task1 task' p rest in
    subst (λ k. IsChecked k task') (sym kind) ready

-- A task with another time and other repeats.
abbrev pub moved : ℕ → Option ℕ → Task → Task
moved time left task = record task { scheduled_time = some time; repeat = left }

same_moved : (t : ℕ) (task : Task) → task.scheduled_time ≡ some t → task ≡ moved t task.repeat task
same_moved t task e = ap (λ o. record task { scheduled_time = o }) e

repeat_time-done :
    (now t i : ℕ) (task : Task)
    → task.scheduled_time ≡ some t
    → interval_seconds task ≡ done i
    → 0 < i
    → (time : ℕ) × (left : Option ℕ) × (repeat_time now task ≡ done (moved time left task))
unfolding repeat_time required move_on
repeat_time-done now t zero task at_ every p = absurd (omega arith)
repeat_time-done now t (suc i) task at_ every p = elim (Bool-cases (leb now t)) [
  | inl early ↦ (t, task.repeat, simp (at_, early) (ap done (same_moved t task at_)))
  | inr late ↦ elim (Bool-cases (has_repeats task.repeat (ceil_div (now - t) (suc i)))) [
    | inl enough ↦ (
      t + suc i * ceil_div (now - t) (suc i),
      less_repeats task.repeat (ceil_div (now - t) (suc i)),
      simp (at_, late, every, enough),
    )
    | inr few ↦ (t, task.repeat, simp (at_, late, every, few) (ap done (same_moved t task at_)))
  ]
]

moved_task-done :
    (env : Environment) (now : ℕ) (kind : TaskType) (task : Task)
    → IsReady env now kind task
    → (time : ℕ) × (left : Option ℕ) × (moved_task env now kind task ≡ done (moved time left task))
unfolding moved_task get_next_cron_time next_date
moved_task-done env now cron task (s, t, h, e) = (t, task.repeat, simp (h, e))
moved_task-done env now repeatable task (t, i, at_, every, p) =
    repeat_time-done now t i task at_ every p
moved_task-done env now once task (t, h) = (t, task.repeat, ap done (same_moved t task h))

pub schedule_time-moved :
    (env : Environment) (now : ℕ) (task : Task)
    → IsReady env now task.task_type task
    → (time : ℕ) × (left : Option ℕ) × (schedule_time env now task
        ≡ done (time, moved time left task))
unfolding schedule_time required
schedule_time-moved env now task ready =
    let (time, left, h) = moved_task-done env now task.task_type task ready in
    (time, left, simp (h))

checked-IsReady :
    (env : Environment) (now : ℕ) (kind : TaskType) (task : Task)
    → ((s : String) → task.cron_string ≡ some s → (t : ℕ) × (env.next_cron s now ≡ some t))
    → IsChecked kind task
    → IsReady env now kind task
checked-IsReady env now cron task dated (s, h) = let (t, e) = dated s h in (s, t, h, e)
checked-IsReady env now repeatable task dated checked = checked
checked-IsReady env now once task dated checked = checked

-- A task that the form's checks pass has a next time at every later moment at which its cron string,
-- if it has one, has a next date, with a scheduler interval above 0. Of the task it changes no more
-- than the time and the repeats.
pub clean-schedule_time :
    (env : Environment) (now now' : ℕ) (task task' : Task)
    → 0 < env.scheduler_interval
    → ((s : String) → task'.cron_string ≡ some s → (t : ℕ) × (env.next_cron s now' ≡ some t))
    → clean env now task ≡ done task'
    → (time : ℕ) × (left : Option ℕ) × (schedule_time env now' task'
        ≡ done (time, moved time left task'))
clean-schedule_time env now now' task task' p dated e =
    schedule_time-moved env now' task' (
      checked-IsReady env now' task'.task_type task' dated (clean-IsChecked env now task task' p e))
