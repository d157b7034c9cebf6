-- ===== src/Tasks/Times.antt =====
-- When a late repeatable task runs next: Task._schedule_time of scheduler/models/task.py.
use daily_scheduler.Base.{
  ℕ, zero, suc, ◌+◌, ◌-◌, ◌*◌, ◌≤◌, ◌<◌, ◌≡◌, refl, true, false, some, arith, leb,
}
use daily_scheduler.Tasks.Model.{
  Task, repeatable, Environment, done, interval_seconds, ceil_div, has_repeats, less_repeats,
  move_on, required, repeat_time, moved_task, schedule_time,
}

-- The first multiple of the interval that reaches the moment.
ceil_div_lem : (a i : ℕ) → 0 < i → 0 < a → (a ≤ i * ceil_div a i) × (i * ceil_div a i < a + i)
ceil_div_lem a i p h = (omega arith, omega arith)

late_test : (now t : ℕ) → t < now → leb now t ≡ false
late_test now t h = ground arith

-- The time a repeatable task is moved on to, and its repeats.
pub record IsMoved (task task' : Task) (now t i : ℕ) : Type 0 where
  pub time : ℕ
  pub gap : ℕ
  pub scheduled : task'.scheduled_time ≡ some time
  pub whole : time ≡ t + i * gap
  pub not_past : now ≤ time
  pub first : time < now + i
  pub repeats : task'.repeat ≡ less_repeats task.repeat gap

move_on-IsMoved :
    (now t i : ℕ) (task : Task)
    → 0 < i
    → t < now
    → has_repeats task.repeat (ceil_div (now - t) i) ≡ true
    → (task' : Task) × (move_on now t i task ≡ done task') × IsMoved task task' now t i
unfolding move_on
move_on-IsMoved now t zero task p late enough = absurd (omega arith)
move_on-IsMoved now t (suc i) task p late enough =
    let gap = ceil_div (now - t) (suc i) in
    let (reaches, first) = ceil_div_lem (now - t) (suc i) p (omega arith) in
    (
      record task {
        scheduled_time = some (t + suc i * gap);
        repeat = less_repeats task.repeat gap;
      },
      rw enough refl,
      record {
        time = t + suc i * gap;
        gap = gap;
        scheduled = refl;
        whole = refl;
        not_past = omega arith;
        first = omega arith;
        repeats = refl;
      },
    )

-- A repeatable task that is late, and has repeats enough, is put off by whole intervals to the
-- first of its times that is not in the past, and its repeats go down by as many.
pub schedule_time-IsMoved :
    (env : Environment) (now t i : ℕ) (task : Task)
    → task.task_type ≡ repeatable
    → task.scheduled_time ≡ some t
    → interval_seconds task ≡ done i
    → 0 < i
    → t < now
    → has_repeats task.repeat (ceil_div (now - t) i) ≡ true
    → (time : ℕ) × (task' : Task) × (schedule_time env now task ≡ done (time, task'))
      × (task'.scheduled_time ≡ some time)
      × IsMoved task task' now t i
unfolding schedule_time moved_task repeat_time required
schedule_time-IsMoved env now t i task kind at_ every p late enough =
    let (task', moved, is_moved) = move_on-IsMoved now t i task p late enough in
    (
      is_moved.time,
      task',
      simp (kind, at_, late_test now t late, every, moved, is_moved.scheduled),
      is_moved.scheduled,
      is_moved,
    )
