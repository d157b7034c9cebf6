-- ===== src/Planner/Copying/Counts.antt =====
-- What copying the tasks of the day before adds.
use daily_scheduler.Base.{
  ℕ, ◌+◌, ◌≡◌, refl, Bool, not, ◌&&◌, Option, none, some, List, [], ◌∷◌, arith, count, length,
  length-append, ◌==◌, ◌∙◌,
}
use daily_scheduler.Planner.Model.{PersonalTask, TaskTable, SubTaskTable}
use daily_scheduler.Planner.Copying.{
  TaskOverride, override_times, copy_row, Copies, with_error, copy_timed, copy_found, yesterdays,
  copy_all, copy_tasks_from_yesterday,
}

module _ (t : TaskTable) (s : SubTaskTable) where
  -- What a number of rounds adds: each a copy, which is a row of the new date, or an error.
  module _ (yesterday : ℕ) where
    abbrev pub new_rows : (PersonalTask → Bool) → Copies t s → ℕ
    new_rows p c = count (λ x. p x && not (x.date == yesterday + 1)) (t.rows c.tasks)

    record Grown (c c' : Copies t s) (n : ℕ) : Type 0 where
      pub all :
          length c'.copied_tasks + length c'.errors ≡ length c.copied_tasks + length c.errors + n
      pub rows :
          count (λ x. x.date == yesterday + 1) (t.rows c'.tasks) + length c.copied_tasks
          ≡ count (λ x. x.date == yesterday + 1) (t.rows c.tasks) + length c'.copied_tasks
      pub others : (p : PersonalTask → Bool) → new_rows p c' ≡ new_rows p c

    Grown-with_error : (task_id : ℕ) (c : Copies t s) → Grown c (with_error t s task_id c) 1
    Grown-with_error task_id c = record {
      all = omega (arith, length-append c.errors (task_id ∷ []));
      rows = refl;
      others = λ p. refl;
    }

    Grown-copy_timed :
        (task_id : ℕ) (original : PersonalTask) (times : Option (ℕ × ℕ)) (c : Copies t s)
        → Grown c (copy_timed t s (yesterday + 1) task_id original times c) 1
    unfolding copy_timed
    Grown-copy_timed task_id original none c = Grown-with_error task_id c
    Grown-copy_timed task_id original (some (start_time, end_time)) c =
        let row = copy_row original (yesterday + 1) (start_time, end_time) (t.next_id c.tasks) in
        record {
          all = omega (arith, length-append c.copied_tasks (t.next_id c.tasks ∷ []));
          rows = ground (
            arith,
            length-append c.copied_tasks (t.next_id c.tasks ∷ []),
            t.count-insert (λ x. x.date == yesterday + 1) row c.tasks,
          );
          others = λ p.
              ground
                (arith, t.count-insert (λ x. p x && not (x.date == yesterday + 1)) row c.tasks);
        }

    Grown-copy_found :
        (task_id : ℕ) (override : Option TaskOverride) (found : Option PersonalTask)
        (c : Copies t s)
        → Grown c (copy_found t s (yesterday + 1) task_id override found c) 1
    unfolding copy_found
    Grown-copy_found task_id override none c = Grown-with_error task_id c
    Grown-copy_found task_id override (some original) c =
        Grown-copy_timed task_id original (override_times override original) c

    Grown-copy_all :
        (time_overrides : ℕ → Option TaskOverride) (task_ids : List ℕ) (c : Copies t s)
        → Grown c (copy_all t s yesterday time_overrides task_ids c) (length task_ids)
    unfolding copy_all
    Grown-copy_all time_overrides [] c = record {
      all = omega arith;
      rows = refl;
      others = λ p. refl;
    }
    Grown-copy_all time_overrides (task_id ∷ rest) c =
        let found = yesterdays t s yesterday task_id c.tasks in
        let one = Grown-copy_found task_id (time_overrides task_id) found c in
        let more =
          Grown-copy_all time_overrides rest
            (copy_found t s (yesterday + 1) task_id (time_overrides task_id) found c) in
        record {
          all = omega (arith, one.all, more.all);
          rows = omega (arith, one.rows, more.rows);
          others = λ p. more.others p ∙ one.others p;
        }

  -- Every id of the request gives one copy or one error; the new date has one more row for each
  -- copy, and every test counts the rows of the other dates as before.
  pub copy_tasks_from_yesterday_counts :
      (yesterday : ℕ) (time_overrides : ℕ → Option TaskOverride) (task_ids : List ℕ) (tasks : t.Db)
      (subtasks : s.Db) (p : PersonalTask → Bool)
      → let c = copy_tasks_from_yesterday t s yesterday time_overrides task_ids tasks subtasks in
        (length c.copied_tasks + length c.errors ≡ length task_ids)
        × (count (λ x. x.date == yesterday + 1) (t.rows c.tasks)
            ≡ count (λ x. x.date == yesterday + 1) (t.rows tasks) + length c.copied_tasks)
        × (count (λ x. p x && not (x.date == yesterday + 1)) (t.rows c.tasks)
            ≡ count (λ x. p x && not (x.date == yesterday + 1)) (t.rows tasks))
  unfolding copy_tasks_from_yesterday
  copy_tasks_from_yesterday_counts yesterday time_overrides task_ids tasks subtasks p =
      let done =
        Grown-copy_all yesterday time_overrides task_ids
          (record { tasks = tasks; subtasks = subtasks; copied_tasks = []; errors = [] }) in
      (omega (arith, done.all), omega (arith, done.rows), done.others p)
