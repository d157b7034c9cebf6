-- ===== src/Planner/Copying.antt =====
-- copy_tasks_from_yesterday of scheduler/views/personal_task_views.py, for a date and a request that
-- parse. A task is named by its id.
pub mod Counts
use daily_scheduler.Base.{
  ℕ, suc, ◌+◌, ◌*◌, ◌≤◌, ◌<◌, ◌≡◌, refl, Bool, true, false, not, ◌&&◌, Option, none, some, List, [],
  ◌∷◌, ◌++◌, arith, count, head?, select, length, length-append, ◌==◌, if◌then◌else◌, Option-cases,
  inl, inr,
}
use daily_scheduler.Orm.{Table}
use daily_scheduler.Planner.Model.{PersonalTask, TaskTable, SubTask, SubTaskTable}

-- A time of `time_overrides`: not there, no time of the form %H:%M, or a time.
pub data TimeOverride : Type 0 where
  absent invalid : TimeOverride
  at : ℕ → TimeOverride

pub record TaskOverride : Type 0 where
  pub start_time : TimeOverride
  pub end_time : TimeOverride

-- The time that a field gives way to; strptime raises on an invalid one.
unfoldable pub overridden : TimeOverride → ℕ → Option ℕ
overridden absent time = some time
overridden invalid time = none
overridden (at new) time = some new

unfoldable pub override_times : Option TaskOverride → PersonalTask → Option (ℕ × ℕ)
override_times none original = some (original.start_time, original.end_time)
override_times (some o) original = elim (overridden o.start_time original.start_time) [
  | none ↦ none
  | some start_time ↦ elim (overridden o.end_time original.end_time) [
    | none ↦ none
    | some end_time ↦ some (start_time, end_time)
  ]
]

abbrev pub copy_row : PersonalTask → ℕ → ℕ × ℕ → ℕ → PersonalTask
copy_row original current_date (start_time, end_time) id = record {
  id = id;
  title = original.title;
  description = original.description;
  date = current_date;
  start_time = start_time;
  end_time = end_time;
  category = original.category;
  is_completed = false;
  is_break = false;
  parent_task = none;
}

module _ (t : TaskTable) (s : SubTaskTable) where
  pub record Copies : Type 0 where
    pub tasks : t.Db
    pub subtasks : s.Db
    pub copied_tasks : List ℕ
    pub errors : List ℕ

  unfoldable pub copy_subtasks : ℕ → List SubTask → s.Db → s.Db
  copy_subtasks new_task [] e = e
  copy_subtasks new_task (x ∷ xs) e = copy_subtasks new_task xs (
      s.insert
        (record {
          id = s.next_id e;
          personal_task = new_task;
          title = x.title;
          is_completed = false;
          order = x.order;
        })
        e)

  abbrev pub with_error : ℕ → Copies → Copies
  with_error task_id c = record c { errors = c.errors ++ task_id ∷ [] }

  -- The copy of a task at the times that were read.
  unfoldable pub copy_timed : ℕ → ℕ → PersonalTask → Option (ℕ × ℕ) → Copies → Copies
  copy_timed current_date task_id original none c = with_error task_id c
  copy_timed current_date task_id original (some times) c =
      let id = t.next_id c.tasks in
      record c {
        tasks = t.insert (copy_row original current_date times id) c.tasks;
        subtasks =
            copy_subtasks id (select (λ x. x.personal_task == original.id) (s.rows c.subtasks))
              c.subtasks;
        copied_tasks = c.copied_tasks ++ id ∷ [];
      }

  -- The body of the loop behind the lookup.
  unfoldable pub copy_found : ℕ → ℕ → Option TaskOverride → Option PersonalTask → Copies → Copies
  copy_found current_date task_id override none c = with_error task_id c
  copy_found current_date task_id override (some original) c =
      copy_timed current_date task_id original (override_times override original) c

  -- PersonalTask.objects.get(id=task_id, date=yesterday)
  abbrev pub yesterdays : ℕ → ℕ → t.Db → Option PersonalTask
  yesterdays yesterday task_id d =
      head? (select (λ x. x.id == task_id && x.date == yesterday) (t.rows d))

  unfoldable pub copy_all : ℕ → (ℕ → Option TaskOverride) → List ℕ → Copies → Copies
  copy_all yesterday time_overrides [] c = c
  copy_all yesterday time_overrides (task_id ∷ rest) c = copy_all yesterday time_overrides rest (
      copy_found (yesterday + 1) task_id (time_overrides task_id)
        (yesterdays yesterday task_id c.tasks) c)

  unfoldable pub copy_tasks_from_yesterday :
      ℕ → (ℕ → Option TaskOverride) → List ℕ → t.Db → s.Db → Copies
  copy_tasks_from_yesterday yesterday time_overrides task_ids tasks subtasks =
      copy_all yesterday time_overrides task_ids
        (record { tasks = tasks; subtasks = subtasks; copied_tasks = []; errors = [] })
