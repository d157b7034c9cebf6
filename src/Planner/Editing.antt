-- ===== src/Planner/Editing.antt =====
-- edit_personal_task, delete_personal_task and delete_subtask of
-- scheduler/views/personal_task_views.py. The fields of a request are taken as parsed; subtasks are
-- none where the request has none that parse. Deleting a row takes the rows with it that point to it,
-- as `on_delete=CASCADE` says. A break has no breaks itself, since auto_insert_breaks makes none for one.
pub mod Kept
pub mod Deleted
use daily_scheduler.Base.{
  ℕ, ◌+◌, ◌*◌, ◌≤◌, ◌≡◌, String, Bool, true, false, not, ◌&&◌, ◌||◌, Option, none, some, List, [],
  ◌∷◌, arith, count, ◌==◌, if◌then◌else◌,
}
use daily_scheduler.Orm.{exists, with_id}
use daily_scheduler.Planner.Model.{PersonalTask, TaskTable, SubTask, SubTaskTable}
use daily_scheduler.Planner.Breaks.{is_parent, auto_insert_breaks}
use daily_scheduler.Planner.Forms.{PersonalTaskForm, ValidationError, clean, task_of, add_subtasks}
use daily_scheduler.Planner.Subtasks.{
  TaskCompletion, CompletionTable, PerformanceRating, get_performance_rating,
}

-- The row that the form saves over the one that it was made of.
abbrev pub edited : PersonalTaskForm → PersonalTask → PersonalTask
edited form task = record task {
  title = form.title;
  description = form.description;
  date = form.date;
  start_time = form.start_time;
  end_time = form.end_time;
  category = form.category;
}

-- `task.breaks`
abbrev pub is_break_of : ℕ → PersonalTask → Bool
is_break_of id x = is_parent id x.parent_task

module _ (t : TaskTable) (s : SubTaskTable) (h : CompletionTable) where
  abbrev pub Tables : Type 0
  Tables = t.Db × s.Db × h.Db

  -- `task.breaks.all().delete()`
  unfoldable pub delete_breaks : ℕ → Tables → Tables
  delete_breaks id (d, e, f) =
      let gone = λ (n : ℕ). exists t (λ x. x.id == n && is_break_of id x) d in
      (
        t.delete (is_break_of id) d,
        s.delete (λ x. gone x.personal_task) e,
        h.delete (λ x. gone x.task) f,
      )

  unfoldable pub recreate_subtasks : ℕ → Option (List (String × ℕ)) → s.Db → s.Db
  recreate_subtasks id none e = e
  recreate_subtasks id (some subtasks) e =
      add_subtasks t s id subtasks (s.delete (λ x. x.personal_task == id) e)

  unfoldable pub save_edited : PersonalTask → Option (List (String × ℕ)) → Tables → Tables
  unfolding delete_breaks
  save_edited task subtasks (d, e, f) =
      let (d', e', f') =
        delete_breaks task.id (t.update task d, recreate_subtasks task.id subtasks e, f) in
      (auto_insert_breaks t task d', e', f')

  pub data EditError : Type 0 where
    no_such_task : EditError
    refused : ValidationError → EditError

  unfoldable pub edit_checked :
      PersonalTaskForm
      → Option (List (String × ℕ))
      → PersonalTask
      → Option ValidationError
      → Tables
      → Option EditError × Tables
  unfolding save_edited
  edit_checked form subtasks task (some error) tables = (some (refused error), tables)
  edit_checked form subtasks task none tables =
      (none, save_edited (edited form task) subtasks tables)

  unfoldable pub edit_found :
      ℕ
      → PersonalTaskForm
      → Option (List (String × ℕ))
      → Option PersonalTask
      → Tables
      → Option EditError × Tables
  unfolding edit_checked
  edit_found today form subtasks none tables = (some no_such_task, tables)
  edit_found today form subtasks (some task) (d, e, f) =
      edit_checked form subtasks task (clean t today form d) (d, e, f)

  -- The POST of edit_personal_task.
  unfoldable pub edit_personal_task :
      ℕ → ℕ → PersonalTaskForm → Option (List (String × ℕ)) → Tables → Option EditError × Tables
  unfolding edit_found
  edit_personal_task today task_id form subtasks (d, e, f) =
      edit_found today form subtasks (with_id t task_id d) (d, e, f)

  unfoldable pub delete_task : ℕ → Tables → Tables
  unfolding delete_breaks
  delete_task id tables =
      let (d, e, f) = delete_breaks id tables in
      (
        t.delete (λ x. x.id == id) d,
        s.delete (λ x. x.personal_task == id) e,
        h.delete (λ x. x.task == id) f,
      )

  unfoldable pub delete_found : Option PersonalTask → Tables → Option Tables
  unfolding delete_task
  delete_found none tables = none
  delete_found (some task) tables = some (delete_task task.id tables)

  -- The tables after delete_personal_task, none where there is no such task.
  unfoldable pub delete_personal_task : ℕ → Tables → Option Tables
  unfolding delete_found
  delete_personal_task task_id (d, e, f) = delete_found (with_id t task_id d) (d, e, f)

module _ (s : SubTaskTable) where
  unfoldable pub delete_found_subtask : Option SubTask → s.Db → Option (PerformanceRating × s.Db)
  delete_found_subtask none e = none
  delete_found_subtask (some subtask) e =
      let e' = s.delete (λ x. x.id == subtask.id) e in
      some (get_performance_rating s subtask.personal_task e', e')

  -- The task's new rating and the table after delete_subtask, none where there is no such subtask.
  unfoldable pub delete_subtask : ℕ → s.Db → Option (PerformanceRating × s.Db)
  unfolding delete_found_subtask
  delete_subtask subtask_id e = delete_found_subtask (with_id s subtask_id e) e
