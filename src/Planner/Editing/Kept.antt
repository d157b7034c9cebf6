-- ===== src/Planner/Editing/Kept.antt =====
-- What edits and deletions leave of a task's breaks, subtasks and history.
use mathlib.Core.Path.{subst}
use daily_scheduler.Base.{
  ℕ, ◌≤◌, ◌≡◌, refl, String, Bool, false, not, ◌&&◌, ◌||◌, Option, none, some, List, [], ◌∷◌, arith,
  count, ◌==◌, if◌then◌else◌, Bool-cases, inl, inr, ◌∙◌,
}
use daily_scheduler.Orm.{Table, with_id}
use daily_scheduler.Orm.Found.{id_of_found}
use daily_scheduler.Planner.Model.{PersonalTask, TaskTable, SubTaskTable}
use daily_scheduler.Planner.Breaks.{auto_insert_breaks, break_row}
use daily_scheduler.Planner.Forms.{PersonalTaskForm, ValidationError, clean}
use daily_scheduler.Planner.Subtasks.{CompletionTable}
use daily_scheduler.Planner.Editing.{
  edited, is_break_of, Tables, save_edited, EditError, edit_checked, edit_found, edit_personal_task,
}

pub count-none :
    {A : Type 0} (p : A → Bool) (xs : List A) → ((x : A) → p x ≡ false) → count p xs ≡ 0
count-none p [] h = refl
count-none p (x ∷ xs) h = ground (arith, h x, count-none p xs h)

module _ {A : Type 0} {key : A → ℕ} (t : Table A key) where
  -- No row is left that passes the test of a deletion.
  pub deleted-count :
      (p q : A → Bool) (d : t.Db)
      → ((x : A) → p x && not (q x) ≡ false)
      → count p (t.rows (t.delete q d)) ≡ 0
  deleted-count p q d h = t.count-delete p q d ∙ count-none (λ x. p x && not (q x)) (t.rows d) h

-- The breaks that do not begin at an end of a date, and the rows that are neither a task nor one of
-- its breaks.
abbrev pub is_stale : ℕ → ℕ → ℕ → PersonalTask → Bool
is_stale id date end_time x = is_break_of id x && not (x.date == date && x.start_time == end_time)

abbrev pub is_other : ℕ → PersonalTask → Bool
is_other id x = not (x.id == id || is_break_of id x)

module _ (t : TaskTable) (task : PersonalTask) where
  auto_insert_breaks-fresh :
      (d : t.Db)
      → count (is_break_of task.id) (t.rows d) ≡ 0
      → count (is_stale task.id task.date task.end_time) (t.rows d) ≡ 0
      → (count (is_stale task.id task.date task.end_time) (t.rows (auto_insert_breaks t task d))
          ≡ 0)
        × (count (is_break_of task.id) (t.rows (auto_insert_breaks t task d)) ≤ 1)
  unfolding auto_insert_breaks
  auto_insert_breaks-fresh d h k =
      let r = break_row task (t.next_id d) in
      (
        ground (arith, t.count-insert (is_stale task.id task.date task.end_time) r d),
        ground (arith, t.count-insert (is_break_of task.id) r d),
      )

  auto_insert_breaks-other :
      (q : PersonalTask → Bool) (d : t.Db)
      → count (λ x. q x && is_other task.id x) (t.rows (auto_insert_breaks t task d))
        ≡ count (λ x. q x && is_other task.id x) (t.rows d)
  unfolding auto_insert_breaks
  auto_insert_breaks-other q d =
      ground
        (arith, t.count-insert (λ x. q x && is_other task.id x) (break_row task (t.next_id d)) d)

  update-other :
      (q : PersonalTask → Bool) (xs : List PersonalTask)
      → count (λ x. let y = if x.id == task.id then task else x in q y && is_other task.id y) xs
        ≡ count (λ x. q x && is_other task.id x) xs
  update-other q [] = refl
  update-other q (x ∷ xs) = elim (Bool-cases (x.id == task.id)) [
    | inl same ↦ rw same (ground (arith, update-other q xs))
    | inr other ↦ rw other (ground (arith, update-other q xs))
  ]

  delete-other :
      (q : PersonalTask → Bool) (xs : List PersonalTask)
      → count (λ x. (q x && is_other task.id x) && not (is_break_of task.id x)) xs
        ≡ count (λ x. q x && is_other task.id x) xs
  delete-other q [] = refl
  delete-other q (x ∷ xs) = ground (arith, delete-other q xs)

module _ (t : TaskTable) (s : SubTaskTable) (h : CompletionTable) where
  -- The result of an edit: the tables as they were, or only breaks at the new end, one at most, and
  -- the rows of all other tasks.
  abbrev pub IsEdited :
      ℕ → PersonalTaskForm → Tables t s h → Option (EditError t s h) × Tables t s h → Type 0
  IsEdited id form before (some error, after) = after ≡ before
  IsEdited id form (d, e, f) (none, (d', e', f')) =
      (count (is_stale id form.date form.end_time) (t.rows d') ≡ 0)
      × (count (is_break_of id) (t.rows d') ≤ 1)
      × ((q : PersonalTask → Bool)
          → count (λ x. q x && is_other id x) (t.rows d')
            ≡ count (λ x. q x && is_other id x) (t.rows d))

  save_edited-IsEdited :
      (form : PersonalTaskForm) (old : PersonalTask) (subtasks : Option (List (String × ℕ)))
      (d : t.Db) (e : s.Db) (f : h.Db)
      → IsEdited old.id form
          (d, e, f)
          (none, save_edited t s h (edited form old) subtasks (d, e, f))
  unfolding save_edited
  save_edited-IsEdited form old subtasks d e f =
      let task = edited form old in
      let saved = t.update task d in
      let cleared = t.delete (is_break_of task.id) saved in
      let fresh =
        auto_insert_breaks-fresh t task cleared
          (deleted-count t (is_break_of task.id) (is_break_of task.id) saved (λ x. ground arith))
          (deleted-count t (is_stale task.id task.date task.end_time) (is_break_of task.id) saved
            (λ x. ground arith)) in
      (
        fresh.0,
        fresh.1,
        λ q.
            auto_insert_breaks-other t task q cleared
            ∙ t.count-delete (λ x. q x && is_other task.id x) (is_break_of task.id) saved
            ∙ delete-other t task q (t.rows saved)
            ∙ t.count-update (λ x. q x && is_other task.id x) task d
            ∙ update-other t task q (t.rows d),
      )

  edit_checked-IsEdited :
      (form : PersonalTaskForm) (subtasks : Option (List (String × ℕ))) (old : PersonalTask)
      (error : Option ValidationError) (d : t.Db) (e : s.Db) (f : h.Db)
      → IsEdited old.id form (d, e, f) (edit_checked t s h form subtasks old error (d, e, f))
  unfolding edit_checked
  edit_checked-IsEdited form subtasks old (some error) d e f = refl
  edit_checked-IsEdited form subtasks old none d e f = save_edited-IsEdited form old subtasks d e f

  edit_any-IsEdited :
      (today task_id : ℕ) (form : PersonalTaskForm) (subtasks : Option (List (String × ℕ)))
      (found : Option PersonalTask) (d : t.Db) (e : s.Db) (f : h.Db)
      → ((old : PersonalTask) → found ≡ some old → old.id ≡ task_id)
      → IsEdited task_id form (d, e, f) (edit_found t s h today form subtasks found (d, e, f))
  unfolding edit_found
  edit_any-IsEdited today task_id form subtasks none d e f named = refl
  edit_any-IsEdited today task_id form subtasks (some old) d e f named =
      subst
        (λ i. IsEdited i form (d, e, f) (edit_found t s h today form subtasks (some old) (d, e, f)))
        (named old refl) (edit_checked-IsEdited form subtasks old (clean t today form d) d e f)

  -- An edit that the form refuses, or of a task that is not there, leaves the three tables as they
  -- were. After any other, every break of the task begins at the new end on the new date, there is
  -- one at most, and the rows of other tasks, those that are no breaks of the task, are as before.
  pub edit_personal_task-IsEdited :
      (today task_id : ℕ) (form : PersonalTaskForm) (subtasks : Option (List (String × ℕ)))
      (d : t.Db) (e : s.Db) (f : h.Db)
      → IsEdited task_id form
          (d, e, f)
          (edit_personal_task t s h today task_id form subtasks (d, e, f))
  unfolding edit_personal_task
  edit_personal_task-IsEdited today task_id form subtasks d e f =
      edit_any-IsEdited today task_id form subtasks (with_id t task_id d) d e f
        (λ old found. id_of_found (λ x. x.id) task_id old (t.rows d) found)
