-- ===== src/Planner/Editing/Deleted.antt =====
-- What the deletion of a task leaves of its breaks, its subtasks and its history.
use mathlib.Core.Path.{subst, fun_ext}
use daily_scheduler.Base.{
  ℕ, ◌≡◌, refl, Bool, false, not, ◌&&◌, ◌||◌, Option, none, some, arith, count, ◌==◌, ap, ◌∙◌,
}
use daily_scheduler.Orm.{Table, exists, with_id}
use daily_scheduler.Orm.Found.{id_of_found, none_found}
use daily_scheduler.Planner.Model.{PersonalTask, TaskTable, SubTask, SubTaskTable}
use daily_scheduler.Planner.Subtasks.{TaskCompletion, CompletionTable}
use daily_scheduler.Planner.Editing.{
  is_break_of, Tables, delete_task, delete_found, delete_personal_task,
}
use daily_scheduler.Planner.Editing.Kept.{count-none, is_other}

-- Two deletions, one behind the other: nothing is left that either takes, and the rest stays.
module _ {A : Type 0} {key : A → ℕ} (t : Table A key) (q r : A → Bool) (d : t.Db) where
  abbrev both : t.Db
  both = t.delete r (t.delete q d)

  both-none :
      (p : A → Bool)
      → ((x : A) → (p x && not (r x)) && not (q x) ≡ false)
      → count p (t.rows both) ≡ 0
  both-none p h =
      t.count-delete p r (t.delete q d)
      ∙ t.count-delete (λ x. p x && not (r x)) q d
      ∙ count-none (λ x. (p x && not (r x)) && not (q x)) (t.rows d) h

  both-rest :
      (p : A → Bool)
      → ((x : A) → ((p x && not (r x)) && not (q x)) ≡ p x)
      → count p (t.rows both) ≡ count p (t.rows d)
  both-rest p h =
      t.count-delete p r (t.delete q d)
      ∙ t.count-delete (λ x. p x && not (r x)) q d
      ∙ ap (λ (g : A → Bool). count g (t.rows d)) (fun_ext h)

module _ (t : TaskTable) (s : SubTaskTable) (h : CompletionTable) where
  -- What a deletion leaves: nothing of the task, its breaks, its subtasks and its history, and the
  -- subtasks and the history of no break; the rest of the three tables is as before.
  abbrev pub IsDeleted : ℕ → Tables t s h → Option (Tables t s h) → Type 0
  IsDeleted id (d, e, f) none = count (λ x. x.id == id) (t.rows d) ≡ 0
  IsDeleted id (d, e, f) (some (d', e', f')) =
      let mine = λ (n : ℕ). n == id || exists t (λ x. x.id == n && is_break_of id x) d in
      (count (λ x. x.id == id || is_break_of id x) (t.rows d') ≡ 0)
      × (count (λ x. mine x.personal_task) (s.rows e') ≡ 0)
      × (count (λ x. mine x.task) (h.rows f') ≡ 0)
      × ((q : PersonalTask → Bool)
          → count (λ x. q x && is_other id x) (t.rows d')
            ≡ count (λ x. q x && is_other id x) (t.rows d))
      × ((q : SubTask → Bool)
          → count (λ x. q x && not (mine x.personal_task)) (s.rows e')
            ≡ count (λ x. q x && not (mine x.personal_task)) (s.rows e))
      × ((q : TaskCompletion → Bool)
          → count (λ x. q x && not (mine x.task)) (h.rows f')
            ≡ count (λ x. q x && not (mine x.task)) (h.rows f))

  delete_task-IsDeleted :
      (id : ℕ) (d : t.Db) (e : s.Db) (f : h.Db)
      → IsDeleted id (d, e, f) (some (delete_task t s h id (d, e, f)))
  unfolding delete_task
  delete_task-IsDeleted id d e f =
      let gone = λ (n : ℕ). exists t (λ x. x.id == n && is_break_of id x) d in
      (
        both-none t (is_break_of id) (λ x. x.id == id) d (λ x. x.id == id || is_break_of id x)
            (λ x. ground arith),
        both-none s (λ x. gone x.personal_task) (λ x. x.personal_task == id) e
            (λ x. x.personal_task == id || gone x.personal_task) (λ x. ground arith),
        both-none h (λ x. gone x.task) (λ x. x.task == id) f (λ x. x.task == id || gone x.task)
            (λ x. ground arith),
        λ q.
            both-rest t (is_break_of id) (λ x. x.id == id) d (λ x. q x && is_other id x)
              (λ x. ground arith),
        λ q.
            both-rest s (λ x. gone x.personal_task) (λ x. x.personal_task == id) e
              (λ x. q x && not (x.personal_task == id || gone x.personal_task)) (λ x. ground arith),
        λ q.
            both-rest h (λ x. gone x.task) (λ x. x.task == id) f
              (λ x. q x && not (x.task == id || gone x.task)) (λ x. ground arith),
      )

  delete_any-IsDeleted :
      (task_id : ℕ) (found : Option PersonalTask) (d : t.Db) (e : s.Db) (f : h.Db)
      → with_id t task_id d ≡ found
      → IsDeleted task_id (d, e, f) (delete_found t s h found (d, e, f))
  unfolding delete_found
  delete_any-IsDeleted task_id none d e f missing =
      none_found (λ x. x.id) (λ x. x.id == task_id) (t.rows d) missing
  delete_any-IsDeleted task_id (some old) d e f found =
      subst (λ i. IsDeleted i (d, e, f) (some (delete_task t s h old.id (d, e, f))))
        (id_of_found (λ x. x.id) task_id old (t.rows d) found) (delete_task-IsDeleted old.id d e f)

  -- Deleting a task that is there leaves nothing of it, its breaks, its subtasks and its history, nor
  -- of its breaks' subtasks and history, and all else in the three tables stays; where no task has the
  -- id, there is nothing to delete.
  pub delete_personal_task-IsDeleted :
      (task_id : ℕ) (d : t.Db) (e : s.Db) (f : h.Db)
      → IsDeleted task_id (d, e, f) (delete_personal_task t s h task_id (d, e, f))
  unfolding delete_personal_task
  delete_personal_task-IsDeleted task_id d e f =
      delete_any-IsDeleted task_id (with_id t task_id d) d e f refl
