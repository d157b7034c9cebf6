-- ===== src/Planner/Subtasks/Ratings.antt =====
-- The ratings and the order of the subtasks of a task.
use daily_scheduler.Base.{
  ℕ, ◌+◌, ◌≤◌, ◌≡◌, refl, String, true, false, not, ◌&&◌, none, some, List, [], ◌∷◌, arith, count,
  ltb, ◌==◌, str_eq, if◌then◌else◌, ap, Bool-cases, inl, inr,
}
use daily_scheduler.Planner.Model.{SubTask, SubTaskTable}
use daily_scheduler.Planner.Subtasks.{
  rating_of, rank, max_order, get_performance_rating, create_subtask, toggle_subtask_completion,
}

-- More completed subtasks, of as many, never give a lower rating.
pub rating_of_mono : (a b total : ℕ) → a ≤ b → rank (rating_of a total) ≤ rank (rating_of b total)
unfolding rating_of
rating_of_mono a b total h = ground arith

above-max_order :
    (task n : ℕ) (xs : List SubTask)
    → max_order task xs ≤ n
    → count (λ x. x.personal_task == task && ltb n x.order) xs ≡ 0
above-max_order task n [] h = refl
above-max_order task n (x ∷ xs) h = ground (arith, above-max_order task n xs)

-- The rows of one id stay with their task, and those that are replaced are completed.
completed-replace :
    (r : SubTask) (xs : List SubTask)
    → r.is_completed ≡ true
    → count (λ x. x.id == r.id && not (x.personal_task == r.personal_task)) xs ≡ 0
    → (count (λ x. x.personal_task == r.personal_task && x.is_completed) xs
        ≤ count
            (λ x.
              (if x.id == r.id then r else x).personal_task == r.personal_task
              && (if x.id == r.id then r else x).is_completed)
            xs)
      × (count (λ x. (if x.id == r.id then r else x).personal_task == r.personal_task) xs
          ≡ count (λ x. x.personal_task == r.personal_task) xs)
completed-replace r [] done own = (omega arith, refl)
completed-replace r (x ∷ xs) done own =
    let (more, as_many) = completed-replace r xs done (ground arith) in (ground arith, ground arith)

module _ (s : SubTaskTable) where
  -- Ticking a subtask off never lowers the rating of its task, where the rows under its id are of
  -- that task.
  pub rank-toggle_subtask_completion :
      (subtask : SubTask) (d : s.Db)
      → count (λ x. x.id == subtask.id && not (x.personal_task == subtask.personal_task)) (s.rows d)
        ≡ 0
      → rank (get_performance_rating s subtask.personal_task d)
        ≤ rank (toggle_subtask_completion s subtask true d).0
  unfolding toggle_subtask_completion get_performance_rating
  rank-toggle_subtask_completion subtask d own =
      let r = record subtask { is_completed = true } in
      let (more, as_many) = completed-replace r (s.rows d) refl own in
      rw
        (
          s.count-update (λ x. x.personal_task == subtask.personal_task && x.is_completed) r d,
          s.count-update (λ x. x.personal_task == subtask.personal_task) r d,
          as_many,
        )
        (rating_of_mono _ _ _ more)

  -- A subtask that is created comes behind all others of its task: it is the only one that has its
  -- order or a higher one.
  pub create_subtask_last :
      (task : ℕ) (title : String) (d d' : s.Db)
      → create_subtask s task title d ≡ some d'
      → count (λ x. x.personal_task == task && ltb (max_order task (s.rows d)) x.order) (s.rows d')
        ≡ 1
  unfolding create_subtask
  create_subtask_last task title d d' e =
      let f = λ (x : SubTask). x.personal_task == task && ltb (max_order task (s.rows d)) x.order in
      let rows_of = ap (λ o. count f (elim o [ none ↦ [] | some z ↦ s.rows z ])) e in
      elim (Bool-cases (str_eq title "")) [
        | inl empty ↦ ground (arith, rows_of)
        | inr given ↦ ground (
          arith,
          rows_of,
          s.count-insert f
              (record {
                id = s.next_id d;
                personal_task = task;
                title = title;
                is_completed = false;
                order = max_order task (s.rows d) + 1;
              })
              d,
          above-max_order task (max_order task (s.rows d)) (s.rows d),
        )
      ]
