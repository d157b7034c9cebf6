-- ===== src/Planner/Forms.antt =====
-- PersonalTaskForm of scheduler/forms.py and create_personal_task of
-- scheduler/views/personal_task_views.py. The fields are taken as parsed and present, and `today` is
-- the date of timezone.now().
use daily_scheduler.Base.{
  ℕ, ◌+◌, ◌*◌, ◌≤◌, ◌≡◌, String, Bool, true, false, ◌&&◌, Option, none, some, List, [], ◌∷◌, arith,
  count, leb, ltb, ◌==◌, if◌then◌else◌, Option-cases, ap, Bool-cases, inl, inr,
}
use daily_scheduler.Planner.Model.{
  PersonalTask, TaskTable, SubTaskTable, TaskCategory, same_category, non_negotiable, hour,
}
use daily_scheduler.Planner.Breaks.{auto_insert_breaks, break_row}

pub record PersonalTaskForm : Type 0 where
  pub title : String
  pub description : String
  pub date : ℕ
  pub start_time : ℕ
  pub end_time : ℕ
  pub category : TaskCategory

pub data ValidationError : Type 0 where
  not_after_start past_date too_many_non_negotiable : ValidationError

-- `late_task_warning` of the cleaned data.
unfoldable pub late_task_warning : PersonalTaskForm → Bool
late_task_warning form = leb (20 * hour) form.start_time

abbrev pub is_non_negotiable_on : ℕ → PersonalTask → Bool
is_non_negotiable_on date x = x.date == date && same_category x.category non_negotiable

-- The row that the form saves, under the id that the database gives.
abbrev pub task_of : PersonalTaskForm → ℕ → PersonalTask
task_of form id = record {
  id = id;
  title = form.title;
  description = form.description;
  date = form.date;
  start_time = form.start_time;
  end_time = form.end_time;
  category = form.category;
  is_completed = false;
  is_break = false;
  parent_task = none;
}

module _ (t : TaskTable) where
  -- PersonalTaskForm.clean: the error that it raises, if any.
  unfoldable pub clean : ℕ → PersonalTaskForm → t.Db → Option ValidationError
  clean today form d =
      if leb form.end_time form.start_time
      then some not_after_start
      else if ltb form.date today
      then some past_date
      else if same_category form.category non_negotiable
          && leb 3 (count (is_non_negotiable_on form.date) (t.rows d))
      then some too_many_non_negotiable
      else none

  module _ (s : SubTaskTable) where
    -- One subtask for each title and order of the request.
    unfoldable pub add_subtasks : ℕ → List (String × ℕ) → s.Db → s.Db
    add_subtasks task [] e = e
    add_subtasks task ((title, order) ∷ rest) e = add_subtasks task rest (
        s.insert
          (record {
            id = s.next_id e;
            personal_task = task;
            title = title;
            is_completed = false;
            order = order;
          })
          e)

    -- The POST of create_personal_task: the form's error, and the tables after the call.
    unfoldable pub create_personal_task :
        ℕ
        → PersonalTaskForm
        → List (String × ℕ)
        → t.Db
        → s.Db
        → Option ValidationError × t.Db × s.Db
    create_personal_task today form subtasks d e =
        let task = task_of form (t.next_id d) in
        elim (clean today form d) [
          | some error ↦ (some error, d, e)
          | none ↦
              (none, auto_insert_breaks t task (t.insert task d), add_subtasks task.id subtasks e)
        ]

  -- A break is no non-negotiable task.
  auto_insert_breaks-limit :
      (task : PersonalTask) (date : ℕ) (d : t.Db)
      → count (is_non_negotiable_on date) (t.rows (auto_insert_breaks t task d))
        ≡ count (is_non_negotiable_on date) (t.rows d)
  unfolding auto_insert_breaks
  auto_insert_breaks-limit task date d =
      ground (arith, t.count-insert (is_non_negotiable_on date) (break_row task (t.next_id d)) d)

  is_date : (form : PersonalTaskForm) (date : ℕ) → (form.date == date) ≡ true → form.date ≡ date
  is_date form date same = ground arith

  -- What the form lets through on a date: a task that is not non-negotiable, or at most the third.
  room_of_clean :
      (today : ℕ) (form : PersonalTaskForm) (d : t.Db) (date : ℕ)
      → clean today form d ≡ none
      → count (is_non_negotiable_on date) (t.rows d) ≤ 3
      → (if is_non_negotiable_on date (task_of form (t.next_id d)) then 1 else 0)
          + count (is_non_negotiable_on date) (t.rows d)
        ≤ 3
  unfolding clean
  room_of_clean today form d date fine h = elim (Bool-cases (form.date == date)) [
    | inl same ↦
        let at_date =
          ap (λ z. count (is_non_negotiable_on z) (t.rows d)) (is_date form date same) in
        ground arith
    | inr other ↦ ground arith
  ]

  -- Creating a task through the form, with its subtasks and its break, never gives a date more
  -- than three non-negotiable tasks, where it had three at most.
  pub create_personal_task_limit :
      (s : SubTaskTable) (today : ℕ) (form : PersonalTaskForm) (subtasks : List (String × ℕ))
      (d : t.Db) (e : s.Db) (date : ℕ)
      → count (is_non_negotiable_on date) (t.rows d) ≤ 3
      → let (error, d', e') = create_personal_task s today form subtasks d e in
        count (is_non_negotiable_on date) (t.rows d') ≤ 3
  unfolding create_personal_task
  create_personal_task_limit s today form subtasks d e date h =
      let task = task_of form (t.next_id d) in
      elim (Option-cases (clean today form d)) [
        | inl fine ↦
            rw (create_personal_task, fine)
              (ground (
                arith,
                auto_insert_breaks-limit task date (t.insert task d),
                t.count-insert (is_non_negotiable_on date) task d,
                room_of_clean today form d date fine h,
              ))
        | inr (error, refused) ↦ rw (create_personal_task, refused) h
      ]
