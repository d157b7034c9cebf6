-- ===== src/Planner/Projects/Editing.antt =====
-- Adding and deleting the tasks and the schedules of a project: create_project_task,
-- delete_project_task and create_schedule of scheduler/views/project_views.py. The requests are taken
-- as parsed, with their defaults.
use Prim.Native.Nat.{max}
use daily_scheduler.Base.{
  ℕ, ◌+◌, ◌≤◌, ◌≡◌, refl, ◌∙◌, String, Bool, true, false, not, ◌&&◌, Option, none, some, List, [],
  ◌∷◌, count, arith, ◌==◌, ==_iff, if◌then◌else◌, Bool-cases, inl, inr,
}
use daily_scheduler.Orm.{Table, exists}
use daily_scheduler.Planner.Projects.{ProjectTask, ProjectSchedule}

-- aggregate(Max("order")) over the tasks of a project, `or 0`.
abbrev pub max_task_order : ℕ → List ProjectTask → ℕ
max_task_order project [] = 0
max_task_order project (x ∷ xs) =
    let rest = max_task_order project xs in if x.project == project then max x.order rest else rest

abbrev pub is_slot : ℕ → ℕ → ProjectSchedule → Bool
is_slot task day_of_week x = x.project_task == task && x.day_of_week == day_of_week

module _ (p : Table ProjectTask (λ x. x.id)) (s : Table ProjectSchedule (λ x. x.id)) where
  -- create_project_task
  unfoldable pub create_project_task : ℕ → String → String → ℕ → p.Db → p.Db
  create_project_task project title description duration_hours d =
      p.insert
        (record {
          id = p.next_id d;
          project = project;
          title = title;
          description = description;
          duration_hours = duration_hours;
          order = max_task_order project (p.rows d) + 1;
          is_scheduled = false;
        })
        d

  -- delete_project_task, with the schedules of the task, which the database deletes with it.
  unfoldable pub delete_project_task : ℕ → p.Db → s.Db → p.Db × s.Db
  delete_project_task task d e =
      (p.delete (λ x. x.id == task) d, s.delete (λ x. x.project_task == task) e)

  -- create_schedule: none where the task has a schedule for the day.
  unfoldable pub create_schedule : ℕ → ℕ → ℕ → ℕ → ℕ → s.Db → Option s.Db
  create_schedule task day_of_week start_time duration_hours weeks d =
      if exists s (is_slot task day_of_week) d
      then none
      else some (
          s.insert
            (record {
              id = s.next_id d;
              project_task = task;
              day_of_week = day_of_week;
              start_time = start_time;
              duration_hours = duration_hours;
              weeks = weeks;
              is_active = true;
            })
            d)

  -- No task has two schedules for one day.
  abbrev pub IsUnique : s.Db → Type 0
  IsUnique d = (task day_of_week : ℕ) → count (is_slot task day_of_week) (s.rows d) ≤ 1

  -- What a request for a schedule makes of the schedules.
  abbrev pub IsPlanned : ℕ → ℕ → s.Db → Option s.Db → Type 0
  IsPlanned task day_of_week d none = count (is_slot task day_of_week) (s.rows d) ≡ 1
  IsPlanned task day_of_week d (some d') =
      (count (is_slot task day_of_week) (s.rows d) ≡ 0)
      × IsUnique d'
      × (count (is_slot task day_of_week) (s.rows d') ≡ 1)

  -- Two slots that a row lies in are one.
  slot_congr :
      (task day_of_week task' day' : ℕ) (xs : List ProjectSchedule)
      → (task == task' && day_of_week == day') ≡ true
      → count (is_slot task' day') xs ≡ count (is_slot task day_of_week) xs
  slot_congr task day_of_week task' day' xs h =
      let e : task ≡ task' = ground (arith, h, ==_iff task task') in
      let e' : day_of_week ≡ day' = ground (arith, h, ==_iff day_of_week day') in rw e (rw e' refl)

  -- Where no task has two schedules for one day, a request for a schedule is refused exactly if the
  -- task has one for the day; otherwise the task has one then, and still no task has two.
  pub create_schedule-IsPlanned :
      (task day_of_week start_time duration_hours weeks : ℕ) (d : s.Db)
      → IsUnique d
      → IsPlanned task day_of_week d
          (create_schedule task day_of_week start_time duration_hours weeks d)
  unfolding create_schedule
  create_schedule-IsPlanned task day_of_week start_time duration_hours weeks d unique =
      elim (Bool-cases (exists s (is_slot task day_of_week) d)) [
        | inl taken ↦ rw taken (ground (arith, unique task day_of_week))
        | inr free ↦
            let row : ProjectSchedule = record {
              id = s.next_id d;
              project_task = task;
              day_of_week = day_of_week;
              start_time = start_time;
              duration_hours = duration_hours;
              weeks = weeks;
              is_active = true;
            } in
            rw free (
              ground arith,
              (λ task' day'. ground (
                arith,
                s.count-insert (is_slot task' day') row d,
                unique task' day',
                slot_congr task day_of_week task' day' (s.rows d),
              )),
              ground (arith, s.count-insert (is_slot task day_of_week) row d),
            )
      ]

  count-none :
      (q : ProjectSchedule → Bool) (xs : List ProjectSchedule)
      → count (λ x. q x && not (q x)) xs ≡ 0
  count-none q [] = refl
  count-none q (x ∷ xs) = ground (arith, count-none q xs)

  -- Deleting a task leaves none of its schedules.
  pub delete_project_task-schedules :
      (task : ℕ) (d : p.Db) (e : s.Db)
      → count (λ x. x.project_task == task) (s.rows (delete_project_task task d e).1) ≡ 0
  unfolding delete_project_task
  delete_project_task-schedules task d e =
      s.count-delete (λ x. x.project_task == task) (λ x. x.project_task == task) e
      ∙ count-none (λ x. x.project_task == task) (s.rows e)
