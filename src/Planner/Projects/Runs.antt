-- ===== src/Planner/Projects/Runs.antt =====
-- What generate_schedule does to the tasks, by one rule for its loops.
use daily_scheduler.Base.{
  ℕ, zero, suc, ◌+◌, ◌≤◌, ◌≡◌, refl, Bool, true, false, not, ◌&&◌, ◌||◌, select, List, [], ◌∷◌,
  arith, count, count_mono, leb, ltb, ◌==◌, Bool-cases, inl, inr,
}
use daily_scheduler.Orm.{Table, exists}
use daily_scheduler.Planner.Model.{PersonalTask, TaskTable, day}
use daily_scheduler.Planner.Projects.{
  Project, ProjectTask, ProjectSchedule, Run, get_end_time, in_the_way, planned_row, target_date,
  visit, visit_weeks, mark_scheduled, visit_schedules, active_schedules, visit_tasks,
  generate_schedule,
}

module _ (t : TaskTable) (pt : Table ProjectTask (λ x. x.id)) where
  -- What every date that is tried for a good schedule and every mark keeps, the whole view keeps.
  module _ (P : Run t pt → Type 0) (ok : ProjectSchedule → Bool)
      (keep : (project : Project) (task : ProjectTask) (schedule : ProjectSchedule) (target : ℕ)
          (r : Run t pt)
        → ok schedule ≡ true
        → P r
        → P (visit t pt project task schedule target r))
      (mark : (task : ProjectTask) (r : Run t pt) → P r → P (mark_scheduled t pt task r)) where
    visit_weeks_keeps :
        (project : Project) (task : ProjectTask) (schedule : ProjectSchedule)
        (left current_date : ℕ) (r : Run t pt)
        → ok schedule ≡ true
        → P r
        → P (visit_weeks t pt project task schedule left current_date r)
    unfolding visit_weeks
    visit_weeks_keeps project task schedule zero current_date r good h = h
    visit_weeks_keeps project task schedule (suc left) current_date r good h =
        let target = target_date project.start_date schedule.day_of_week current_date in
        let rest =
          visit_weeks_keeps project task schedule left (target + 1)
            (visit t pt project task schedule target r) good
            (keep project task schedule target r good h) in
        elim (Bool-cases (leb current_date project.end_date)) [
          | inl open_ ↦ elim (Bool-cases (ltb project.end_date target)) [
            | inl past ↦ rw (open_, past) h
            | inr within ↦ rw (open_, within) rest
          ]
          | inr over ↦ rw over h
        ]

    visit_schedules_keeps :
        (project : Project) (task : ProjectTask) (schedules : List ProjectSchedule) (r : Run t pt)
        → count (λ x. not (ok x)) schedules ≡ 0
        → P r
        → P (visit_schedules t pt project task schedules r)
    unfolding visit_schedules
    visit_schedules_keeps project task [] r good h = h
    visit_schedules_keeps project task (schedule ∷ rest) r good h =
        visit_schedules_keeps project task rest _ (ground arith) (
          mark task _ (
            visit_weeks_keeps project task schedule schedule.weeks project.start_date r
              (ground arith) h))

    count-select :
        (p q : ProjectSchedule → Bool) (xs : List ProjectSchedule)
        → count p xs ≡ 0
        → count p (select q xs) ≡ 0
    count-select p q [] h = refl
    count-select p q (x ∷ xs) h = ground (arith, count-select p q xs)

    module _ (s : Table ProjectSchedule (λ x. x.id)) where
      visit_tasks_keeps :
          (project : Project) (d : s.Db) (tasks : List ProjectTask) (r : Run t pt)
          → count (λ x. not (ok x)) (s.rows d) ≡ 0
          → P r
          → P (visit_tasks t pt s project d tasks r)
      unfolding visit_tasks active_schedules
      visit_tasks_keeps project d [] r good h = h
      visit_tasks_keeps project d (task ∷ rest) r good h = visit_tasks_keeps project d rest _ good (
          visit_schedules_keeps project task (active_schedules t pt s task d) r
            (count-select (λ x. not (ok x)) _ (s.rows d) good) h)

  -- A row that ends on the day after its date.
  abbrev pub wraps : PersonalTask → Bool
  wraps x = ltb x.end_time x.start_time

  abbrev pub runs_over : PersonalTask → Bool
  runs_over x = wraps x && not x.is_break

  -- A task, breaks apart, that takes up a moment of a date: from its start to its end, which may lie
  -- on the next day.
  abbrev pub takes_up : ℕ → ℕ → PersonalTask → Bool
  takes_up date m x =
      not x.is_break
      && ((x.date == date && (leb x.start_time m && (ltb m x.end_time || wraps x)))
          || (x.date + 1 == date && (wraps x && ltb m x.end_time)))

  abbrev pub busy : ℕ → ℕ → t.Db → ℕ
  busy date m d = count (takes_up date m) (t.rows d)

  abbrev pub ends_that_day : ProjectSchedule → Bool
  ends_that_day schedule = ltb (schedule.start_time + schedule.duration_hours) day

  -- The same for a row that ends on its date.
  abbrev takes_up_within : ℕ → ℕ → PersonalTask → Bool
  takes_up_within date m x =
      x.date == date && (leb x.start_time m && (ltb m x.end_time && not x.is_break))

  abbrev busy_within : ℕ → ℕ → t.Db → ℕ
  busy_within date m d = count (takes_up_within date m) (t.rows d)

  count-takes_up :
      (date m : ℕ) (xs : List PersonalTask)
      → count runs_over xs ≡ 0
      → count (takes_up date m) xs ≡ count (takes_up_within date m) xs
  count-takes_up date m [] h = refl
  count-takes_up date m (x ∷ xs) h = ground (arith, count-takes_up date m xs)

  -- Where the lookup finds no row, no task takes up a moment of the new one.
  busy_within-free :
      (project : Project) (task : ProjectTask) (schedule : ProjectSchedule) (target date m id : ℕ)
      (d : t.Db)
      → exists t (in_the_way t pt schedule target) d ≡ false
      → takes_up_within date m (planned_row t pt project task schedule target id) ≡ true
      → busy_within date m d ≡ 0
  busy_within-free project task schedule target date m id d free new = ground (
    arith,
    count_mono (takes_up_within date m) (in_the_way t pt schedule target) (t.rows d)
        (λ x h. ground arith),
  )

  busy_within-visit :
      (project : Project) (task : ProjectTask) (schedule : ProjectSchedule) (target date m : ℕ)
      (r : Run t pt)
      → busy_within date m r.tasks ≤ 1
      → busy_within date m (visit t pt project task schedule target r).tasks ≤ 1
  unfolding visit
  busy_within-visit project task schedule target date m r h =
      let row = planned_row t pt project task schedule target (t.next_id r.tasks) in
      elim (Bool-cases (exists t (in_the_way t pt schedule target) r.tasks)) [
        | inl taken ↦ rw taken h
        | inr free ↦ rw free (elim (Bool-cases (takes_up_within date m row)) [
          | inl new ↦ ground (
            arith,
            t.count-insert (takes_up_within date m) row r.tasks,
            busy_within-free project task schedule target date m (t.next_id r.tasks) r.tasks free
                new,
          )
          | inr old ↦ ground (arith, t.count-insert (takes_up_within date m) row r.tasks)
        ])
      ]

  runs_over-visit :
      (project : Project) (task : ProjectTask) (schedule : ProjectSchedule) (target : ℕ)
      (r : Run t pt)
      → ends_that_day schedule ≡ true
      → count runs_over (t.rows r.tasks) ≡ 0
      → count runs_over (t.rows (visit t pt project task schedule target r).tasks) ≡ 0
  unfolding visit get_end_time
  runs_over-visit project task schedule target r good h =
      let row = planned_row t pt project task schedule target (t.next_id r.tasks) in
      elim (Bool-cases (exists t (in_the_way t pt schedule target) r.tasks)) [
        | inl taken ↦ rw taken h
        | inr free ↦ rw free (ground (arith, t.count-insert runs_over row r.tasks))
      ]

  -- Where every task but the breaks ends on its date, every schedule ends on the day that it starts, and no moment
  -- of any date is taken by two tasks that are no breaks, none is afterwards, and every task
  -- but the breaks ends on its date.
  pub busy-generate_schedule :
      (s : Table ProjectSchedule (λ x. x.id)) (project : Project) (task_ids : List ℕ) (d : s.Db)
      (tasks : t.Db) (project_tasks : pt.Db) (date m : ℕ)
      → count (λ x. not (ends_that_day x)) (s.rows d) ≡ 0
      → count runs_over (t.rows tasks) ≡ 0
      → busy date m tasks ≤ 1
      → let after = (generate_schedule t pt s project task_ids d tasks project_tasks).tasks in
        (count runs_over (t.rows after) ≡ 0) × (busy date m after ≤ 1)
  unfolding generate_schedule
  busy-generate_schedule s project task_ids d tasks project_tasks date m good ends h =
      let (ends', h') =
        visit_tasks_keeps
          (λ r. (count runs_over (t.rows r.tasks) ≡ 0) × (busy_within date m r.tasks ≤ 1))
          ends_that_day
          (λ project task schedule target r ok k. (
            runs_over-visit project task schedule target r ok k.0,
            busy_within-visit project task schedule target date m r k.1,
          ))
          (λ task r k. unfold mark_scheduled in k) s project d _ _ good
          (ends, omega (arith, count-takes_up date m (t.rows tasks) ends)) in
      (ends', omega (arith, count-takes_up date m _ ends'))
