-- ===== src/Planner/Projects/Weeks.antt =====
-- How many dates the loop over the weeks of one schedule tries.
use Prim.Native.Nat.{min}
use daily_scheduler.Base.{
  ℕ, zero, suc, ◌+◌, ◌-◌, ◌/◌, ◌≤◌, ◌<◌, ◌≡◌, arith, length, length-append, ltb, leb, Bool-cases,
  inl, inr, ap, ◌∙◌, sym,
}
use daily_scheduler.Orm.{Table, exists}
use daily_scheduler.Planner.Model.{TaskTable, weekday}
use daily_scheduler.Planner.Projects.{
  Project, ProjectTask, ProjectSchedule, Run, in_the_way, target_date, visit, visit_weeks,
}
use daily_scheduler.Planner.Projects.Dates.{target_date_first, target_date_next}

module _ (t : TaskTable) (pt : Table ProjectTask (λ x. x.id)) where
  -- The dates tried so far.
  abbrev pub tried : Run t pt → ℕ
  tried r = r.created_count + length r.conflicts

  module _ (project : Project) (task : ProjectTask) (schedule : ProjectSchedule) where
    -- A date is either a new task or a conflict.
    tried-visit :
        (target : ℕ) (r : Run t pt)
        → tried (visit t pt project task schedule target r) ≡ tried r + 1
    unfolding visit
    tried-visit target r = elim (Bool-cases (exists t (in_the_way t pt schedule target) r.tasks)) [
      | inl taken ↦ rw taken (omega (arith, length-append r.conflicts _))
      | inr free ↦ rw free (omega arith)
    ]

    tried-visit_weeks :
        (left date : ℕ) (r : Run t pt)
        → project.start_date ≤ date
        → weekday date ≡ schedule.day_of_week
        → tried (visit_weeks t pt project task schedule left (date + 1) r)
          ≡ tried r + min left ((project.end_date - date) / 7)
    unfolding visit_weeks
    tried-visit_weeks zero date r h w = omega arith
    tried-visit_weeks (suc left) date r h w = elim (Bool-cases (leb (date + 1) project.end_date)) [
      | inl open_ ↦ elim (Bool-cases (ltb project.end_date (date + 7))) [
        | inl past ↦
            rw (target_date_next project.start_date schedule.day_of_week date h w, open_, past)
              (ground arith)
        | inr within ↦
            rw (target_date_next project.start_date schedule.day_of_week date h w, open_, within)
              (ground (
                arith,
                tried-visit (date + 7) r,
                tried-visit_weeks left (date + 7) (visit t pt project task schedule (date + 7) r)
                    (omega arith) (omega arith),
              ))
      ]
      | inr over ↦ rw over (ground arith)
    ]

    -- Two dates of one week of seven days from a start on, with the same day of the week, are one.
    same_date :
        (start a b : ℕ)
        → start ≤ a
        → a < start + 7
        → start ≤ b
        → b < start + 7
        → weekday a ≡ weekday b
        → a ≡ b
    same_date start a b from_a to_a from_b to_b same = ground arith

    tried-visit_weeks_target :
        (weeks : ℕ) (r : Run t pt)
        → schedule.day_of_week < 7
        → tried (visit_weeks t pt project task schedule weeks project.start_date r)
          ≡ tried r
            + min weeks (
                (project.end_date
                  + 7
                  - target_date project.start_date schedule.day_of_week project.start_date)
                / 7)
    unfolding visit_weeks
    tried-visit_weeks_target zero r h = omega arith
    tried-visit_weeks_target (suc left) r h =
        let first = target_date project.start_date schedule.day_of_week project.start_date in
        let (from, before, on) = target_date_first project.start_date schedule.day_of_week h in
        elim (Bool-cases (leb project.start_date project.end_date)) [
          | inl open_ ↦ elim (Bool-cases (ltb project.end_date first)) [
            | inl past ↦ rw (open_, past) (ground arith)
            | inr within ↦
                rw (open_, within)
                  (ground (
                    arith,
                    tried-visit first r,
                    tried-visit_weeks left first (visit t pt project task schedule first r)
                        (omega arith) on,
                  ))
          ]
          | inr over ↦ rw over (ground arith)
        ]

    -- Where `first` is the first date of the project, from its start on, with the day of the week of
    -- the schedule, a schedule tries as many dates as weeks are asked for, or as there are dates in
    -- steps of a week from `first` up to the project's end, whichever is less.
    pub tried-visit_weeks_first :
        (weeks first : ℕ) (r : Run t pt)
        → project.start_date ≤ first
        → first < project.start_date + 7
        → weekday first ≡ schedule.day_of_week
        → tried (visit_weeks t pt project task schedule weeks project.start_date r)
          ≡ tried r + min weeks ((project.end_date + 7 - first) / 7)
    tried-visit_weeks_first weeks first r from before on =
        let below : schedule.day_of_week < 7 = ground arith in
        let (from', before', on') =
          target_date_first project.start_date schedule.day_of_week below in
        let it =
          same_date project.start_date
            (target_date project.start_date schedule.day_of_week project.start_date) first from'
            before' from before (on' ∙ sym on) in
        tried-visit_weeks_target weeks r below
        ∙ ap (λ n. tried r + min weeks ((project.end_date + 7 - n) / 7)) it
