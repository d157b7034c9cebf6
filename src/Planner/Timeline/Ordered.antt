-- ===== src/Planner/Timeline/Ordered.antt =====
-- The timeline of a day is in order and complete.
use daily_scheduler.Base.{
  ℕ, ◌+◌, ◌*◌, ◌≡◌, refl, Bool, ◌&&◌, List, [], ◌∷◌, ◌++◌, map, arith, count, select, length,
  length-select, leb, ◌==◌,
}
use daily_scheduler.Base.Sorting.{
  sort_by, IsSorted, count-sort_by, sort_by-IsSorted, select-sort_by,
}
use daily_scheduler.Orm.{OrderBy}
use daily_scheduler.Planner.Model.{
  PersonalTask, TaskTable, non_negotiable, secondary, fun, same_category, PrayerTable, hour,
}
use daily_scheduler.Planner.Prayers.Times.{PrayerSchedule, ScheduleTable}
use daily_scheduler.Planner.Timeline.{
  item_start, is_late, TaskStats, prayer_item, task_item, tasks_of, task_data_view,
}

count-append :
    {A : Type 0} (p : A → Bool) (xs ys : List A) → count p (xs ++ ys) ≡ count p xs + count p ys
count-append p [] ys = omega arith
count-append p (x ∷ xs) ys = omega (arith, count-append p xs ys)

no_late_prayer :
    (p : PrayerTable) (date : ℕ) (f : p.Db) (xs : List PrayerSchedule)
    → count is_late (map (prayer_item p date f) xs) ≡ 0
unfolding prayer_item
no_late_prayer p date f [] = refl
no_late_prayer p date f (x ∷ xs) = ground (arith, no_late_prayer p date f xs)

late_tasks_of :
    (date : ℕ) (xs : List PersonalTask)
    → count is_late (map task_item (select (λ x. x.date == date) xs))
      ≡ count (λ x. x.date == date && leb (20 * hour) x.start_time) xs
unfolding task_item
late_tasks_of date [] = refl
late_tasks_of date (x ∷ xs) = ground (arith, late_tasks_of date xs)

by_category :
    (date : ℕ) (xs : List PersonalTask)
    → count (λ x. x.date == date && same_category x.category non_negotiable) xs
        + count (λ x. x.date == date && same_category x.category secondary) xs
        + count (λ x. x.date == date && same_category x.category fun) xs
      ≡ count (λ x. x.date == date) xs
by_category date [] = omega arith
by_category date (x ∷ xs) = ground (arith, by_category date xs)

abbrev pub stats_sum : TaskStats → ℕ
stats_sum s = s.non_negotiable_count + s.secondary_count + s.fun_count

module _ (t : TaskTable) (o : OrderBy t) (s : ScheduleTable) (times : OrderBy s)
    (p : PrayerTable) where
  -- The timeline of a day runs from the earliest item to the latest; of those that start together
  -- the prayers come first, then the tasks of the date, each in their own order, and none is left out.
  -- The late tasks are as many as the tasks of the date from 20:00 on, and the counts by category add
  -- up to all tasks of the date.
  pub task_data_view-IsSorted :
      (date : ℕ) (d : t.Db) (e : s.Db) (f : p.Db)
      → let view = task_data_view t o s times p date d e f in
        IsSorted item_start view.timeline_items
        × ((time : ℕ)
            → select (λ x. item_start x == time) view.timeline_items
              ≡ select
                  (λ x. item_start x == time)
                  (map (prayer_item p date f) (times.ordered (λ x. x.start_time) e)
                    ++ map task_item (tasks_of t o date d)))
        × (length view.late_tasks
            ≡ count (λ x. x.date == date && leb (20 * hour) x.start_time) (t.rows d))
        × (stats_sum view.task_stats ≡ count (λ x. x.date == date) (t.rows d))
  unfolding task_data_view
  task_data_view-IsSorted date d e f =
      let prayers = map (prayer_item p date f) (times.ordered (λ x. x.start_time) e) in
      let tasks = map task_item (tasks_of t o date d) in
      (
        sort_by-IsSorted item_start (prayers ++ tasks),
        λ time. select-sort_by item_start time (prayers ++ tasks),
        omega (
          arith,
          length-select is_late (sort_by item_start (prayers ++ tasks)),
          count-sort_by item_start is_late (prayers ++ tasks),
          count-append is_late prayers tasks,
          no_late_prayer p date f (times.ordered (λ x. x.start_time) e),
          late_tasks_of date (o.ordered (λ x. x.start_time) d),
          o.count-ordered (λ x. x.start_time) (λ x. x.date == date && leb (20 * hour) x.start_time)
              d,
        ),
        by_category date (t.rows d),
      )
