-- ===== src/Planner/Analytics/Alerts.antt =====
-- Which alerts analytics_dashboard shows, and what its charts add up to.
use daily_scheduler.Base.{
  ℕ, zero, suc, ◌+◌, ◌-◌, ◌*◌, ◌≡◌, refl, String, Bool, true, false, not, ◌&&◌, Option, none, some,
  List, [], ◌∷◌, map, arith, count, count-and-le, length, take, ltb, ◌==◌, ap, ◌∙◌, if◌then◌else◌,
}
use daily_scheduler.Planner.Model.{
  TaskTable, SubTaskTable, PrayerTable, PersonalTask, PrayerCompletion, TaskCategory,
  non_negotiable, secondary, fun, weekday,
}
use daily_scheduler.Planner.Analytics.{
  Stats, DayStats, stats_of, daily_from, daily, in_range, in_category, calculate_completion_stats,
  calculate_prayer_completion_stats, get_daily_stats, get_daily_subtask_stats,
  get_daily_prayer_stats,
}
use daily_scheduler.Planner.Analytics.Sums.{
  sum_of, get_daily_stats-sum, calculate_completion_stats-incomplete,
  calculate_completion_stats-categories,
}
use daily_scheduler.Planner.Analytics.Dates.{Months, get_date_range}
use daily_scheduler.Planner.Analytics.Dashboard.{
  danger, warning, info, Alert, alerts_of, analytics_dashboard,
}
use daily_scheduler.Planner.Analytics.Charts.{
  Dataset, completed_of, incomplete_of, chart_data, get_chart_data_api,
}

abbrev pub is_danger : Alert → Bool
is_danger a = elim a.kind [ danger ↦ true | warning ↦ false | info ↦ false ]

-- The danger alerts of the three figures.
dangers :
    (n s p : Stats)
    → n.incomplete ≡ n.total - n.completed
    → count is_danger (alerts_of n s p)
      ≡ (if ltb n.completed n.incomplete then 1 else 0)
        + (if ltb (2 * p.completed) p.total then 1 else 0)
unfolding alerts_of
dangers n s p h = ground arith

module _ (c : Months) (t : TaskTable) (s : SubTaskTable) (p : PrayerTable) where
  abbrev pub is_open : ℕ × ℕ → PersonalTask → Bool
  is_open (start_date, end_date) x =
      in_range start_date end_date x.date && in_category (some non_negotiable) x

  abbrev pub in_period : ℕ × ℕ → PrayerCompletion → Bool
  in_period (start_date, end_date) x = in_range start_date end_date x.date

  -- Whatever is shown, the dashboard has a danger alert for the non-negotiable tasks exactly if
  -- more of those in its range are open than completed, one for the prayers exactly if less than
  -- half of those recorded in the range are completed, and no other.
  pub analytics_dashboard_dangers :
      (today : ℕ) (filter_type view_type category : String) (d : t.Db) (e : s.Db) (f : p.Db)
      → let range = get_date_range c today filter_type in
        count is_danger
          (analytics_dashboard c t s p today filter_type view_type category d e f).alerts
        ≡ (if ltb
              (count (λ x. is_open range x && x.is_completed) (t.rows d))
              (count (λ x. is_open range x && not x.is_completed) (t.rows d))
            then 1
            else 0)
          + (if ltb
                (2 * count (λ x. in_period range x && x.is_completed) (p.rows f))
                (count (in_period range) (p.rows f))
              then 1
              else 0)
  unfolding analytics_dashboard calculate_completion_stats calculate_prayer_completion_stats
      stats_of
  analytics_dashboard_dangers today filter_type view_type category d e f =
      let (start_date, end_date) = get_date_range c today filter_type in
      let n = calculate_completion_stats t start_date end_date (some non_negotiable) d in
      let r = calculate_prayer_completion_stats p start_date end_date f in
      dangers n (calculate_completion_stats t start_date end_date (some secondary) d) r refl
      ∙ ap
          (λ k.
            (if ltb n.completed k then 1 else 0) + (if ltb (2 * r.completed) r.total then 1 else 0))
          (calculate_completion_stats-incomplete t start_date end_date (some non_negotiable) d)

abbrev pub sum : List ℕ → ℕ
sum [] = 0
sum (n ∷ ns) = n + sum ns

abbrev pub sum_values : List Dataset → ℕ
sum_values [] = 0
sum_values (x ∷ xs) = sum x.values + sum_values xs

sum-map :
    (f : DayStats → ℕ) (g : Stats → ℕ) (xs : List DayStats)
    → ((x : DayStats) → f x ≡ g x.stats)
    → sum (map f xs) ≡ sum_of g xs
sum-map f g [] h = refl
sum-map f g (x ∷ xs) h = ground (arith, h x, sum-map f g xs h)

length-map : (f : DayStats → ℕ) (xs : List DayStats) → length (map f xs) ≡ length xs
length-map f [] = refl
length-map f (x ∷ xs) = ground (arith, length-map f xs)

module _ {A : Type 0} (p : ℕ → A → Bool) (done : A → Bool) (xs : List A) where
  length-daily_from : (n a : ℕ) → length (daily_from p done xs n a) ≡ n
  unfolding daily_from
  length-daily_from zero a = refl
  length-daily_from (suc n) a = omega (arith, length-daily_from n (a + 1))

  length-daily : (a z : ℕ) → length (daily p done xs a z) ≡ z + 1 - a
  unfolding daily
  length-daily a z = length-daily_from (z + 1 - a) a

  sum-incomplete :
      (n a : ℕ)
      → sum_of (λ s. s.completed) (daily_from p done xs n a)
          + sum_of (λ s. s.incomplete) (daily_from p done xs n a)
        ≡ sum_of (λ s. s.total) (daily_from p done xs n a)
  unfolding daily_from stats_of
  sum-incomplete zero a = refl
  sum-incomplete (suc n) a = omega (arith, sum-incomplete n (a + 1), count-and-le (p a) done xs)

chart_data_lines :
    (days : ℕ) (n k g u r : List DayStats)
    → length n ≡ days
    → length k ≡ days
    → length g ≡ days
    → length u ≡ days
    → length r ≡ days
    → let chart = chart_data n k g u r in
      (count (λ x. length x.values == length chart.labels) chart.datasets ≡ 8)
      × (length chart.labels ≡ days)
unfolding chart_data
chart_data_lines days n k g u r hn hk hg hu hr =
    let label = length-map (λ x. weekday x.date) n in
    let completed = length-map (λ x. x.stats.completed) in
    let incomplete = length-map (λ x. x.stats.incomplete) in
    (
      ground (
        arith,
        label,
        completed n,
        incomplete n,
        completed k,
        incomplete k,
        completed g,
        incomplete g,
        completed u,
        completed r,
      ),
      omega (arith, label),
    )

module _ (c : Months) (t : TaskTable) (s : SubTaskTable) (p : PrayerTable) where
  line_total :
      (a z : ℕ) (category : Option TaskCategory) (d : t.Db)
      → sum (completed_of (get_daily_stats t a z category d))
          + sum (incomplete_of (get_daily_stats t a z category d))
        ≡ (calculate_completion_stats t a z category d).total
  unfolding get_daily_stats daily
  line_total a z category d =
      let p : ℕ → PersonalTask → Bool = λ date x. x.date == date && in_category category x in
      let xs = get_daily_stats t a z category d in
      omega (
        arith,
        sum-map (λ x. x.stats.completed) (λ s. s.completed) xs (λ x. refl),
        sum-map (λ x. x.stats.incomplete) (λ s. s.incomplete) xs (λ x. refl),
        sum-incomplete p (λ x. x.is_completed) (t.rows d) (z + 1 - a) a,
        (get_daily_stats-sum t a z category d).0,
      )

  -- The six lines of the tasks, which come first in the chart, add up to the number of tasks in the
  -- range of the filter, and all eight lines have one value for each label, one for each day.
  pub get_chart_data_api_total :
      (today : ℕ) (filter_type : String) (d : t.Db) (e : s.Db) (f : p.Db)
      → let (start_date, end_date) = get_date_range c today filter_type in
        let chart = get_chart_data_api c t s p today filter_type d e f in
        (sum_values (take 6 chart.datasets)
          ≡ (calculate_completion_stats t start_date end_date none d).total)
        × (count (λ x. length x.values == length chart.labels) chart.datasets ≡ 8)
        × (length chart.labels ≡ end_date + 1 - start_date)
  unfolding get_chart_data_api get_daily_stats get_daily_subtask_stats get_daily_prayer_stats
  get_chart_data_api_total today filter_type d e f =
      let (a, z) = get_date_range c today filter_type in
      let lines =
        chart_data_lines (z + 1 - a) (get_daily_stats t a z (some non_negotiable) d)
          (get_daily_stats t a z (some secondary) d) (get_daily_stats t a z (some fun) d)
          (get_daily_subtask_stats t s a z d e) (get_daily_prayer_stats p a z f)
          (length-daily _ _ (t.rows d) a z) (length-daily _ _ (t.rows d) a z)
          (length-daily _ _ (t.rows d) a z) (length-daily _ _ (s.rows e) a z)
          (length-daily _ _ (p.rows f) a z) in
      (
        omega (
          arith,
          line_total a z (some non_negotiable) d,
          line_total a z (some secondary) d,
          line_total a z (some fun) d,
          calculate_completion_stats-categories t a z d,
        ),
        lines.0,
        lines.1,
      )
