-- ===== src/Planner/Analytics/Sums.antt =====
-- The statistics of the single days against those of the whole range.
use mathlib.Core.Path.{fun_ext}
use daily_scheduler.Base.{
  ℕ, zero, suc, ◌+◌, ◌-◌, ◌≡◌, refl, Bool, true, not, ◌&&◌, Option, none, some, List, [], ◌∷◌,
  arith, count, count-split, leb, ltb, ◌==◌, ap, ◌∙◌, sym,
}
use daily_scheduler.Planner.Model.{
  PersonalTask, TaskTable, TaskCategory, non_negotiable, secondary, fun, PrayerTable,
}
use daily_scheduler.Planner.Analytics.{
  Stats, DayStats, stats_of, daily_from, daily, in_range, in_category, calculate_completion_stats,
  get_daily_stats, calculate_prayer_completion_stats, get_daily_prayer_stats,
}

-- The sums over a list of days.
abbrev pub sum_of : (Stats → ℕ) → List DayStats → ℕ
sum_of f [] = 0
sum_of f (x ∷ xs) = f x.stats + sum_of f xs

module _ {A : Type 0} where
  count_ext : (p q : A → Bool) (xs : List A) → ((x : A) → p x ≡ q x) → count p xs ≡ count q xs
  count_ext p q xs h = ap (λ (f : A → Bool). count f xs) (fun_ext h)

  -- The rows whose date is one of the `n` dates from `a` on.
  abbrev window : (A → ℕ) → (A → Bool) → ℕ → ℕ → List A → ℕ
  window date q a n xs = count (λ x. leb a (date x) && (ltb (date x) (a + n) && q x)) xs

  window-zero : (date : A → ℕ) (q : A → Bool) (a : ℕ) (xs : List A) → window date q a 0 xs ≡ 0
  window-zero date q a [] = refl
  window-zero date q a (x ∷ xs) = ground (arith, window-zero date q a xs)

  window-suc :
      (date : A → ℕ) (q : A → Bool) (a n : ℕ) (xs : List A)
      → window date q a (suc n) xs ≡ count (λ x. date x == a && q x) xs + window date q (a + 1) n xs
  window-suc date q a n [] = omega arith
  window-suc date q a n (x ∷ xs) = ground (arith, window-suc date q a n xs)

  module _ (date : A → ℕ) (p : ℕ → A → Bool) (q done : A → Bool) (xs : List A)
      (test : (d : ℕ) (x : A) → p d x ≡ (date x == d && q x)) where
    daily_from-total :
        (n a : ℕ) → sum_of (λ s. s.total) (daily_from p done xs n a) ≡ window date q a n xs
    unfolding daily_from stats_of
    daily_from-total zero a = sym (window-zero date q a xs)
    daily_from-total (suc n) a = omega (
      arith,
      daily_from-total n (a + 1),
      window-suc date q a n xs,
      count_ext (p a) (λ x. date x == a && q x) xs (test a),
    )

    daily_from-completed :
        (n a : ℕ)
        → sum_of (λ s. s.completed) (daily_from p done xs n a)
          ≡ window date (λ x. q x && done x) a n xs
    unfolding daily_from stats_of
    daily_from-completed zero a = sym (window-zero date (λ x. q x && done x) a xs)
    daily_from-completed (suc n) a = omega (
      arith,
      daily_from-completed n (a + 1),
      window-suc date (λ x. q x && done x) a n xs,
      count_ext (λ x. p a x && done x) (λ x. date x == a && (q x && done x)) xs
          (λ x. ground (arith, test a x)),
    )

    -- The range from `a` to `z`, if it is not empty or if it just is.
    daily-total :
        (a z : ℕ)
        → sum_of (λ s. s.total) (daily p done xs a z) ≡ count (λ x. in_range a z (date x) && q x) xs
    unfolding daily
    daily-total a z =
        daily_from-total (z + 1 - a) a
        ∙ count_ext (λ x. leb a (date x) && (ltb (date x) (a + (z + 1 - a)) && q x))
            (λ x. in_range a z (date x) && q x) xs (λ x. ground arith)

    daily-completed :
        (a z : ℕ)
        → sum_of (λ s. s.completed) (daily p done xs a z)
          ≡ count (λ x. (in_range a z (date x) && q x) && done x) xs
    unfolding daily
    daily-completed a z =
        daily_from-completed (z + 1 - a) a
        ∙ count_ext (λ x. leb a (date x) && (ltb (date x) (a + (z + 1 - a)) && (q x && done x)))
            (λ x. (in_range a z (date x) && q x) && done x) xs (λ x. ground arith)

module _ (t : TaskTable) where
  -- Over any range of dates and for any category the daily counts add up to the counts of the
  -- whole range: of all tasks, and of the completed ones.
  pub get_daily_stats-sum :
      (start_date end_date : ℕ) (category : Option TaskCategory) (d : t.Db)
      → (sum_of (λ s. s.total) (get_daily_stats t start_date end_date category d)
          ≡ (calculate_completion_stats t start_date end_date category d).total)
        × (sum_of (λ s. s.completed) (get_daily_stats t start_date end_date category d)
            ≡ (calculate_completion_stats t start_date end_date category d).completed)
  unfolding get_daily_stats calculate_completion_stats stats_of
  get_daily_stats-sum start_date end_date category d = (
    daily-total (λ x. x.date) (λ date x. x.date == date && in_category category x)
        (in_category category) (λ x. x.is_completed) (t.rows d) (λ date x. refl) start_date
        end_date,
    daily-completed (λ x. x.date) (λ date x. x.date == date && in_category category x)
        (in_category category) (λ x. x.is_completed) (t.rows d) (λ date x. refl) start_date
        end_date,
  )

  -- The tasks that a range counts as incomplete are those that are not completed.
  pub calculate_completion_stats-incomplete :
      (start_date end_date : ℕ) (category : Option TaskCategory) (d : t.Db)
      → (calculate_completion_stats t start_date end_date category d).incomplete
        ≡ count
            (λ x.
              (in_range start_date end_date x.date && in_category category x) && not x.is_completed)
            (t.rows d)
  unfolding calculate_completion_stats stats_of
  calculate_completion_stats-incomplete start_date end_date category d = omega (
    arith,
    count-split (λ x. in_range start_date end_date x.date && in_category category x)
        (λ x. x.is_completed) (t.rows d),
  )

  by_category :
      (p : PersonalTask → Bool) (xs : List PersonalTask)
      → count (λ x. p x && in_category none x) xs
        ≡ count (λ x. p x && in_category (some non_negotiable) x) xs
          + count (λ x. p x && in_category (some secondary) x) xs
          + count (λ x. p x && in_category (some fun) x) xs
  by_category p [] = omega arith
  by_category p (x ∷ xs) = ground (arith, by_category p xs)

  -- Every task of a range falls under one of the three categories of the dashboard.
  pub calculate_completion_stats-categories :
      (start_date end_date : ℕ) (d : t.Db)
      → (calculate_completion_stats t start_date end_date none d).total
        ≡ (calculate_completion_stats t start_date end_date (some non_negotiable) d).total
          + (calculate_completion_stats t start_date end_date (some secondary) d).total
          + (calculate_completion_stats t start_date end_date (some fun) d).total
  unfolding calculate_completion_stats stats_of
  calculate_completion_stats-categories start_date end_date d =
      by_category (λ x. in_range start_date end_date x.date) (t.rows d)

-- The same of the prayers: the daily counts add up to those of the whole range.
pub get_daily_prayer_stats-sum :
    (p : PrayerTable) (start_date end_date : ℕ) (d : p.Db)
    → (sum_of (λ s. s.total) (get_daily_prayer_stats p start_date end_date d)
        ≡ (calculate_prayer_completion_stats p start_date end_date d).total)
      × (sum_of (λ s. s.completed) (get_daily_prayer_stats p start_date end_date d)
          ≡ (calculate_prayer_completion_stats p start_date end_date d).completed)
unfolding get_daily_prayer_stats calculate_prayer_completion_stats stats_of
get_daily_prayer_stats-sum p start_date end_date d = (
  daily-total (λ x. x.date) (λ date x. x.date == date) (λ x. true) (λ x. x.is_completed) (p.rows d)
        (λ date x. ground arith) start_date end_date
      ∙ count_ext (λ x. in_range start_date end_date x.date && true)
          (λ x. in_range start_date end_date x.date) (p.rows d) (λ x. ground arith),
  daily-completed (λ x. x.date) (λ date x. x.date == date) (λ x. true) (λ x. x.is_completed)
        (p.rows d) (λ date x. ground arith) start_date end_date
      ∙ count_ext (λ x. (in_range start_date end_date x.date && true) && x.is_completed)
          (λ x. in_range start_date end_date x.date && x.is_completed) (p.rows d)
          (λ x. ground arith),
)
