-- ===== src/Planner/Prayers/Daily/Sums.antt =====
-- The figures of the prayers add up to the dashboard's.
use daily_scheduler.Base.{
  ℕ, ◌+◌, ◌≤◌, ◌<◌, ◌≡◌, refl, Bool, ◌&&◌, List, [], ◌∷◌, arith, count, count-and-le, ◌==◌,
}
use daily_scheduler.Planner.Model.{
  PrayerName, prayer_number, fajr, zhor, asr, magrib, eisha, PrayerCompletion, PrayerTable,
}
use daily_scheduler.Planner.Prayers.Daily.{
  PrayerGroup, add_group, prayer_group, groups_of, get_prayer_stats,
}
use daily_scheduler.Planner.Analytics.{in_range, calculate_prayer_completion_stats, stats_of}

abbrev pub sum_of : (PrayerGroup → ℕ) → List PrayerGroup → ℕ
sum_of g [] = 0
sum_of g (x ∷ xs) = g x + sum_of g xs

abbrev sum_names : (PrayerName → ℕ) → List PrayerName → ℕ
sum_names g [] = 0
sum_names g (x ∷ xs) = g x + sum_names g xs

sum_of-add_group :
    (g : PrayerGroup → ℕ) (x : PrayerGroup) (xs : List PrayerGroup)
    → g x ≤ x.total
    → sum_of g (add_group x xs) ≡ g x + sum_of g xs
sum_of-add_group g x xs h = ground arith

prayer_number_lt : (name : PrayerName) → prayer_number name < 5
prayer_number_lt name = ground arith

-- The rows that pass a test, by the five names.
by_name :
    (q : PrayerCompletion → Bool) (xs : List PrayerCompletion)
    → count (λ x. q x && prayer_number x.prayer_name == 2) xs
        + (count (λ x. q x && prayer_number x.prayer_name == 4) xs
            + (count (λ x. q x && prayer_number x.prayer_name == 0) xs
                + (count (λ x. q x && prayer_number x.prayer_name == 3) xs
                    + count (λ x. q x && prayer_number x.prayer_name == 1) xs)))
      ≡ count q xs
by_name q [] = omega arith
by_name q (x ∷ xs) = ground (arith, prayer_number_lt x.prayer_name, by_name q xs)

by_name_completed :
    (q : PrayerCompletion → Bool) (xs : List PrayerCompletion)
    → count (λ x. (q x && prayer_number x.prayer_name == 2) && x.is_completed) xs
        + (count (λ x. (q x && prayer_number x.prayer_name == 4) && x.is_completed) xs
            + (count (λ x. (q x && prayer_number x.prayer_name == 0) && x.is_completed) xs
                + (count (λ x. (q x && prayer_number x.prayer_name == 3) && x.is_completed) xs
                    + count (λ x. (q x && prayer_number x.prayer_name == 1) && x.is_completed) xs)))
      ≡ count (λ x. q x && x.is_completed) xs
by_name_completed q [] = omega arith
by_name_completed q (x ∷ xs) =
    ground (arith, prayer_number_lt x.prayer_name, by_name_completed q xs)

abbrev names : List PrayerName
names = asr ∷ eisha ∷ fajr ∷ magrib ∷ zhor ∷ []

module _ (p : PrayerTable) (start_date end_date : ℕ) (f : p.Db) where
  sum_of-groups_of :
      (g : PrayerGroup → ℕ)
      → ((name : PrayerName)
          → g (prayer_group p start_date end_date f name)
            ≤ (prayer_group p start_date end_date f name).total)
      → (all : List PrayerName)
      → sum_of g (groups_of p start_date end_date f all)
        ≡ sum_names (λ name. g (prayer_group p start_date end_date f name)) all
  unfolding groups_of
  sum_of-groups_of g h [] = refl
  sum_of-groups_of g h (name ∷ rest) = omega (
    arith,
    sum_of-add_group g (prayer_group p start_date end_date f name)
        (groups_of p start_date end_date f rest) (h name),
    sum_of-groups_of g h rest,
  )

  -- The figures of get_prayer_stats add up, over the prayers that it lists, to those that the
  -- dashboard gives of all prayers of the range, both the recorded and the completed ones.
  pub get_prayer_stats-sum :
      (sum_of (λ x. x.total) (get_prayer_stats p start_date end_date f)
        ≡ (calculate_prayer_completion_stats p start_date end_date f).total)
      × (sum_of (λ x. x.completed) (get_prayer_stats p start_date end_date f)
          ≡ (calculate_prayer_completion_stats p start_date end_date f).completed)
  unfolding get_prayer_stats prayer_group calculate_prayer_completion_stats stats_of
  get_prayer_stats-sum =
      let q : PrayerCompletion → Bool = λ x. in_range start_date end_date x.date in
      (
        omega (
          arith,
          sum_of-groups_of (λ x. x.total) (λ name. omega arith) names,
          by_name q (p.rows f),
        ),
        omega (
          arith,
          sum_of-groups_of (λ x. x.completed)
              (λ name.
                count-and-le (λ x. q x && prayer_number x.prayer_name == prayer_number name)
                  (λ x. x.is_completed) (p.rows f))
              names,
          by_name_completed q (p.rows f),
        ),
      )
