-- ===== src/Planner/Analytics/Dates.antt =====
-- get_date_range of scheduler/views/analytics_views.py. `today` is the date of timezone.now(), in a
-- year that is not the last one of datetime.
use daily_scheduler.Base.{
  ℕ, ◌+◌, ◌-◌, ◌≤◌, ◌<◌, ◌≡◌, ◌↔◌, refl, String, Bool, true, false, arith, ◌==◌, str_eq, eq_iff,
  if◌then◌else◌, Bool-cases, inl, inr, ap,
}
use daily_scheduler.Planner.Model.{weekday}

-- The year and the month of a date, and date(year, month, 1), of Python's datetime: every date
-- lies in the month that they name, and in no other.
pub record Months : Type 0 where
  pub year : ℕ → ℕ
  pub month : ℕ → ℕ
  pub first_of : ℕ → ℕ → ℕ

abbrev pub first_of_next : Months → ℕ → ℕ → ℕ
first_of_next c y m = if m == 12 then c.first_of (y + 1) 1 else c.first_of y (m + 1)

abbrev pub IsInMonth : Months → ℕ → ℕ → ℕ → Type 0
IsInMonth c y m date = (c.first_of y m ≤ date) × (date < first_of_next c y m)

pub record IsCalendar (c : Months) : Type 0 where
  pub month_bounds : (date : ℕ) → (1 ≤ c.month date) × (c.month date ≤ 12)
  pub in_month : (date : ℕ) → IsInMonth c (c.year date) (c.month date) date
  pub in_one_month :
      (date y m : ℕ)
      → 1 ≤ m
      → m ≤ 12
      → IsInMonth c y m date
      → (c.year date ≡ y) × (c.month date ≡ m)

abbrev week_of : ℕ → ℕ × ℕ
week_of today = (today - weekday today, today - weekday today + 6)

module _ (c : Months) where
  unfoldable pub get_date_range : ℕ → String → ℕ × ℕ
  get_date_range today filter_type =
      if str_eq filter_type "week"
      then week_of today
      else if str_eq filter_type "month"
      then (
        c.first_of (c.year today) (c.month today),
        first_of_next c (c.year today) (c.month today) - 1,
      )
      else week_of today

  -- The dates from the first to the last one of a range.
  abbrev pub IsIn : ℕ × ℕ → ℕ → Type 0
  IsIn (start_date, end_date) date = (start_date ≤ date) × (date ≤ end_date)

  abbrev pub IsWeek : ℕ × ℕ → Type 0
  IsWeek (start_date, end_date) = (weekday start_date ≡ 0) × (end_date ≡ start_date + 6)

  -- What a range is for a filter: the dates of the month, or a week from its Monday on.
  abbrev pub IsRangeOf : Bool → ℕ → ℕ × ℕ → Type 0
  IsRangeOf true today range =
      (date : ℕ) → IsIn range date ↔ ((c.year date ≡ c.year today) × (c.month date ≡ c.month today))
  IsRangeOf false today range = IsWeek range × IsIn range today

  month_range :
      IsCalendar c
      → (today : ℕ)
      → IsRangeOf true today (
        c.first_of (c.year today) (c.month today),
        first_of_next c (c.year today) (c.month today) - 1,
      )
  month_range k today date =
      let (first, last) = k.in_month today in
      let (low, high) = k.month_bounds today in
      (
        λ (a, b).
            k.in_one_month date (c.year today) (c.month today) low high
              (a, omega (arith, first, last, a, b)),
        λ (same_year, same_month).
            let h : IsInMonth c (c.year today) (c.month today) date =
              rw (← same_year, ← same_month) (k.in_month date) in
            (h.0, omega (arith, h.1)),
      )

  not_week : (text : String) → str_eq text "month" ≡ true → str_eq text "week" ≡ false
  not_week text e = ap (λ z. str_eq z "week") ((eq_iff text "month").0 e)

  same_branches : {A : Type 0} (b : Bool) (x : A) → (if b then x else x) ≡ x
  same_branches true x = refl
  same_branches false x = refl

  week_range : (today : ℕ) → 7 ≤ today → IsRangeOf false today (week_of today)
  week_range today h = ((omega arith, refl), (omega arith, omega arith))

  -- Under the filter "month" the range holds exactly the dates of the month of today; under any other
  -- it holds today and is a week that begins on a Monday. Today's ordinal is 7 at least.
  pub get_date_range-IsRangeOf :
      IsCalendar c
      → (today : ℕ) (filter_type : String) → 7 ≤ today
      → IsRangeOf (str_eq filter_type "month") today (get_date_range today filter_type)
  unfolding get_date_range
  get_date_range-IsRangeOf k today filter_type h = elim (Bool-cases (str_eq filter_type "month")) [
    | inl month ↦ rw (month, not_week filter_type month) (month_range k today)
    | inr other ↦
        rw (other, same_branches (str_eq filter_type "week") (week_of today)) (week_range today h)
  ]
