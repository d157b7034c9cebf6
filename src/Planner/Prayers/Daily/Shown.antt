-- ===== src/Planner/Prayers/Daily/Shown.antt =====
-- The page of a day shows what was set.
use daily_scheduler.Base.{
  ℕ, ◌≤◌, ◌≡◌, refl, String, Bool, false, not, ◌&&◌, Option, none, some, List, [], ◌∷◌, map, arith,
  count, count-and-le, head?, select, ◌==◌, ==_iff, if◌then◌else◌, Bool-cases, inl, inr, ap, ◌∙◌,
}
use daily_scheduler.Orm.{OrderBy}
use daily_scheduler.Planner.Model.{
  PrayerName, prayer_number, PrayerCompletion, PrayerCompletionStatus, PrayerTable,
}
use daily_scheduler.Planner.Prayers.{
  status_number, status_of, is_record, agrees, found_record, toggle_prayer_completion,
}
use daily_scheduler.Planner.Prayers.Status.{
  agrees-toggle_prayer_completion, status-toggle_prayer_completion,
}
use daily_scheduler.Planner.Prayers.Times.{PrayerSchedule, ScheduleTable}
use daily_scheduler.Planner.Prayers.Daily.{
  DailyPrayer, or_row, dict_get, or_false, status_or_default, daily_prayer,
  get_daily_prayer_completions,
}

same_status : (a b : PrayerCompletionStatus) → status_number a ≡ status_number b → a ≡ b
same_status a b h = ground arith

or_row-false : (o : Option Bool) (b : Bool) → or_row o false b ≡ o
or_row-false none b = refl
or_row-false (some c) b = refl

prayer_number_inj : (a b : PrayerName) → prayer_number a ≡ prayer_number b → a ≡ b
prayer_number_inj a b h = ground arith

-- What the page reads of the rows of a prayer on a date, if there is just one and it is good.
module _ (name : PrayerName) (date : ℕ) (status : PrayerCompletionStatus) where
  abbrev is_good : PrayerCompletion → Bool
  is_good x = status_number x.status == status_number status

  dict_get-none :
      (xs : List PrayerCompletion)
      → count (is_record name date) xs ≡ 0
      → dict_get name date xs ≡ none
  dict_get-none [] h = refl
  dict_get-none (x ∷ xs) h = ground (arith, dict_get-none xs)

  shown_status :
      (xs : List PrayerCompletion)
      → count (is_record name date) xs ≡ 1
      → count (λ x. is_record name date x && is_good x) xs ≡ 1
      → status_or_default (head? (select (is_record name date) xs)) ≡ status
  shown_status [] h g = absurd (omega arith)
  shown_status (x ∷ xs) h g = elim (Bool-cases (is_record name date x)) [
    | inl here ↦ rw here (
        same_status x.status status (ground (arith, count-and-le (is_record name date) is_good xs)))
    | inr there ↦ rw there (shown_status xs (ground arith) (ground arith))
  ]

  shown_completed :
      (xs : List PrayerCompletion)
      → count (is_record name date) xs ≡ 1
      → count (λ x. is_record name date x && is_good x) xs ≡ 1
      → count (λ x. not (agrees x)) xs ≡ 0
      → or_false (dict_get name date xs) ≡ (status_number status == 0)
  shown_completed [] h g a = absurd (omega arith)
  shown_completed (x ∷ xs) h g a = elim (Bool-cases (is_record name date x)) [
    | inl here ↦
        rw (here, dict_get-none xs (ground arith))
          (ground (arith, count-and-le (is_record name date) is_good xs))
    | inr there ↦
        ap or_false (
          ap (λ b. or_row (dict_get name date xs) b x.is_completed) there
          ∙ or_row-false (dict_get name date xs) x.is_completed)
        ∙ shown_completed xs (ground arith) (ground arith) (ground arith)
  ]

module _ (name : PrayerName) where
  -- The entries that show the prayer of the request, and those that show it as it was set.
  abbrev pub shows_name : DailyPrayer → Bool
  shows_name x = prayer_number x.prayer_name == prayer_number name

  abbrev pub shows_request : String → DailyPrayer → Bool
  shows_request text x =
      shows_name x
      && (status_number x.status == status_number (status_of text)
          && (if status_number (status_of text) == 0 then x.is_completed else not x.is_completed))

  abbrev pub is_time_of : PrayerSchedule → Bool
  is_time_of y = prayer_number y.prayer_name == prayer_number name

module _ (p : PrayerTable) (name : PrayerName) (date : ℕ) (text : String) (now : ℕ) (f : p.Db)
    (keys : (n : ℕ) → count (λ x. x.id == n) (p.rows f) ≤ 1)
    (one : count (is_record name date) (p.rows f) ≤ 1)
    (agreed : count (λ x. not (agrees x)) (p.rows f) ≡ 0) where
  abbrev after : p.Db
  after = toggle_prayer_completion p name date text now f

  abbrev IsShown : DailyPrayer → Type 0
  IsShown x = (x.status ≡ status_of text) × (x.is_completed ≡ (status_number (status_of text) == 0))

  daily_prayer-IsShown :
      (prayer : PrayerSchedule)
      → prayer.prayer_name ≡ name
      → IsShown (daily_prayer p date after prayer)
  unfolding daily_prayer
  daily_prayer-IsShown prayer e =
      let (once, chosen) = status-toggle_prayer_completion p name date text now f keys one in
      let fine = agrees-toggle_prayer_completion p name date text now f agreed in
      (
        ap (λ n. status_or_default (found_record p n date after)) e
            ∙ shown_status name date (status_of text) (p.rows after) once chosen,
        ap (λ n. or_false (dict_get n date (p.rows after))) e
            ∙ shown_completed name date (status_of text) (p.rows after) once chosen fine,
      )

  shows_name-daily_prayer :
      (y : PrayerSchedule) → shows_name name (daily_prayer p date after y) ≡ is_time_of name y
  unfolding daily_prayer
  shows_name-daily_prayer y = refl

  shows_request-daily_prayer :
      (y : PrayerSchedule)
      → shows_request name text (daily_prayer p date after y) ≡ is_time_of name y
  shows_request-daily_prayer y = elim (Bool-cases (is_time_of name y)) [
    | inl named ↦
        let (status_is, completed_is) =
          daily_prayer-IsShown y
            (prayer_number_inj y.prayer_name name ((==_iff _ (prayer_number name)).0 named)) in
        rw (shows_name-daily_prayer y, status_is, completed_is) (ground arith)
    | inr other ↦ rw (shows_name-daily_prayer y, other) refl
  ]

  -- The times of an entry are those of the row that it was made of.
  count-shown :
      (test : DailyPrayer → Bool)
      (same : (y : PrayerSchedule) → test (daily_prayer p date after y) ≡ is_time_of name y)
      (at : ℕ → ℕ → Bool) (ys : List PrayerSchedule)
      → count (λ x. test x && at x.start_time x.end_time) (map (daily_prayer p date after) ys)
        ≡ count (λ y. is_time_of name y && at y.start_time y.end_time) ys
  unfolding daily_prayer
  count-shown test same at [] = refl
  count-shown test same at (y ∷ ys) = rw (same y) (rw (count-shown test same at ys) refl)

  -- After a request to set a prayer for a date, the page of the date has an entry with the prayer's
  -- name for every row of the times of the prayer, with the times of the row and no others, and each
  -- of them shows the status of the request, and the prayer as completed exactly if that is "prayed":
  -- where no two rows share an id, the prayer has one row for the date at most, and every row agrees
  -- with itself.
  pub get_daily_prayer_completions-toggle_prayer_completion :
      (s : ScheduleTable) (o : OrderBy s) (d : s.Db) (at : ℕ → ℕ → Bool)
      → let page =
          (get_daily_prayer_completions p s o date d
            (toggle_prayer_completion p name date text now f)).prayers in
        let times = count (λ y. is_time_of name y && at y.start_time y.end_time) (s.rows d) in
        (count (λ x. shows_name name x && at x.start_time x.end_time) page ≡ times)
        × (count (λ x. shows_request name text x && at x.start_time x.end_time) page ≡ times)
  unfolding get_daily_prayer_completions
  get_daily_prayer_completions-toggle_prayer_completion s o d at =
      let ordered =
        o.count-ordered (λ y. y.start_time) (λ y. is_time_of name y && at y.start_time y.end_time)
          d in
      (
        count-shown (shows_name name) shows_name-daily_prayer at (o.ordered (λ y. y.start_time) d)
            ∙ ordered,
        count-shown (shows_request name text) shows_request-daily_prayer at
              (o.ordered (λ y. y.start_time) d)
            ∙ ordered,
      )
