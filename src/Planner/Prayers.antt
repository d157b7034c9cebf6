-- ===== src/Planner/Prayers.antt =====
-- toggle_prayer_completion of scheduler/views/prayer_views.py, for requests that
-- parse and carry a date. `now` is timezone.now().
pub mod Status
pub mod Times
pub mod Daily
use daily_scheduler.Base.{
  ℕ, suc, ◌+◌, ◌*◌, ◌≤◌, ◌≡◌, refl, String, Bool, true, false, not, ◌&&◌, Option, none, some, List,
  [], ◌∷◌, arith, count, count-and-le, count-split, head?, select, ◌==◌, str_eq, if◌then◌else◌,
  Option-cases, Bool-cases, inl, inr, ap, count_mono, ◌∙◌,
}
use daily_scheduler.Orm.{Table}
use daily_scheduler.Planner.Model.{
  PrayerName, prayer_number, PrayerCompletion, PrayerCompletionStatus, prayed, not_yet, missed,
  PrayerTable,
}

abbrev pub status_number : PrayerCompletionStatus → ℕ
status_number prayed = 0
status_number not_yet = 1
status_number missed = 2

-- The request's text: what is neither of two words counts as not yet.
unfoldable pub status_of : String → PrayerCompletionStatus
status_of text =
    if str_eq text "prayed" then prayed else if str_eq text "missed" then missed else not_yet

abbrev pub with_status : PrayerCompletionStatus → ℕ → PrayerCompletion → PrayerCompletion
with_status prayed now r = record r {
  is_completed = true;
  status = prayed;
  completed_at = some now;
}
with_status missed now r = record r { is_completed = false; status = missed; completed_at = none }
with_status not_yet now r = record r { is_completed = false; status = not_yet; completed_at = none }

abbrev pub is_record : PrayerName → ℕ → PrayerCompletion → Bool
is_record name date x = prayer_number x.prayer_name == prayer_number name && x.date == date

-- The row that get_or_create makes, with the defaults of the model.
abbrev pub new_record : PrayerName → ℕ → ℕ → PrayerCompletion
new_record name date id = record {
  id = id;
  prayer_name = name;
  date = date;
  is_completed = false;
  status = not_yet;
  completed_at = none;
}

-- Whether the two columns say the same.
abbrev pub agrees : PrayerCompletion → Bool
agrees x = if x.is_completed then status_number x.status == 0 else not (status_number x.status == 0)

module _ (p : PrayerTable) where
  -- PrayerCompletion.objects.get_or_create
  abbrev pub found_record : PrayerName → ℕ → p.Db → Option PrayerCompletion
  found_record name date d = head? (select (is_record name date) (p.rows d))

  unfoldable pub save_status :
      PrayerName → ℕ → PrayerCompletionStatus → ℕ → Option PrayerCompletion → p.Db → p.Db
  save_status name date status now (some r) d = p.update (with_status status now r) d
  save_status name date status now none d =
      let r = new_record name date (p.next_id d) in
      p.update (with_status status now r) (p.insert r d)

  unfoldable pub toggle_prayer_completion : PrayerName → ℕ → String → ℕ → p.Db → p.Db
  toggle_prayer_completion name date status now d =
      save_status name date (status_of status) now (found_record name date d) d
