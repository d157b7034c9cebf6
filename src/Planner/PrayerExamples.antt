-- ===== src/Planner/PrayerExamples.antt =====
-- The theorems on the times and the pages of the prayers at concrete inputs.
use daily_scheduler.Base.{
  ◌&&◌, count, ltb, ℕ, ◌*◌, ◌≡◌, refl, String, true, false, Option, none, some, List, [], ◌∷◌,
  arith, str_eq, if◌then◌else◌,
}
use daily_scheduler.Orm.{Table, OrderBy}
use daily_scheduler.Orm.Memory.{list_table, list_order}
use daily_scheduler.Planner.Model.{PrayerCompletion, fajr, zhor, prayed, missed, hour}
use daily_scheduler.Planner.Prayers.{toggle_prayer_completion}
use daily_scheduler.Planner.Prayers.Times.{
  PrayerSchedule, PrayerRequest, create_request, update_request, delete_request, serve_all,
  IsUnique, create_prayer,
}
use daily_scheduler.Planner.Prayers.Times.Unique.{serve_all-IsUnique}
use daily_scheduler.Planner.Prayers.Daily.{get_daily_prayer_completions}
use daily_scheduler.Planner.Prayers.Daily.Shown.{
  shows_name, shows_request, get_daily_prayer_completions-toggle_prayer_completion,
}

abbrev all_times : Table PrayerSchedule (λ x. x.id)
all_times = list_table (λ x. x.id)

abbrev times_in_order : OrderBy all_times
times_in_order = list_order (λ x. x.id)

abbrev completions : Table PrayerCompletion (λ x. x.id)
completions = list_table (λ x. x.id)

-- Two texts that are times.
abbrev to_time : String → Option ℕ
to_time text =
    if str_eq text "05:00"
    then some (5 * hour)
    else if str_eq text "06:00"
    then some (6 * hour)
    else none

abbrev fajr_time : PrayerSchedule
fajr_time = record { id = 1; prayer_name = fajr; start_time = 5 * hour; end_time = 6 * hour }

abbrev requests : List PrayerRequest
requests =
    create_request (some fajr) "05:00" "06:00"
    ∷ create_request (some fajr) "06:00" "06:00"
    ∷ update_request 1 "06:00" "06:00"
    ∷ delete_request 2
    ∷ []

no_times-IsUnique : IsUnique all_times []
no_times-IsUnique = record { keys = λ i. omega arith; names = λ name. omega arith }

serve_all-IsUnique_example : IsUnique all_times (serve_all all_times to_time requests [])
serve_all-IsUnique_example = serve_all-IsUnique all_times to_time requests [] no_times-IsUnique

fajr_created : (create_prayer all_times to_time (some fajr) "05:00" "06:00" []).1 ≡ fajr_time ∷ []
unfolding create_prayer
fajr_created = refl

abbrev two_rows : List PrayerCompletion
two_rows =
    record {
      id = 1;
      prayer_name = fajr;
      date = 701;
      is_completed = false;
      status = missed;
      completed_at = none;
    }
    ∷ record {
      id = 2;
      prayer_name = zhor;
      date = 701;
      is_completed = true;
      status = prayed;
      completed_at = some 9;
    }
    ∷ []

-- Fajr has one time, which the page shows.
get_daily_prayer_completions-toggle_prayer_completion_example :
    let page =
      (get_daily_prayer_completions completions all_times times_in_order 701
        (fajr_time ∷ [])
        (toggle_prayer_completion completions fajr 701 "prayed" 9 two_rows)).prayers in
    (count (λ x. shows_name fajr x && ltb x.start_time x.end_time) page ≡ 1)
    × (count (λ x. shows_request fajr "prayed" x && ltb x.start_time x.end_time) page ≡ 1)
get_daily_prayer_completions-toggle_prayer_completion_example =
    get_daily_prayer_completions-toggle_prayer_completion completions fajr 701 "prayed" 9 two_rows
      (λ n. ground arith) (omega arith) refl all_times times_in_order (fajr_time ∷ []) ltb
