-- ===== src/Planner/Prayers/Times.antt =====
-- The times of the prayers: PrayerSchedule of scheduler/models/personal_task.py, and create_prayer,
-- update_prayer and delete_prayer of scheduler/views/prayer_views.py. The name is one of the choices,
-- none where it is missing, and a missing time is the empty text. How Django reads a text as a time
-- when it saves is a parameter, none where it raises.
pub mod Unique
use daily_scheduler.Base.{
  ℕ, zero, suc, ◌+◌, ◌≤◌, ◌≡◌, refl, String, Bool, true, false, not, ◌&&◌, ◌||◌, Option, none, some,
  List, [], ◌∷◌, arith, count, count-and-le, head?, select, ltb, ◌==◌, str_eq, if◌then◌else◌,
  Bool-cases, inl, inr, ap,
}
use daily_scheduler.Orm.{Table, exists, with_id}
use daily_scheduler.Planner.Model.{PrayerName, prayer_number}

pub record PrayerSchedule : Type 0 where
  pub id : ℕ
  pub prayer_name : PrayerName
  pub start_time : ℕ
  pub end_time : ℕ

abbrev pub ScheduleTable : Type 1
ScheduleTable = Table PrayerSchedule (λ x. x.id)

abbrev pub is_named : PrayerName → PrayerSchedule → Bool
is_named name x = prayer_number x.prayer_name == prayer_number name

-- What the views tell the user; `not_found` is get_object_or_404's answer.
pub data Message : Type 0 where
  all_fields_required already_exists created error_creating updated error_updating deleted
        not_found :
      Message

pub data PrayerRequest : Type 0 where
  create_request : Option PrayerName → String → String → PrayerRequest
  update_request : ℕ → String → String → PrayerRequest
  delete_request : ℕ → PrayerRequest

module _ (s : ScheduleTable) (to_time : String → Option ℕ) where
  open s use {Db, rows, next_id, insert, update, delete}

  unfoldable pub create_timed : PrayerName → Option ℕ → Option ℕ → Db → Message × Db
  create_timed name (some start_time) (some end_time) d = (
    created,
    insert
        (record {
          id = next_id d;
          prayer_name = name;
          start_time = start_time;
          end_time = end_time;
        })
        d,
  )
  create_timed name (some start_time) none d = (error_creating, d)
  create_timed name none end_time d = (error_creating, d)

  unfoldable pub create_prayer : Option PrayerName → String → String → Db → Message × Db
  unfolding create_timed
  create_prayer none start_time end_time d = (all_fields_required, d)
  create_prayer (some name) start_time end_time d =
      if str_eq start_time "" || str_eq end_time ""
      then (all_fields_required, d)
      else if exists s (is_named name) d
      then (already_exists, d)
      else create_timed name (to_time start_time) (to_time end_time) d

  unfoldable pub update_timed : PrayerSchedule → Option ℕ → Option ℕ → Db → Message × Db
  update_timed prayer (some start_time) (some end_time) d =
      (updated, update (record prayer { start_time = start_time; end_time = end_time }) d)
  update_timed prayer (some start_time) none d = (error_updating, d)
  update_timed prayer none end_time d = (error_updating, d)

  unfoldable pub update_found : Option PrayerSchedule → String → String → Db → Message × Db
  unfolding update_timed
  update_found none start_time end_time d = (not_found, d)
  update_found (some prayer) start_time end_time d =
      if str_eq start_time "" || str_eq end_time ""
      then (all_fields_required, d)
      else update_timed prayer (to_time start_time) (to_time end_time) d

  unfoldable pub update_prayer : ℕ → String → String → Db → Message × Db
  unfolding update_found
  update_prayer prayer_id start_time end_time d =
      update_found (with_id s prayer_id d) start_time end_time d

  unfoldable pub delete_found : Option PrayerSchedule → Db → Message × Db
  delete_found none d = (not_found, d)
  delete_found (some prayer) d = (deleted, delete (λ x. x.id == prayer.id) d)

  unfoldable pub delete_prayer : ℕ → Db → Message × Db
  unfolding delete_found
  delete_prayer prayer_id d = delete_found (with_id s prayer_id d) d

  abbrev pub serve : PrayerRequest → Db → Message × Db
  serve (create_request name start_time end_time) d = create_prayer name start_time end_time d
  serve (update_request prayer_id start_time end_time) d =
      update_prayer prayer_id start_time end_time d
  serve (delete_request prayer_id) d = delete_prayer prayer_id d

  -- A series of requests, one behind the other.
  abbrev pub serve_all : List PrayerRequest → Db → Db
  serve_all [] d = d
  serve_all (r ∷ rs) d = serve_all rs (serve r d).1

module _ (s : ScheduleTable) where
  pub record IsUnique (d : s.Db) : Type 0 where
    pub keys : (i : ℕ) → count (λ x. x.id == i) (s.rows d) ≤ 1
    pub names : (name : PrayerName) → count (is_named name) (s.rows d) ≤ 1
