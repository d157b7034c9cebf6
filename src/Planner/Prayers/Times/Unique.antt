-- ===== src/Planner/Prayers/Times/Unique.antt =====
-- No prayer has two times: what the views keep of the table of the times.
use daily_scheduler.Base.{
  ℕ, ◌≤◌, ◌≡◌, refl, String, Bool, not, ◌||◌, Option, none, some, List, [], ◌∷◌, arith, count,
  count-and-le, ◌==◌, str_eq, Bool-cases, inl, inr,
}
use daily_scheduler.Orm.{exists, with_id}
use daily_scheduler.Orm.Found.{count-insert_new, count-update_found}
use daily_scheduler.Planner.Model.{PrayerName, prayer_number}
use daily_scheduler.Planner.Prayers.Times.{
  PrayerSchedule, ScheduleTable, is_named, PrayerRequest, create_request, update_request,
  delete_request, create_timed, create_prayer, update_timed, update_found, update_prayer,
  delete_found, delete_prayer, serve, serve_all, IsUnique,
}

abbrev number : PrayerSchedule → ℕ
number x = prayer_number x.prayer_name

module _ (s : ScheduleTable) (to_time : String → Option ℕ) where
  open s use {Db, rows, next_id, insert, update, delete}

  create_timed-IsUnique :
      (name : PrayerName) (a b : Option ℕ) (d : Db)
      → count (is_named name) (rows d) ≡ 0
      → IsUnique s d
      → IsUnique s (create_timed s to_time name a b d).1
  unfolding create_timed
  create_timed-IsUnique name (some a) (some b) d free u =
      let r : PrayerSchedule = record {
        id = next_id d;
        prayer_name = name;
        start_time = a;
        end_time = b;
      } in
      record {
        keys = λ i. count-insert_new (λ x. x.id) s (λ x. x.id) r d (s.next_id_fresh d) i (u.keys i);
        names = λ other.
            count-insert_new (λ x. x.id) s number r d free (prayer_number other) (u.names other);
      }
  create_timed-IsUnique name (some a) none d free u = u
  create_timed-IsUnique name none b d free u = u

  create_prayer-IsUnique :
      (name : Option PrayerName) (a b : String) (d : Db)
      → IsUnique s d
      → IsUnique s (create_prayer s to_time name a b d).1
  unfolding create_prayer
  create_prayer-IsUnique none a b d u = u
  create_prayer-IsUnique (some name) a b d u = elim (Bool-cases (str_eq a "" || str_eq b "")) [
    | inl missing ↦ rw missing u
    | inr given ↦ elim (Bool-cases (exists s (is_named name) d)) [
      | inl taken ↦ rw (given, taken) u
      | inr free ↦
          rw (given, free) (create_timed-IsUnique name (to_time a) (to_time b) d (ground arith) u)
    ]
  ]

  count_le :
      (p : PrayerSchedule → Bool) (i : ℕ) (prayer new : PrayerSchedule) (d : Db)
      → with_id s i d ≡ some prayer
      → count (λ x. x.id == i) (rows d) ≤ 1
      → new.id ≡ prayer.id
      → p new ≡ p prayer
      → count p (rows d) ≤ 1
      → count p (rows (update new d)) ≤ 1
  count_le p i prayer new d e one same h k =
      omega (arith, count-update_found (λ x. x.id) s p i prayer new d one e same h)

  update_timed-IsUnique :
      (i : ℕ) (prayer : PrayerSchedule) (a b : Option ℕ) (d : Db)
      → with_id s i d ≡ some prayer
      → IsUnique s d
      → IsUnique s (update_timed s to_time prayer a b d).1
  unfolding update_timed
  update_timed-IsUnique i prayer (some a) (some b) d e u =
      let new : PrayerSchedule = record prayer { start_time = a; end_time = b } in
      record {
        keys = λ j. count_le (λ x. x.id == j) i prayer new d e (u.keys i) refl refl (u.keys j);
        names =
            λ name. count_le (is_named name) i prayer new d e (u.keys i) refl refl (u.names name);
      }
  update_timed-IsUnique i prayer (some a) none d e u = u
  update_timed-IsUnique i prayer none b d e u = u

  update_found-IsUnique :
      (i : ℕ) (found : Option PrayerSchedule) (a b : String) (d : Db)
      → with_id s i d ≡ found
      → IsUnique s d
      → IsUnique s (update_found s to_time found a b d).1
  unfolding update_found
  update_found-IsUnique i none a b d e u = u
  update_found-IsUnique i (some prayer) a b d e u = elim (Bool-cases (str_eq a "" || str_eq b "")) [
    | inl missing ↦ rw missing u
    | inr given ↦ rw given (update_timed-IsUnique i prayer (to_time a) (to_time b) d e u)
  ]

  delete_found-IsUnique :
      (found : Option PrayerSchedule) (d : Db)
      → IsUnique s d
      → IsUnique s (delete_found s to_time found d).1
  unfolding delete_found
  delete_found-IsUnique none d u = u
  delete_found-IsUnique (some prayer) d u =
      let gone = λ (x : PrayerSchedule). x.id == prayer.id in
      let fewer = λ (p : PrayerSchedule → Bool). count-and-le p (λ x. not (gone x)) (rows d) in
      record {
        keys = λ i.
            omega (arith, s.count-delete (λ x. x.id == i) gone d, fewer (λ x. x.id == i), u.keys i);
        names = λ name.
            omega
              (arith, s.count-delete (is_named name) gone d, fewer (is_named name), u.names name);
      }

  serve-IsUnique : (r : PrayerRequest) (d : Db) → IsUnique s d → IsUnique s (serve s to_time r d).1
  unfolding update_prayer delete_prayer
  serve-IsUnique (create_request name a b) d u = create_prayer-IsUnique name a b d u
  serve-IsUnique (update_request i a b) d u = update_found-IsUnique i (with_id s i d) a b d refl u
  serve-IsUnique (delete_request i) d u = delete_found-IsUnique (with_id s i d) d u

  -- After any series of requests to create, update and delete the times of prayers, accepted or
  -- refused, no two rows share an id and no prayer has two times, where that held before.
  pub serve_all-IsUnique :
      (rs : List PrayerRequest) (d : Db) → IsUnique s d → IsUnique s (serve_all s to_time rs d)
  serve_all-IsUnique [] d u = u
  serve_all-IsUnique (r ∷ rs) d u =
      serve_all-IsUnique rs (serve s to_time r d).1 (serve-IsUnique r d u)
