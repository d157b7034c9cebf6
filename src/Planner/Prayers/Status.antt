-- ===== src/Planner/Prayers/Status.antt =====
-- What toggle_prayer_completion leaves in the table of the prayers.
use daily_scheduler.Base.{
  ℕ, ◌+◌, ◌≤◌, ◌≡◌, refl, String, Bool, true, not, ◌&&◌, Option, none, some, List, [], ◌∷◌, arith,
  count, count-and-le, count-split, head?, select, ◌==◌, if◌then◌else◌, Bool-cases, inl, inr, ap,
  count_mono, ◌∙◌,
}
use daily_scheduler.Planner.Model.{
  PrayerName, PrayerCompletion, PrayerCompletionStatus, prayed, not_yet, missed, PrayerTable,
}
use daily_scheduler.Planner.Prayers.{
  status_number, status_of, with_status, is_record, new_record, agrees, found_record, save_status,
  toggle_prayer_completion,
}

-- The rows of a list under one id that are replaced by a row.
count-replace :
    (p : PrayerCompletion → Bool) (r : PrayerCompletion) (xs : List PrayerCompletion)
    → count (λ x. p (if x.id == r.id then r else x)) xs
      ≡ (if p r then count (λ x. x.id == r.id) xs else 0)
        + count (λ x. p x && not (x.id == r.id)) xs
count-replace p r [] = ground arith
count-replace p r (x ∷ xs) = ground (arith, count-replace p r xs)

head_of_select :
    (q : PrayerCompletion → Bool) (x r : PrayerCompletion) (xs : List PrayerCompletion)
    → head? (select q (x ∷ xs)) ≡ some r
    → q x ≡ true
    → x ≡ r
head_of_select q x r xs e h = grind arith

found_passes :
    (q : PrayerCompletion → Bool) (xs : List PrayerCompletion) (r : PrayerCompletion)
    → head? (select q xs) ≡ some r
    → q r ≡ true
found_passes q [] r e = ground arith
found_passes q (x ∷ xs) r e = elim (Bool-cases (q x)) [
  | inl here ↦ ground (arith, ap q (head_of_select q x r xs e here))
  | inr there ↦ ground (arith, found_passes q xs r)
]

found_counted :
    (q f : PrayerCompletion → Bool) (xs : List PrayerCompletion) (r : PrayerCompletion)
    → head? (select q xs) ≡ some r
    → f r ≡ true
    → 1 ≤ count (λ x. q x && f x) xs
found_counted q f [] r e h = ground arith
found_counted q f (x ∷ xs) r e h = elim (Bool-cases (q x)) [
  | inl here ↦ ground (arith, ap f (head_of_select q x r xs e here))
  | inr there ↦ ground (arith, found_counted q f xs r)
]

none_counted :
    (q : PrayerCompletion → Bool) (xs : List PrayerCompletion)
    → head? (select q xs) ≡ none
    → count q xs ≡ 0
none_counted q [] e = refl
none_counted q (x ∷ xs) e = ground (arith, none_counted q xs)

-- A new status leaves the other columns as they are.
id-with_status :
    (status : PrayerCompletionStatus) (now : ℕ) (r : PrayerCompletion)
    → (with_status status now r).id ≡ r.id
id-with_status prayed now r = refl
id-with_status not_yet now r = refl
id-with_status missed now r = refl

is_record-with_status :
    (name : PrayerName) (date : ℕ) (status : PrayerCompletionStatus) (now : ℕ)
    (r : PrayerCompletion)
    → is_record name date (with_status status now r) ≡ is_record name date r
is_record-with_status name date prayed now r = refl
is_record-with_status name date not_yet now r = refl
is_record-with_status name date missed now r = refl

status-with_status :
    (status : PrayerCompletionStatus) (now : ℕ) (r : PrayerCompletion)
    → status_number (with_status status now r).status ≡ status_number status
status-with_status prayed now r = refl
status-with_status not_yet now r = refl
status-with_status missed now r = refl

module _ (p : PrayerTable) where
  agrees-with_status :
      (status : PrayerCompletionStatus) (now : ℕ) (r : PrayerCompletion)
      → agrees (with_status status now r) ≡ true
  agrees-with_status prayed now r = refl
  agrees-with_status not_yet now r = refl
  agrees-with_status missed now r = refl

  agrees-update :
      (status : PrayerCompletionStatus) (now : ℕ) (r : PrayerCompletion) (d : p.Db)
      → count (λ x. not (agrees x)) (p.rows d) ≡ 0
      → count (λ x. not (agrees x)) (p.rows (p.update (with_status status now r) d)) ≡ 0
  agrees-update status now r d h =
      let r' = with_status status now r in
      ground (
        arith,
        p.count-update (λ x. not (agrees x)) r' d,
        count-replace (λ x. not (agrees x)) r' (p.rows d),
        agrees-with_status status now r,
        count-and-le (λ x. not (agrees x)) (λ x. not (x.id == r'.id)) (p.rows d),
      )

  agrees-save_status :
      (name : PrayerName) (date : ℕ) (status : PrayerCompletionStatus) (now : ℕ)
      (found : Option PrayerCompletion) (d : p.Db)
      → count (λ x. not (agrees x)) (p.rows d) ≡ 0
      → count (λ x. not (agrees x)) (p.rows (save_status p name date status now found d)) ≡ 0
  unfolding save_status
  agrees-save_status name date status now (some r) d h = agrees-update status now r d h
  agrees-save_status name date status now none d h =
      let r = new_record name date (p.next_id d) in
      agrees-update status now r (p.insert r d)
        (ground (arith, p.count-insert (λ x. not (agrees x)) r d))

  -- In every row is_completed says whether the status is that of a prayer said, where it did before.
  pub agrees-toggle_prayer_completion :
      (name : PrayerName) (date : ℕ) (status : String) (now : ℕ) (d : p.Db)
      → count (λ x. not (agrees x)) (p.rows d) ≡ 0
      → count (λ x. not (agrees x)) (p.rows (toggle_prayer_completion p name date status now d)) ≡ 0
  unfolding toggle_prayer_completion
  agrees-toggle_prayer_completion name date status now d h =
      agrees-save_status name date (status_of status) now (found_record p name date d) d h

  -- A test that only rows of the prayer and date pass, and that the saved row passes, finds one row.
  module _ (name : PrayerName) (date : ℕ) (status : PrayerCompletionStatus) (now : ℕ)
      (f : PrayerCompletion → Bool)
      (only : (x : PrayerCompletion) → f x ≡ true → is_record name date x ≡ true)
      (saved : (r : PrayerCompletion)
        → is_record name date r ≡ true
        → f (with_status status now r) ≡ true)
      (same : (r : PrayerCompletion) → (with_status status now r).id ≡ r.id) (d : p.Db)
      (keys : (n : ℕ) → count (λ x. x.id == n) (p.rows d) ≤ 1)
      (one : count (is_record name date) (p.rows d) ≤ 1) where
    save_status_once :
        (found : Option PrayerCompletion)
        → found_record p name date d ≡ found
        → count f (p.rows (save_status p name date status now found d)) ≡ 1
    unfolding save_status
    save_status_once (some r) e =
        let r' = with_status status now r in
        let q = is_record name date in
        ground (
          arith,
          p.count-update f r' d,
          count-replace f r' (p.rows d),
          saved r (found_passes q (p.rows d) r e),
          found_counted q (λ x. x.id == r'.id) (p.rows d) r e (ground (arith, same r)),
          keys r'.id,
          count-split q (λ x. x.id == r'.id) (p.rows d),
          count_mono (λ x. q x && x.id == r'.id) (λ x. x.id == r'.id) (p.rows d)
              (λ x h. ground arith),
          count_mono (λ x. f x && not (x.id == r'.id)) (λ x. q x && not (x.id == r'.id)) (p.rows d)
              (λ x h. ground (arith, only x)),
        )
    save_status_once none e =
        let r = new_record name date (p.next_id d) in
        let r' = with_status status now r in
        let q = is_record name date in
        ground (
          arith,
          same r,
          p.count-update f r' (p.insert r d),
          count-replace f r' (p.rows (p.insert r d)),
          saved r (ground arith),
          p.count-insert (λ x. x.id == r'.id) r d,
          p.count-insert (λ x. f x && not (x.id == r'.id)) r d,
          ap (λ n. count (λ x. x.id == n) (p.rows d)) (same r),
          p.next_id_fresh d,
          none_counted q (p.rows d) e,
          count_mono (λ x. f x && not (x.id == r'.id)) q (p.rows d) (λ x h. ground (arith, only x)),
        )

  -- Where no two rows share an id, and the prayer has one row for the date at most, it has just one
  -- afterwards, and that row has the status that was asked for.
  pub status-toggle_prayer_completion :
      (name : PrayerName) (date : ℕ) (status : String) (now : ℕ) (d : p.Db)
      → ((n : ℕ) → count (λ x. x.id == n) (p.rows d) ≤ 1)
      → count (is_record name date) (p.rows d) ≤ 1
      → let after = p.rows (toggle_prayer_completion p name date status now d) in
        (count (is_record name date) after ≡ 1)
        × (count
              (λ x.
                is_record name date x && status_number x.status == status_number (status_of status))
              after
            ≡ 1)
  unfolding toggle_prayer_completion
  status-toggle_prayer_completion name date status now d keys one =
      let found = found_record p name date d in
      let chosen = status_of status in
      (
        save_status_once name date chosen now (is_record name date) (λ x h. h)
            (λ r h. is_record-with_status name date chosen now r ∙ h) (id-with_status chosen now) d
            keys one found refl,
        save_status_once name date chosen now
            (λ x. is_record name date x && status_number x.status == status_number chosen)
            (λ x h. ground arith)
            (λ r h. ground (
              arith,
              is_record-with_status name date chosen now r,
              status-with_status chosen now r,
            ))
            (id-with_status chosen now) d keys one found refl,
      )
