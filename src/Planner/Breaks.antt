-- ===== src/Planner/Breaks.antt =====
-- auto_insert_breaks of scheduler/views/personal_task_views.py.
use daily_scheduler.Base.{
  ℕ, ◌+◌, ◌*◌, ◌%◌, ◌≤◌, ◌<◌, ◌≡◌, Bool, true, false, not, ◌&&◌, Option, none, some, arith, count,
  leb, ltb, ◌==◌, if◌then◌else◌,
}
use daily_scheduler.Orm.{exists}
use daily_scheduler.Planner.Model.{PersonalTask, TaskTable, fun, minute, day}

abbrev pub is_parent : ℕ → Option ℕ → Bool
is_parent id none = false
is_parent id (some p) = p == id

-- The lookup `date=…, start_time__lt=…, end_time__gt=…` of a span of time on a date.
abbrev pub overlaps : ℕ → ℕ → ℕ → PersonalTask → Bool
overlaps date from to x = x.date == date && (ltb x.start_time to && ltb from x.end_time)

abbrev pub break_end_time : PersonalTask → ℕ
break_end_time task = (task.end_time + 10 * minute) % day

-- The row that is created for the break, under the id that the database gives.
abbrev pub break_row : PersonalTask → ℕ → PersonalTask
break_row task id = record {
  id = id;
  title = "🔔 Break";
  description = "Auto-inserted break to prevent burnout";
  date = task.date;
  start_time = task.end_time;
  end_time = break_end_time task;
  category = fun;
  is_completed = false;
  is_break = true;
  parent_task = some task.id;
}

abbrev is_existing_break : PersonalTask → PersonalTask → Bool
is_existing_break task x =
    x.date == task.date
    && (x.start_time == task.end_time && (x.is_break && is_parent task.id x.parent_task))

abbrev is_conflict : PersonalTask → PersonalTask → Bool
is_conflict task x =
    overlaps task.date task.end_time (break_end_time task) x && not (x.id == task.id)

module _ (t : TaskTable) where
  open t use {Db, rows, insert, next_id}

  unfoldable pub auto_insert_breaks : PersonalTask → Db → Db
  auto_insert_breaks task d =
      if task.is_break
      then d
      else if leb (task.start_time + 60 * minute) task.end_time
      then (if exists t (is_existing_break task) d
          then d
          else if exists t (is_conflict task) d
          then d
          else insert (break_row task (next_id d)) d)
      else d

  -- Inserting the break a second time changes nothing.
  pub auto_insert_breaks_idem :
      (task : PersonalTask) (d : Db)
      → auto_insert_breaks task (auto_insert_breaks task d) ≡ auto_insert_breaks task d
  unfolding auto_insert_breaks
  auto_insert_breaks_idem task d =
      ground (arith, t.count-insert (is_existing_break task) (break_row task (next_id d)) d)

  -- A task of an hour or more that ends in the last ten minutes of a day gets, where no row is in
  -- the way, a break that ends before it starts: the time wraps round and the date stays.
  pub auto_insert_breaks_late :
      (task : PersonalTask) (d : Db)
      → task.is_break ≡ false
      → task.start_time + 60 * minute ≤ task.end_time
      → task.end_time < day
      → day ≤ task.end_time + 10 * minute
      → count (is_existing_break task) (rows d) ≡ 0
      → count (is_conflict task) (rows d) ≡ 0
      → count (λ x. ltb x.end_time x.start_time) (rows (auto_insert_breaks task d))
        ≡ 1 + count (λ x. ltb x.end_time x.start_time) (rows d)
  unfolding auto_insert_breaks
  auto_insert_breaks_late task d own long ends late old free =
      ground
        (arith, t.count-insert (λ x. ltb x.end_time x.start_time) (break_row task (next_id d)) d)
