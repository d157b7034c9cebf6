-- ===== src/Planner/Subtasks.antt =====
-- The subtasks of a task: PersonalTask.get_performance_rating of scheduler/models/personal_task.py,
-- and create_subtask, toggle_subtask_completion and toggle_task_completion of
-- scheduler/views/personal_task_views.py, for requests that parse.
pub mod Ratings
use Prim.Native.Nat.{max}
use daily_scheduler.Base.{
  ℕ, suc, ◌+◌, ◌*◌, ◌≤◌, ◌<◌, ◌≡◌, refl, String, Bool, true, false, not, ◌&&◌, Option, none, some,
  List, [], ◌∷◌, Memᴰ, arith, count, leb, ltb, ◌==◌, str_eq, if◌then◌else◌, ap,
}
use daily_scheduler.Orm.{Table}
use daily_scheduler.Planner.Model.{PersonalTask, TaskTable, SubTask, SubTaskTable}

-- The labels of the rating, from the lowest to the highest.
pub data PerformanceRating : Type 0 where
  no_subtasks no_performance poor average above_average fairly_successful excellent
        fully_successful :
      PerformanceRating

pub record TaskCompletion : Type 0 where
  pub id : ℕ
  pub task : ℕ
  pub is_completed : Bool
  pub performance_rating : PerformanceRating

abbrev pub CompletionTable : Type 1
CompletionTable = Table TaskCompletion (λ x. x.id)

-- `percentage < limit`, for the percentage `completed / total * 100`.
abbrev pub below : ℕ → ℕ → ℕ → Bool
below limit completed total = ltb (completed * 100) (limit * total)

unfoldable pub rating_of : ℕ → ℕ → PerformanceRating
rating_of completed total =
    if total == 0
    then no_subtasks
    else if completed == 0
    then no_performance
    else if below 50 completed total
    then poor
    else if below 60 completed total
    then average
    else if below 70 completed total
    then above_average
    else if below 80 completed total
    then fairly_successful
    else if below 90 completed total
    then excellent
    else fully_successful

abbrev pub rank : PerformanceRating → ℕ
rank no_subtasks = 0
rank no_performance = 1
rank poor = 2
rank average = 3
rank above_average = 4
rank fairly_successful = 5
rank excellent = 6
rank fully_successful = 7

-- aggregate(Max("order")) over the subtasks of a task, `or 0`.
abbrev pub max_order : ℕ → List SubTask → ℕ
max_order task [] = 0
max_order task (x ∷ xs) =
    let rest = max_order task xs in if x.personal_task == task then max x.order rest else rest

module _ (s : SubTaskTable) where
  unfoldable pub get_performance_rating : ℕ → s.Db → PerformanceRating
  get_performance_rating task d =
      rating_of (count (λ x. x.personal_task == task && x.is_completed) (s.rows d))
        (count (λ x. x.personal_task == task) (s.rows d))

  -- The title is the stripped one; an empty title is refused.
  unfoldable pub create_subtask : ℕ → String → s.Db → Option s.Db
  create_subtask task title d =
      if str_eq title ""
      then none
      else some (
          s.insert
            (record {
              id = s.next_id d;
              personal_task = task;
              title = title;
              is_completed = false;
              order = max_order task (s.rows d) + 1;
            })
            d)

  unfoldable pub toggle_subtask_completion : SubTask → Bool → s.Db → PerformanceRating × s.Db
  toggle_subtask_completion subtask is_completed d =
      let d' = s.update (record subtask { is_completed = is_completed }) d in
      (get_performance_rating subtask.personal_task d', d')

  -- The task with its new flag, and one more row of the history with the rating.
  unfoldable pub toggle_task_completion :
      (t : TaskTable) (h : CompletionTable) → PersonalTask → Bool → s.Db → t.Db → h.Db → t.Db × h.Db
  toggle_task_completion t h task is_completed subtasks d e = (
    t.update (record task { is_completed = is_completed }) d,
    h.insert
        (record {
          id = h.next_id e;
          task = task.id;
          is_completed = is_completed;
          performance_rating = get_performance_rating task.id subtasks;
        })
        e,
  )
