-- ===== src/Tasks/Rows.antt =====
-- The world of a task: the broker, the rows of the table of the tasks, and the texts that a task
-- makes for its jobs (scheduler/models/task.py).
use daily_scheduler.Base.{ℕ, ◌==◌, String, Bool, Option, none, some, List, [], ◌∷◌, if◌then◌else◌}
use daily_scheduler.Jobs.Broker.{Broker}
use daily_scheduler.Tasks.Model.{Task, TaskType}

pub record Texts : Type 0 where
  pub type_text : TaskType → String
  pub next_job_id : String → ℕ → ℕ → String
  pub meta_text : Option (ℕ × Option ℕ) → String
  pub args_text : TaskType → ℕ → String
  pub call_text : TaskType → ℕ → String
  -- The ASYNC of a queue that is configured.
  pub async_of : String → Option Bool

-- The broker, and the rows of the table of the tasks.
pub record World (b : Broker) : Type 0 where
  pub conn : b.Conn
  pub rows : List Task

unfoldable pub find_task : ℕ → List Task → Option Task
find_task id [] = none
find_task id (t ∷ ts) = if t.id == id then some t else find_task id ts

-- Model.save: the row of the same id is replaced, or a row is added.
unfoldable pub store_task : Task → List Task → List Task
store_task t [] = t ∷ []
store_task t (x ∷ xs) = if x.id == t.id then t ∷ xs else x ∷ store_task t xs

-- Model.delete
unfoldable pub remove_task : ℕ → List Task → List Task
remove_task id [] = []
remove_task id (x ∷ xs) = if x.id == id then xs else x ∷ remove_task id xs
