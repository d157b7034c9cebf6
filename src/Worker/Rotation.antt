-- ===== src/Worker/Rotation.antt =====
-- The order in which a worker asks its queues: Worker.reorder_queues of scheduler/worker/worker.py.
-- A queue stands for itself by its name.
use daily_scheduler.Base.{
  ℕ, suc, String, Option, none, some, List, [], ◌∷◌, ◌++◌, take, drop, str_eq, if◌then◌else◌,
}

pub data DequeueStrategy : Type 0 where
  default round_robin random : DequeueStrategy

abbrev pub next_index : Option ℕ → Option ℕ
next_index none = none
next_index (some i) = some (suc i)

-- list.index, which raises ValueError for a queue that is not there.
unfoldable pub index_of : String → List String → Option ℕ
index_of q [] = none
index_of q (x ∷ xs) = let rest = index_of q xs in if str_eq q x then some 0 else next_index rest

abbrev pub turn_at : Option ℕ → List String → Option (List String)
turn_at none queues = none
turn_at (some i) queues = some (drop (suc i) queues ++ take (suc i) queues)

-- Worker.reorder_queues, for a strategy that is one of the three. None stands for the ValueError.
unfoldable pub reorder_queues :
    (List String → List String) → DequeueStrategy → String → List String → Option (List String)
unfolding index_of
reorder_queues shuffle default q queues = some queues
reorder_queues shuffle round_robin q queues = turn_at (index_of q queues) queues
reorder_queues shuffle random q queues = some (shuffle queues)
