-- ===== src/Jobs/Registries.antt =====
-- The registries of scheduler/redis_models/registry, and Queue.dequeue_any of
-- scheduler/helpers/queues/queue_logic.py, which takes a job off the first queue that has one.
pub mod Compact
pub mod Pop
pub mod Dequeue
pub mod Empty
use daily_scheduler.Base.{
  ℕ, zero, suc, ◌+◌, ◌-◌, ◌*◌, ◌/◌, String, Bool, true, false, not, Option, none, some, List, [],
  ◌∷◌, take, drop, length, head?, map, if◌then◌else◌,
}
use daily_scheduler.Base.Int.{ℤ, pos}
use daily_scheduler.Jobs.Model.{JobModel, Registry}
use daily_scheduler.Jobs.Broker.{Broker}

-- What taking a job off the queues gives: a job and its queue's name, nothing, DequeueTimeout, or
-- the ValueError of a timeout of 0. `out_of_rounds` says that the model's rounds ran out.
pub data Dequeued : Type 0 where
  dequeued : JobModel → String → Dequeued
  nothing timed_out value_error out_of_rounds : Dequeued

module _ (b : Broker) where
  open b use {Conn, zscore, hgetall, entries, zrem, zremrangebyscore, del_job}

  -- JobModel.exists, where every hash under a job's name can be read back.
  abbrev pub exists_job : String → Conn → Bool
  exists_job n c = elim (hgetall n c) [ none ↦ false | some job ↦ true ]

  -- ZSetModel.cleanup, and its empty overrides in three of the registries.
  unfoldable pub cleanup : String → Registry → Option ℕ → ℕ → Conn → Conn
  cleanup q Registry.queued timestamp now c = c
  cleanup q Registry.canceled timestamp now c = c
  cleanup q Registry.scheduled timestamp now c = c
  cleanup q r none now c = zremrangebyscore q r (pos 0) (pos now) c
  cleanup q r (some zero) now c = zremrangebyscore q r (pos 0) (pos now) c
  cleanup q r (some timestamp) now c = zremrangebyscore q r (pos 0) (pos timestamp) c

  -- The loop of QueuedJobRegistry.compact over the names that it has read.
  unfoldable pub drop_dead : String → List (String × ℤ) → Conn → Conn
  drop_dead q [] c = c
  drop_dead q ((n, s) ∷ rest) c =
      drop_dead q rest (if exists_job n c then c else zrem q Registry.queued n c)

  unfoldable pub compact : String → Conn → Conn
  compact q c = drop_dead q (entries q Registry.queued c) c

  -- The names between two positions of the registry, both included.
  abbrev pub all_between : ℕ → ℕ → List (String × ℤ) → List String
  all_between start stop xs = map (λ x. x.0) (take (stop + 1 - start) (drop start xs))

  unfoldable pub delete_all : String → List String → Conn → Conn
  delete_all q [] c = c
  delete_all q (n ∷ rest) c = delete_all q rest (del_job n (zrem q Registry.queued n c))

  -- The rounds of QueuedJobRegistry.empty, which read the names before any is deleted.
  unfoldable pub empty_rounds : String → List (String × ℤ) → ℕ → ℕ → Conn → Conn
  empty_rounds q xs zero offset c = c
  empty_rounds q xs (suc left) offset c =
      empty_rounds q xs left (offset + 1000) (delete_all q (all_between offset 1000 xs) c)

  unfoldable pub empty : String → Conn → Conn
  empty q c =
      let xs = entries q Registry.queued c in empty_rounds q xs ((length xs + 999) / 1000) 0 c

  -- The pop of the lowest score from the first registry that is not empty: ZPOPMIN over the
  -- registries, or BZMPOP where it need not wait.
  unfoldable pub pop : List String → Conn → Option (String × String) × Conn
  pop [] c = (none, c)
  pop (q ∷ qs) c = elim (head? (entries q Registry.queued c)) [
    | none ↦ pop qs c
    | some (n, s) ↦ (some (q, n), zrem q Registry.queued n c)
  ]

  unfoldable pub compact_all : List String → Conn → Conn
  compact_all [] c = c
  compact_all (q ∷ qs) c = compact_all qs (compact q c)

  -- What JobNamesRegistry.pop returns or raises when no job waits.
  abbrev pub no_job : Option ℕ → Dequeued
  no_job none = nothing
  no_job (some timeout) = timed_out

  abbrev pub is_zero : Option ℕ → Bool
  is_zero (some zero) = true
  is_zero _ = false

  -- The end of one round: the job whose hash is found, or one more round.
  unfoldable pub take_job : Option JobModel → String → Conn → Dequeued × Conn → Dequeued × Conn
  take_job none q c again = again
  take_job (some job) q c again = (dequeued job q, c)

  unfoldable pub take_popped :
      Option (String × String) → Option ℕ → Conn → Dequeued × Conn → Dequeued × Conn
  take_popped none timeout c again = (no_job timeout, c)
  take_popped (some (q, n)) timeout c again = take_job (hgetall n c) q c again

  -- Queue.dequeue_any, for as many rounds as are given.
  unfoldable pub dequeue_any : ℕ → List String → Option ℕ → Conn → Dequeued × Conn
  dequeue_any zero queues timeout c = (out_of_rounds, c)
  dequeue_any (suc rounds) queues timeout c =
      let c' = compact_all queues c in
      let (popped, c'') = pop queues c' in
      let again = dequeue_any rounds queues timeout c'' in
      if is_zero timeout then (value_error, c') else take_popped popped timeout c'' again
