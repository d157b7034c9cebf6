-- ===== src/Stored/Workers.antt =====
-- WorkerModel.save, delete and cleanup, and _split_list, of scheduler/redis_models/worker.py: the sets
-- that name the workers, all of them and those of each queue. The times to live are left out, and of the
-- death only that the names go.
pub mod Members
pub mod Leaving
use daily_scheduler.Base.{
  ℕ, zero, suc, String, Bool, true, false, not, ◌&&◌, ◌||◌, Option, none, some, List, [], ◌∷◌, ◌++◌,
  take, drop, length, select, str_eq, if◌then◌else◌, ◌≡◌,
}
use daily_scheduler.Stored.Values.{Formats}
use daily_scheduler.Stored.Hashes.{Hashes}
use daily_scheduler.Stored.Model.{Class, Instance}
use daily_scheduler.Stored.Model

-- The names that a list holds.
abbrev pub is_listed : String → List String → Bool
is_listed n [] = false
is_listed n (x ∷ xs) = str_eq x n || is_listed n xs

-- SMEMBERS and EXISTS of the broker: the first lists the members of a set.
pub record Listing (h : Hashes) : Type 0 where
  pub smembers : String → h.Conn → List String
  pub exists_key : String → h.Conn → Bool
  pub smembers_lem : (s n : String) (c : h.Conn) → is_listed n (smembers s c) ≡ h.is_member s n c

-- _split_list, with as many rounds as the list is long.
split_from : ℕ → ℕ → List String → List (List String)
split_from zero segment_size xs = []
split_from (suc rounds) segment_size [] = []
split_from (suc rounds) segment_size (x ∷ xs) =
    take segment_size (x ∷ xs) ∷ split_from rounds segment_size (drop segment_size (x ∷ xs))

unfoldable pub split_list : List String → ℕ → List (List String)
unfolding split_from
split_list a_list segment_size = split_from (length a_list) segment_size a_list

abbrev pub max_keys : ℕ
max_keys = 1000

module _ (h : Hashes) (class_ : Class) where
  open h use {Conn, put, sadd, srem}
  open class_ use {key_for, list_key, children_key_for}

  -- One SADD or SREM for each queue.
  unfoldable pub join_queues : List String → String → Conn → Conn
  join_queues [] name c = c
  join_queues (q ∷ qs) name c = join_queues qs name (sadd (children_key_for q) name c)

  unfoldable pub leave_queues : List String → String → Conn → Conn
  leave_queues [] name c = c
  leave_queues (q ∷ qs) name c = leave_queues qs name (srem (children_key_for q) name c)

  -- WorkerModel.save
  unfoldable pub save_worker : Formats → Bool → List String → Instance → Conn → Instance × Conn
  unfolding join_queues
  save_worker f all queue_names m c =
      let (m', c') = Model.save h f class_ all m c in (m', join_queues queue_names m.name c')

  -- WorkerModel.delete; `now` is the text of the time.
  unfoldable pub delete_worker : String → List String → Instance → Conn → Conn
  unfolding leave_queues
  delete_worker now queue_names m c =
      leave_queues queue_names m.name
        (srem list_key m.name (put (key_for m.name) "death" (some now) c))

  -- SREM of several names.
  unfoldable pub srem_all : String → List String → Conn → Conn
  srem_all s [] c = c
  srem_all s (n ∷ ns) c = srem_all s ns (srem s n c)

  unfoldable pub remove_subset : Option String → List String → Conn → Conn
  unfolding srem_all
  remove_subset none ns c = srem_all list_key ns c
  remove_subset (some q) ns c = srem_all (children_key_for q) ns (srem_all list_key ns c)

  unfoldable pub remove_subsets : Option String → List (List String) → Conn → Conn
  unfolding remove_subset
  remove_subsets queue_name [] c = c
  remove_subsets queue_name (ns ∷ rest) c =
      remove_subsets queue_name rest (remove_subset queue_name ns c)

  -- HashModel.all_names
  unfoldable pub all_names : Listing h → Option String → Conn → List String
  all_names l none c = l.smembers list_key c
  all_names l (some q) c = l.smembers (children_key_for q) c

  unfoldable pub remove_invalid : Option String → List String → Conn → Conn
  unfolding remove_subsets split_list
  remove_invalid queue_name [] c = c
  remove_invalid queue_name (n ∷ ns) c = remove_subsets queue_name (split_list (n ∷ ns) max_keys) c

  -- WorkerModel.cleanup
  unfoldable pub cleanup_workers : Listing h → Option String → Conn → Conn
  unfolding remove_invalid all_names
  cleanup_workers l queue_name c =
      remove_invalid queue_name
        (select (λ n. not (l.exists_key (key_for n) c)) (all_names l queue_name c)) c
