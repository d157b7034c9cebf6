-- ===== src/Stored/WorkerExamples.antt =====
-- The theorems on the sets of workers at concrete inputs, with sets that are held as lists.
use daily_scheduler.Base.{
  ◌≡◌, refl, String, Bool, true, false, not, ◌&&◌, Option, none, some, List, [], ◌∷◌, select, arith,
  str_eq, eq_iff, if◌then◌else◌, Memᴰ,
}
use daily_scheduler.Stored.Hashes.{Hashes}
use daily_scheduler.Stored.Model.{Class}
use daily_scheduler.Stored.Values.{text_type}
use daily_scheduler.Stored.Workers.{is_listed, Listing, cleanup_workers, save_worker, delete_worker}
use daily_scheduler.Stored.Workers.Members.{is_member-cleanup_workers}
use daily_scheduler.Stored.Workers.Leaving.{is_member-delete_worker}
use daily_scheduler.Stored.Examples.{stroke_formats, new_worker}

is_listed-srem :
    (n m : String) (xs : List String)
    → is_listed m (select (λ x. not (str_eq n x)) xs)
      ≡ (if str_eq n m then false else is_listed m xs)
is_listed-srem n m [] = ground arith
is_listed-srem n m (x ∷ xs) =
    ground (arith, eq_iff n x, eq_iff x m, eq_iff n m, is_listed-srem n m xs)

is_listed-sadd_set :
    (s n s' n' : String) (xs : List String)
    → is_listed n' (if str_eq s s' then n ∷ xs else xs)
      ≡ (if str_eq s s' && str_eq n n' then true else is_listed n' xs)
is_listed-sadd_set s n s' n' xs = ground arith

is_listed-srem_set :
    (s n s' n' : String) (xs : List String)
    → is_listed n' (if str_eq s s' then select (λ x. not (str_eq n x)) xs else xs)
      ≡ (if str_eq s s' && str_eq n n' then false else is_listed n' xs)
is_listed-srem_set s n s' n' xs = ground (arith, is_listed-srem n n' xs)

abbrev listed_table : Hashes
listed_table = record {
  Conn = (String → String → Option String) × (String → List String);
  hget = λ k x (h, s). h k x;
  is_member = λ k n (h, s). is_listed n (s k);
  put = λ k x v (h, s). ((λ k' x'. if str_eq k k' && str_eq x x' then v else h k' x'), s);
  del = λ k (h, s). ((λ k' x'. if str_eq k k' then none else h k' x'), s);
  sadd = λ k n (h, s). (h, λ k'. if str_eq k k' then n ∷ s k' else s k');
  srem =
      λ k n (h, s). (h, λ k'. if str_eq k k' then select (λ x. not (str_eq n x)) (s k') else s k');
  hget-put = λ k x v k' x' c. refl;
  hget-del = λ k k' x' c. refl;
  hget-sadd = λ s n k x c. refl;
  hget-srem = λ s n k x c. refl;
  is_member-put = λ s n k x v c. refl;
  is_member-del = λ k s n c ne. refl;
  is_member-sadd = λ s n s' n' c. is_listed-sadd_set s n s' n' (c.1 s');
  is_member-srem = λ s n s' n' c. is_listed-srem_set s n s' n' (c.1 s');
}

abbrev is_there : Option String → Bool
is_there none = false
is_there (some pid) = true

abbrev list_members : Listing listed_table
list_members = record {
  smembers = λ s c. c.1 s;
  exists_key = λ k c. is_there (listed_table.hget k "pid" c);
  smembers_lem = λ s n c. refl;
}

abbrev worker_class : Class
worker_class = record {
  fields = "pid" ∷ [];
  field_type = λ x. text_type;
  key_for = λ n. if str_eq n "w.1" then ":workers:w.1" else ":workers:w.2";
  list_key = ":workers:ALL:";
  children_key_for = λ p. ":queue-workers:default:";
}

-- Of two workers the first one has a hash.
abbrev two_named : listed_table.Conn
two_named = ((λ k x. if str_eq k ":workers:w.1" then some "7" else none), (λ k. "w.1" ∷ "w.2" ∷ []))

is_member-cleanup_workers_example :
    listed_table.is_member ":workers:ALL:" "w.2"
      (cleanup_workers listed_table worker_class list_members (some "default") two_named)
    ≡ false
is_member-cleanup_workers_example =
    is_member-cleanup_workers listed_table worker_class list_members (some "default")
      ":workers:ALL:" "w.2" two_named

is_member-delete_worker_example :
    let saved =
      (save_worker listed_table worker_class stroke_formats true
        ("default" ∷ [])
        new_worker
        two_named).1 in
    let deleted = delete_worker listed_table worker_class "12" ("default" ∷ []) new_worker saved in
    (listed_table.is_member ":workers:ALL:" "w.1" saved ≡ true)
    × (listed_table.is_member ":queue-workers:default:" "w.1" saved ≡ true)
    × (listed_table.is_member ":workers:ALL:" "w.1" deleted ≡ false)
    × (listed_table.is_member ":queue-workers:default:" "w.1" deleted ≡ false)
is_member-delete_worker_example =
    is_member-delete_worker listed_table worker_class stroke_formats true "12" "default"
      ("default" ∷ []) new_worker two_named
      (save_worker listed_table worker_class stroke_formats true ("default" ∷ []) new_worker
        two_named).1
      (Memᴰ.head refl)
