-- ===== src/Worker/Locks.antt =====
-- The locks on the queues: scheduler/redis_models/lock.py, and the locking of WorkerScheduler in
-- scheduler/worker/scheduler.py. The broker's keys are an interface; `lapse` is a key whose time to
-- live ends.
use daily_scheduler.Base.{
  ℕ, ◌+◌, ltb, ◌≡◌, refl, String, Bool, true, false, Option, none, some, List, [], ◌∷◌, str_eq,
  if◌then◌else◌,
}
use daily_scheduler.Worker.Naming.{has_name}

abbrev pub or_else : Option String → String → Option String
or_else none v = some v
or_else (some w) v = some w

-- GET, SET NX EX, DEL, and the end of a time to live, with their documented behaviour.
pub record Keys : Type 1 where
  pub Conn : Type 0
  pub get : String → Conn → Option String
  pub set_nx : String → String → ℕ → Conn → Bool × Conn
  pub del : String → Conn → Conn
  pub lapse : String → Conn → Conn
  pub set_nx-none : (k v : String) (t : ℕ) (c : Conn) → get k c ≡ none → (set_nx k v t c).0 ≡ true
  pub set_nx-some :
      (k v w : String) (t : ℕ) (c : Conn) → get k c ≡ some w → (set_nx k v t c).0 ≡ false
  pub get-set_nx :
      (k v k' : String) (t : ℕ) (c : Conn)
      → get k' (set_nx k v t c).1 ≡ (if str_eq k k' then or_else (get k c) v else get k' c)
  pub get-del :
      (k k' : String) (c : Conn) → get k' (del k c) ≡ (if str_eq k k' then none else get k' c)
  pub get-lapse :
      (k k' : String) (c : Conn) → get k' (lapse k c) ≡ (if str_eq k k' then none else get k' c)

-- One that keeps the values as a function.
abbrev pub key_table : Keys
key_table = record {
  Conn = String → Option String;
  get = λ k c. c k;
  set_nx = λ k v t c. (
    elim (c k) [ none ↦ true | some w ↦ false ],
    λ k'. if str_eq k k' then or_else (c k) v else c k',
  );
  del = λ k c k'. if str_eq k k' then none else c k';
  lapse = λ k c k'. if str_eq k k' then none else c k';
  set_nx-none = λ k v t c e. rw e refl;
  set_nx-some = λ k v w t c e. rw e refl;
  get-set_nx = λ k v k' t c. refl;
  get-del = λ k k' c. refl;
  get-lapse = λ k k' c. refl;
}

pub data SchedulerStatus : Type 0 where
  started working stopped : SchedulerStatus

-- The attributes of WorkerScheduler; `locks` are the names of the queues in `_locks`.
pub record WorkerScheduler : Type 0 where
  pub pid : String
  pub queues : List String
  pub locks : List String
  pub scheduled_job_registries : List String
  pub lock_acquisition_time : Option ℕ
  pub interval : ℕ
  pub status : SchedulerStatus

module _ (keys : Keys) (locking_key : String → String) where
  open keys use {Conn, get, set_nx, del}

  -- KvLock.acquire and release, for the lock of a queue's scheduler.
  unfoldable pub acquire : String → String → ℕ → Conn → Bool × Conn
  acquire queue val expire c = set_nx (locking_key queue) val expire c

  unfoldable pub release : String → Conn → Conn
  release queue c = del (locking_key queue) c

  -- The first loop of WorkerScheduler._acquire_locks: the names that were locked.
  unfoldable pub lock_queues : String → ℕ → List String → Conn → List String × Conn
  unfolding acquire
  lock_queues pid expire [] c = ([], c)
  lock_queues pid expire (q ∷ qs) c =
      let (ok, c') = acquire q pid expire c in
      let (more, c'') = lock_queues pid expire qs c' in (if ok then q ∷ more else more, c'')

  -- The names of a dictionary with more of them set.
  unfoldable pub add_names : List String → List String → List String
  add_names [] names = names
  add_names (n ∷ ns) names =
      let rest = add_names ns names in if has_name n names then rest else n ∷ rest

  -- WorkerScheduler._acquire_locks
  unfoldable pub acquire_locks : ℕ → WorkerScheduler → Conn → List String × WorkerScheduler × Conn
  unfolding lock_queues add_names
  acquire_locks now s c =
      let (successful, c') = lock_queues s.pid (s.interval + 60) s.queues c in
      let locks = add_names successful s.locks in
      (
        successful,
        record s {
          locks = locks;
          scheduled_job_registries = locks;
          lock_acquisition_time = some now;
        },
        c',
      )

  -- WorkerScheduler.release_locks
  unfoldable pub release_all : List String → Conn → Conn
  unfolding release
  release_all [] c = c
  release_all (q ∷ qs) c = release_all qs (release q c)

  -- WorkerScheduler.stop
  unfoldable pub stop : WorkerScheduler → Conn → WorkerScheduler × Conn
  unfolding release_all
  stop s c = (record s { status = stopped }, release_all s.locks c)

  -- WorkerScheduler._should_reacquire_locks
  unfoldable pub should_reacquire_locks : ℕ → ℕ → WorkerScheduler → Bool
  should_reacquire_locks fallback_period now s = elim s.lock_acquisition_time [
    | none ↦ true
    | some at ↦ ltb (at + fallback_period) now
  ]
