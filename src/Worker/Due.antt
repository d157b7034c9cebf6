-- ===== src/Worker/Due.antt =====
-- The scheduled jobs whose time has come are put on their queue: enqueue_scheduled_jobs of
-- scheduler/worker/scheduler.py.
use mathlib.Core.Path.{subst}
use daily_scheduler.Base.{
  ℕ, zero, suc, ◌≤◌, ◌≡◌, refl, ap, ◌∙◌, String, Bool, true, false, ◌||◌, Option, none, some, List,
  [], ◌∷◌, Memᴰ, take, length, map, select, str_eq, eq_refl, arith, if◌then◌else◌, Bool-cases, inl,
  inr,
}
use daily_scheduler.Base.Int.{ℤ}
use daily_scheduler.Jobs.Model.{JobModel, Registry, SchedulerConfiguration}
use daily_scheduler.Jobs.Broker.{Broker}
use daily_scheduler.Jobs.Queue.{Queue, UserCode, enqueue_job}
use daily_scheduler.Jobs.Queue.Effects.{queue_score, zscore-enqueue_job}
use daily_scheduler.Worker.Scheduler.{
  is_due, get_jobs_to_schedule, get_many, enqueue_found, enqueue_due,
}

module _ (b : Broker) where
  open b use {Conn, zscore, hgetall, entries}

  -- Whether a job of the list has the name.
  abbrev job_named : String → List (Option JobModel) → Bool
  job_named n [] = false
  job_named n (none ∷ jobs) = job_named n jobs
  job_named n (some job ∷ jobs) = str_eq job.name n || job_named n jobs

  abbrev pub is_in : Option ℤ → Bool
  is_in none = false
  is_in (some s) = true

  is_in_if : (k : Bool) (s : ℤ) (o : Option ℤ) → is_in (if k then some s else o) ≡ (k || is_in o)
  is_in_if true s o = refl
  is_in_if false s o = refl

  module _ (u : UserCode b) (config : SchedulerConfiguration) (now : ℕ) (queue : Queue)
      (async : queue.is_async ≡ true) where
    abbrev pub q : String
    q = queue.name

    zscore-enqueue_found :
        (jobs : List (Option JobModel)) (m : String) (c : Conn)
        → zscore q Registry.scheduled m (enqueue_found b u config now queue jobs c)
          ≡ (if job_named m jobs then none else zscore q Registry.scheduled m c)
    unfolding enqueue_found
    zscore-enqueue_found [] m c = refl
    zscore-enqueue_found (none ∷ jobs) m c = zscore-enqueue_found jobs m c
    zscore-enqueue_found (some job ∷ jobs) m c =
        let c' = (enqueue_job b u config queue now now job job.at_front c).1 in
        ground (
          arith,
          zscore-enqueue_found jobs m c',
          zscore-enqueue_job b u config queue now now job job.at_front c async q Registry.scheduled
              m,
          eq_refl q,
        )

    queued-enqueue_found :
        (jobs : List (Option JobModel)) (m : String) (c : Conn)
        → is_in (zscore q Registry.queued m (enqueue_found b u config now queue jobs c))
          ≡ (job_named m jobs || is_in (zscore q Registry.queued m c))
    unfolding enqueue_found
    queued-enqueue_found [] m c = refl
    queued-enqueue_found (none ∷ jobs) m c = queued-enqueue_found jobs m c
    queued-enqueue_found (some job ∷ jobs) m c =
        let c' = (enqueue_job b u config queue now now job job.at_front c).1 in
        let at_ = ap is_in (
          zscore-enqueue_job b u config queue now now job job.at_front c async q Registry.queued
            m) in
        ground (
          arith,
          queued-enqueue_found jobs m c',
          at_,
          is_in_if (str_eq job.name m) (queue_score b q now job.at_front c)
              (zscore q Registry.queued m c),
          eq_refl q,
        )

    take_all : {A : Type 0} (k : ℕ) (xs : List A) → length xs ≤ k → take k xs ≡ xs
    take_all zero [] le = refl
    take_all zero (x ∷ xs) le = absurd (omega arith)
    take_all (suc k) [] le = refl
    take_all (suc k) (x ∷ xs) le = ap (λ r. x ∷ r) (take_all k xs (omega arith))

    select-true :
        {A : Type 0} (p : A → Bool) (x : A) (xs : List A)
        → p x ≡ true
        → select p (x ∷ xs) ≡ x ∷ select p xs
    select-true p x xs e = rw e refl

    select-false :
        {A : Type 0} (p : A → Bool) (x : A) (xs : List A)
        → p x ≡ false
        → select p (x ∷ xs) ≡ select p xs
    select-false p x xs e = rw e refl

    job_named-more :
        (n : String) (o : Option JobModel) (jobs : List (Option JobModel))
        → job_named n jobs ≡ true
        → job_named n (o ∷ jobs) ≡ true
    job_named-more n none jobs h = h
    job_named-more n (some job) jobs h = ground (arith, h)

    job_named-first :
        (n : String) (o : Option JobModel) (job : JobModel) (jobs : List (Option JobModel))
        → o ≡ some job
        → str_eq job.name n ≡ true
        → job_named n (o ∷ jobs) ≡ true
    job_named-first n o job jobs e named =
        ap (λ x. job_named n (x ∷ jobs)) e ∙ ground (arith, named)

    abbrev read : List (String × ℤ) → Conn → List (Option JobModel)
    read xs c = get_many b (map (λ x. x.0) xs) c

    -- A name that is due and stored is among the jobs that are read.
    job_named-read :
        (xs : List (String × ℤ)) (n : String) (s : ℤ) (job : JobModel) (c : Conn)
        → Memᴰ (n, s) xs
        → is_due b now (n, s) ≡ true
        → hgetall n c ≡ some job
        → str_eq job.name n ≡ true
        → job_named n (read (select (is_due b now) xs) c) ≡ true
    unfolding get_many
    job_named-read [] n s job c m due there named = elim m [ ]
    job_named-read (x ∷ xs) n s job c (Memᴰ.head p) due there named =
        subst (λ (y : String × ℤ). job_named n (read (select (is_due b now) (y ∷ xs)) c) ≡ true) p
          (ap (λ l. job_named n (read l c)) (select-true (is_due b now) (n, s) xs due)
            ∙ job_named-first n (hgetall n c) job (read (select (is_due b now) xs) c) there named)
    job_named-read (x ∷ xs) n s job c (Memᴰ.tail m) due there named =
        let rest = job_named-read xs n s job c m due there named in
        elim (Bool-cases (is_due b now x)) [
          | inl also ↦
              ap (λ l. job_named n (read l c)) (select-true (is_due b now) x xs also)
              ∙ job_named-more n (hgetall x.0 c) (read (select (is_due b now) xs) c) rest
          | inr later ↦
              ap (λ l. job_named n (read l c)) (select-false (is_due b now) x xs later) ∙ rest
        ]

    -- Every job of the queue whose time has come, and whose hash is there under its name, is moved
    -- from the scheduled jobs to those that wait, if no more than a thousand are due.
    pub enqueue_due-zscore :
        (c : Conn) (n : String) (s : ℤ) (job : JobModel)
        → zscore q Registry.scheduled n c ≡ some s
        → is_due b now (n, s) ≡ true
        → hgetall n c ≡ some job
        → str_eq job.name n ≡ true
        → length (select (is_due b now) (entries q Registry.scheduled c)) ≤ 1000
        → (zscore q Registry.scheduled n (enqueue_due b u config now queue c) ≡ none)
          × (is_in (zscore q Registry.queued n (enqueue_due b u config now queue c)) ≡ true)
    unfolding enqueue_due get_jobs_to_schedule
    enqueue_due-zscore c n s job timed due there named few =
        let xs = select (is_due b now) (entries q Registry.scheduled c) in
        let listed : job_named n (read (take 1000 xs) c) ≡ true =
          ap (λ l. job_named n (read l c)) (take_all 1000 xs few)
          ∙ job_named-read (entries q Registry.scheduled c) n s job c
              ((b.entries_iff q Registry.scheduled n s c).1 timed) due there named in
        (
          zscore-enqueue_found (read (take 1000 xs) c) n c ∙ rw listed refl,
          queued-enqueue_found (read (take 1000 xs) c) n c ∙ rw listed refl,
        )
