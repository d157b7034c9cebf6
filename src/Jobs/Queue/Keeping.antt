-- ===== src/Jobs/Queue/Keeping.antt =====
-- Each operation on a job that exists keeps the invariant of the queue.
use mathlib.Core.Path.{subst}
use daily_scheduler.Base.{
  ℕ, String, ◌≡◌, sym, Bool, true, false, Option, none, some, arith, eq_refl, if◌then◌else◌,
  Bool-cases, inl, inr,
}
use daily_scheduler.Base.Int.{ℤ}
use daily_scheduler.Jobs.Model.{
  JobModel, queued, started, finished, failed, stopped, Registry, SchedulerConfiguration,
  registry_number,
}
use daily_scheduler.Jobs.Broker.{Broker}
use daily_scheduler.Jobs.Job.{started_job, ended_job, prepare_for_execution}
use daily_scheduler.Jobs.Job.Effects.{zscore-prepare_for_execution, hgetall-prepare_for_execution}
use daily_scheduler.Jobs.Queue.{
  cancel_found, cancel as cancel_live, Queue, UserCode, ok, is_canceled, enqueued_job, delete_job,
  job_handle_success, job_handle_failure, enqueue_job,
}
use daily_scheduler.Jobs.Queue.Removal.{zscore-delete_job, hgetall_of_delete_job}
use daily_scheduler.Jobs.Queue.Effects.{
  canceled_job, zscore-cancel, hgetall-cancel, zscore-job_handle_success,
  hgetall-job_handle_success, zscore-job_handle_failure, hgetall-job_handle_failure,
  zscore-enqueue_job, hgetall-enqueue_job,
}
use daily_scheduler.Jobs.Queue.Consistency.{IsConsistent, IsConsistent-write}

module _ (b : Broker) (u : UserCode b) (config : SchedulerConfiguration) (queue : Queue) where
  open b use {Conn, zscore, hgetall, zrem, zadd, hset}

  abbrev q : String
  q = queue.name

  pub start-IsConsistent :
      (worker : String) (now : ℕ) (n : String) (job : JobModel) (c : Conn)
      → IsConsistent b q c
      → hgetall n c ≡ some job
      → job.status ≡ queued
      → IsConsistent b q
          (prepare_for_execution b worker q Registry.active now job (zrem q Registry.queued n c)).1
  unfolding started_job
  start-IsConsistent worker now n job c h e st =
      let taken = zrem q Registry.queued n c in
      IsConsistent-write b q c _ (started_job worker now job) h
        (λ m. simp (hgetall-prepare_for_execution, b.hgetall-zrem))
        (λ m r ne. ground (
          arith,
          zscore-prepare_for_execution b worker q now job taken q r m,
          b.zscore-zrem q Registry.queued n q r m c,
          h.keyed n job e,
        ))
        (λ r s z. ground (
          arith,
          zscore-prepare_for_execution b worker q now job taken q r job.name,
          b.zscore-zrem q Registry.queued n q r job.name c,
          h.keyed n job e,
          h.placed n r job s e,
          eq_refl q,
          eq_refl job.name,
          eq_refl n,
        ))

  pub due-IsConsistent :
      (now ended : ℕ) (job : JobModel) (at_front : Bool) (c : Conn) (async : queue.is_async ≡ true)
      → IsConsistent b q c
      → ((r : Registry) (s : ℤ) → zscore q r job.name c ≡ some s → registry_number r ≡ 4)
      → IsConsistent b q (enqueue_job b u config queue now ended job at_front c).1
  unfolding enqueued_job
  due-IsConsistent now ended job at_front c async h only =
      IsConsistent-write b q c _ (enqueued_job now job) h
        (hgetall-enqueue_job b u config queue now ended job at_front c async)
        (λ m r ne.
          ground (arith, zscore-enqueue_job b u config queue now ended job at_front c async q r m))
        (λ r s z. ground (
          arith,
          zscore-enqueue_job b u config queue now ended job at_front c async q r job.name,
          only r s,
          eq_refl q,
          eq_refl job.name,
        ))

  pub succeed-IsConsistent :
      (now : ℕ) (stored job : JobModel) (result : String) (info_ttl ttl : ℤ) (c : Conn)
      → IsConsistent b q c
      → hgetall job.name c ≡ some stored
      → stored.status ≡ started
      → IsConsistent b q (job_handle_success b q now job result info_ttl ttl c).1
  unfolding ended_job
  succeed-IsConsistent now stored job result info_ttl ttl c h e st =
      IsConsistent-write b q c _ (ended_job finished now job) h
        (hgetall-job_handle_success b q now job result info_ttl ttl c)
        (λ m r ne.
          ground (arith, zscore-job_handle_success b q now job result info_ttl ttl c q r m))
        (λ r s z. ground (
          arith,
          zscore-job_handle_success b q now job result info_ttl ttl c q r job.name,
          h.placed job.name r stored s e,
          eq_refl q,
          eq_refl job.name,
        ))

  pub fail-IsConsistent :
      (now : ℕ) (stored job : JobModel) (killed : Bool) (error : String) (c : Conn)
      → IsConsistent b q c
      → hgetall job.name c ≡ some stored
      → stored.status ≡ started
      → IsConsistent b q
          (job_handle_failure b config q now (if killed then stopped else failed) job error c).1
  unfolding ended_job
  fail-IsConsistent now stored job killed error c h e st =
      let status = if killed then stopped else failed in
      IsConsistent-write b q c _ (ended_job status now job) h
        (hgetall-job_handle_failure b config q now status job error c)
        (λ m r ne.
          ground (arith, zscore-job_handle_failure b config q now status job error c q r m))
        (λ r s z. ground (
          arith,
          zscore-job_handle_failure b config q now status job error c q r job.name,
          h.placed job.name r stored s e,
          eq_refl q,
          eq_refl job.name,
        ))

  pub cancel-IsConsistent :
      (now : ℕ) (job : JobModel) (c : Conn)
      → IsConsistent b q c
      → hgetall job.name c ≡ some job
      → is_canceled job.status ≡ false
      → IsConsistent b q (cancel_live b config q now job c)
  cancel-IsConsistent now job c h e live =
      IsConsistent-write b q c _ (canceled_job b job) h (hgetall-cancel b config q now job c)
        (λ m r ne. ground (arith, zscore-cancel b config q now job c q r m))
        (λ r s z. ground (
          arith,
          zscore-cancel b config q now job c q r job.name,
          h.placed job.name r job s e,
          eq_refl q,
          eq_refl job.name,
        ))

  pub delete-IsConsistent :
      (n : String) (expires : Bool) (c : Conn)
      → IsConsistent b q c
      → IsConsistent b q (delete_job b q n expires c)
  delete-IsConsistent n expires c h = record {
    keyed = λ m j e. h.keyed m j (hgetall_of_delete_job b q n expires c m j e);
    placed = λ m r j s e z. ground (
      arith,
      zscore-delete_job b q n expires q r m c,
      h.placed m r j s (hgetall_of_delete_job b q n expires c m j e),
    );
  }

  pub cancel_found-IsConsistent :
      (now : ℕ) (n : String) (found : Option JobModel) (c c' : Conn)
      → IsConsistent b q c
      → hgetall n c ≡ found
      → cancel_found b config q now found c ≡ ok c'
      → IsConsistent b q c'
  unfolding cancel_found
  cancel_found-IsConsistent now n none c c' h e eq = cc
  cancel_found-IsConsistent now n (some job) c c' h e eq =
      elim (Bool-cases (is_canceled job.status)) [
        | inl dead ↦ absurd (ground arith)
        | inr live ↦
            let named : hgetall job.name c ≡ some job =
              subst (λ x. hgetall x c ≡ some job) (sym (h.keyed n job e)) e in
            let done : cancel_live b config q now job c ≡ c' = ground arith in
            subst (IsConsistent b q) done (cancel-IsConsistent now job c h named live)
      ]
