-- ===== src/Jobs/Queue/Order.antt =====
-- The order in which the jobs of a queue are taken: by score, the lowest first.
use daily_scheduler.Base.{
  ℕ, String, ◌≡◌, refl, Bool, true, false, some, arith, ◌∙◌, eq_refl, Option-cases, inl, inr,
}
use daily_scheduler.Base.Int.{ℤ, pos, ◌≤ℤ◌}
use daily_scheduler.Jobs.Model.{JobModel, Registry, SchedulerConfiguration}
use daily_scheduler.Jobs.Broker.{Broker}
use daily_scheduler.Jobs.Job.{or_default}
use daily_scheduler.Jobs.Queue.Effects.{queue_score, zscore-enqueue_job}
use daily_scheduler.Jobs.Queue.{Queue, UserCode, enqueue_job}

module _ (b : Broker) where
  open b use {Conn, zscore, last_score}

  queue_score_last :
      (q : String) (now : ℕ) (at_front : Bool) (c : Conn) (n : String) (s : ℤ)
      → zscore q Registry.queued n c ≡ some s
      → (at_front ≡ true → s ≤ℤ pos now)
      → s ≤ℤ queue_score b q now at_front c
  unfolding or_default
  queue_score_last q now true c n s z h = h refl
  queue_score_last q now false c n s z h = elim (Option-cases (last_score q Registry.queued c)) [
    | inl empty ↦ absurd (ground (arith, b.last_score_none q Registry.queued n c))
    | inr (t, e) ↦ rw e (ground (arith, b.last_score_max q Registry.queued n s t c))
  ]

  -- An asynchronous queue gives a job that it enqueues a score not below that of any job that waits
  -- already: of every such job where `at_front` is not set, and where it is set, of those whose
  -- score is not in the future. Since the lowest score is taken first, `at_front` puts a job behind.
  pub enqueue_job_last :
      (u : UserCode b) (config : SchedulerConfiguration) (queue : Queue) (now ended : ℕ)
      (job : JobModel) (at_front : Bool) (c : Conn) (n : String) (s : ℤ)
      → queue.is_async ≡ true
      → zscore queue.name Registry.queued n c ≡ some s
      → (at_front ≡ true → s ≤ℤ pos now)
      → (t : ℤ) × (zscore queue.name Registry.queued job.name
            (enqueue_job b u config queue now ended job at_front c).1
          ≡ some t)
        × (s ≤ℤ t)
  enqueue_job_last u config queue now ended job at_front c n s async z h = (
    queue_score b queue.name now at_front c,
    zscore-enqueue_job b u config queue now ended job at_front c async queue.name Registry.queued
          job.name
        ∙ simp eq_refl,
    queue_score_last queue.name now at_front c n s z h,
  )
