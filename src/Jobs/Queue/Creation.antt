-- ===== src/Jobs/Queue/Creation.antt =====
-- Creating and enqueueing a job keeps the invariant of the queue.
use mathlib.Core.Path.{subst}
use daily_scheduler.Base.{
  ℕ, String, ◌≡◌, refl, ap, Bool, true, false, Option, none, some, arith, eq_refl, ◌∙◌, Bool-cases,
  inl, inr,
}
use daily_scheduler.Base.Int.{ℤ, pos}
use daily_scheduler.Jobs.Model.{
  JobModel, JobStatus, scheduled, queued, Registry, SchedulerConfiguration,
}
use daily_scheduler.Jobs.Broker.{Broker}
use daily_scheduler.Jobs.Job.{JobRequest, new_job, if_none}
use daily_scheduler.Jobs.Queue.{
  Queue, UserCode, ok, enqueued_job, enqueue_job, name_taken, create, enqueue_created,
  create_and_enqueue_job,
}
use daily_scheduler.Jobs.Queue.Consistency.{IsConsistent, IsConsistent-write}
use daily_scheduler.Jobs.Queue.Keeping.{due-IsConsistent}

module _ (b : Broker) (u : UserCode b) (config : SchedulerConfiguration) (queue : Queue) where
  open b use {Conn, zscore, hgetall, zrem, zadd, hset}

  abbrev q : String
  q = queue.name

  saved-IsConsistent :
      (job : JobModel) (c : Conn)
      → IsConsistent b q c
      → ((r : Registry) → zscore q r job.name c ≡ none)
      → IsConsistent b q (hset job c)
  saved-IsConsistent job c h fresh =
      IsConsistent-write b q c _ job h (λ m. b.hgetall-hset m job c)
        (λ m r ne. b.zscore-hset q r m job c)
        (λ r s z. ground (arith, b.zscore-hset q r job.name job c, fresh r))

  scheduled-IsConsistent :
      (job : JobModel) (s : ℤ) (c : Conn)
      → IsConsistent b q c
      → job.status ≡ scheduled
      → ((r : Registry) → zscore q r job.name c ≡ none)
      → IsConsistent b q (zadd q Registry.scheduled job.name s (hset job c))
  scheduled-IsConsistent job s c h st fresh =
      IsConsistent-write b q c _ job h (λ m. simp (b.hgetall-zadd, b.hgetall-hset))
        (λ m r ne. simp (b.zscore-zadd, b.zscore-hset) (ground arith))
        (λ r t z. ground (
          arith,
          b.zscore-zadd q Registry.scheduled job.name q r job.name s (hset job c),
          b.zscore-hset q r job.name job c,
          fresh r,
          eq_refl q,
          eq_refl job.name,
        ))

  abbrev made_job : ℕ → String → JobStatus → JobRequest → JobModel
  made_job now made_up status request =
      new_job config q status now (if_none request.name made_up)
        (record request { at_front = false })

  enqueue_job-name :
      (now ended : ℕ) (job : JobModel) (at_front : Bool) (c : Conn)
      → queue.is_async ≡ true
      → job.name ≡ (enqueue_job b u config queue now ended job at_front c).0.name
  unfolding enqueue_job enqueued_job
  enqueue_job-name now ended job at_front c async = rw async

  pub create-IsConsistent :
      (now ended : ℕ) (made_up : String) (when : Option ℕ) (request : JobRequest) (job : JobModel)
      (c c' : Conn)
      → IsConsistent b q c
      → queue.is_async ≡ true
      → create_and_enqueue_job b u config queue now ended made_up when request c ≡ ok (job, c')
      → ((r : Registry) → zscore q r job.name c ≡ none)
      → IsConsistent b q c'
  unfolding create_and_enqueue_job enqueue_created create new_job
  create-IsConsistent now ended made_up none request job c c' h async e fresh =
      let job0 = made_job now made_up queued request in
      let saved = hset job0 c in
      elim (Bool-cases (name_taken b request.name c)) [
        | inl taken ↦ absurd (ground arith)
        | inr free ↦
            let eq : enqueue_job b u config queue now ended job0 request.at_front saved
                ≡ (job, c') =
              ground arith in
            let named : job0.name ≡ job.name =
              enqueue_job-name now ended job0 request.at_front saved async
              ∙ ap (λ p. p.0.name) eq in
            let fresh0 : (r : Registry) → zscore q r job0.name c ≡ none = rw named fresh in
            subst (IsConsistent b q) (ap (λ p. p.1) eq) (
              due-IsConsistent b u config queue now ended job0 request.at_front saved async
                (saved-IsConsistent job0 c h fresh0)
                (λ r s z. ground (arith, b.zscore-hset q r job0.name job0 c, fresh0 r)))
      ]
  create-IsConsistent now ended made_up (some moment) request job c c' h async e fresh =
      let job0 = made_job now made_up scheduled request in
      elim (Bool-cases (name_taken b request.name c)) [
        | inl taken ↦ absurd (ground arith)
        | inr free ↦
            let saved = hset job0 c in
            let put = zadd q Registry.scheduled job0.name (pos moment) (hset job0 saved) in
            let named : job0.name ≡ job.name = ground arith in
            let same : put ≡ c' = ground arith in
            let fresh0 : (r : Registry) → zscore q r job0.name c ≡ none = rw named fresh in
            subst (IsConsistent b q) same (
              scheduled-IsConsistent job0 (pos moment) saved (saved-IsConsistent job0 c h fresh0)
                refl (λ r. b.zscore-hset q r job0.name job0 c ∙ fresh0 r))
      ]
