-- ===== src/Jobs/Job/Effects.antt =====
-- What the methods of JobModel change in the broker: the entries of the registries and the hashes.
use daily_scheduler.Base.{
  ℕ, String, ◌≡◌, not, ◌&&◌, Option, none, some, arith, str_eq, if◌then◌else◌,
}
use daily_scheduler.Base.Int.{ℤ, pos, ◌+ℤ◌, eqb_ℤ}
use daily_scheduler.Jobs.Model.{JobModel, JobStatus, ResultType, Registry}
use daily_scheduler.Jobs.Broker.{Broker, job_key, same_entry}
use daily_scheduler.Jobs.Job.{
  expire, prepare_for_execution, started_job, after_execution, ended_job, save_result,
}

module _ (b : Broker) where
  open b use {Conn, zscore, hgetall, zadd, zrem, xadd}

  pub zscore-expire :
      (q : String) (r : Registry) (n : String) (job : JobModel) (ttl : ℤ) (c : Conn)
      → zscore q r n (expire b job ttl c) ≡ zscore q r n c
  unfolding expire
  zscore-expire q r n job ttl c = ground (
    arith,
    b.zscore-del_job q r n job.name c,
    b.zscore-set_ttl q r n (job_key job.name) (some ttl) c,
  )

  -- Expiring a job at once removes its hash; otherwise all hashes stay.
  pub hgetall-expire :
      (m : String) (job : JobModel) (ttl : ℤ) (c : Conn)
      → hgetall m (expire b job ttl c)
        ≡ (if eqb_ℤ ttl (pos 0) && str_eq job.name m then none else hgetall m c)
  unfolding expire
  hgetall-expire m job ttl c =
      ground
        (arith, b.hgetall-del_job job.name m c, b.hgetall-set_ttl m (job_key job.name) (some ttl) c)

  module _ (worker q : String) (now : ℕ) (job : JobModel) (c : Conn) where
    pub zscore-prepare_for_execution :
        (q' : String) (r : Registry) (m : String)
        → zscore q' r m (prepare_for_execution b worker q Registry.active now job c).1 ≡ (
            if same_entry q Registry.active job.name q' r m
            then some (pos now +ℤ job.timeout)
            else zscore q' r m c)
    unfolding prepare_for_execution
    zscore-prepare_for_execution q' r m = simp (b.zscore-hset, b.zscore-zadd)

    pub hgetall-prepare_for_execution :
        (m : String)
        → hgetall m (prepare_for_execution b worker q Registry.active now job c).1
          ≡ (if str_eq job.name m then some (started_job worker now job) else hgetall m c)
    unfolding prepare_for_execution
    hgetall-prepare_for_execution m = simp (b.hgetall-hset, b.hgetall-zadd)

  module _ (ttl : ℤ) (status : JobStatus) (q : String) (prev new : Registry) (now : ℕ)
      (job : JobModel) (c : Conn) where
    pub zscore-after_execution :
        (q' : String) (r : Registry) (m : String)
        → zscore q' r m (after_execution b ttl status q prev new now job c).1 ≡ (
            if not (eqb_ℤ ttl (pos 0)) && same_entry q new job.name q' r m
            then some (pos now +ℤ ttl)
            else if same_entry q prev job.name q' r m
            then none
            else zscore q' r m c)
    unfolding after_execution
    zscore-after_execution q' r m = rw b.zscore-hset (
        ground (
          arith,
          b.zscore-zadd q new job.name q' r m (pos now +ℤ ttl) (zrem q prev job.name c),
          b.zscore-zrem q prev job.name q' r m c,
        ))

    pub hgetall-after_execution :
        (m : String)
        → hgetall m (after_execution b ttl status q prev new now job c).1
          ≡ (if str_eq job.name m then some (ended_job status now job) else hgetall m c)
    unfolding after_execution
    hgetall-after_execution m = rw b.hgetall-hset (
        ground (
          arith,
          b.hgetall-zadd q new job.name m (pos now +ℤ ttl) (zrem q prev job.name c),
          b.hgetall-zrem q prev job.name m c,
        ))

  module _ (name : String) (worker : Option String) (type : ResultType) (ttl : ℤ)
      (return_value exc_string : Option String) (c : Conn) where
    pub zscore-save_result :
        (q : String) (r : Registry) (m : String)
        → zscore q r m (save_result b name worker type ttl return_value exc_string c)
          ≡ zscore q r m c
    unfolding save_result
    zscore-save_result q r m = grind (arith, b.zscore-set_ttl, b.zscore-xadd, b.zscore-del_results)

    pub hgetall-save_result :
        (m : String)
        → hgetall m (save_result b name worker type ttl return_value exc_string c) ≡ hgetall m c
    unfolding save_result
    hgetall-save_result m = grind (arith, b.hgetall-set_ttl, b.hgetall-xadd, b.hgetall-del_results)
