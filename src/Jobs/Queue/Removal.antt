-- ===== src/Jobs/Queue/Removal.antt =====
-- What taking a job out of its registries changes: Queue._remove_from_registries, delete_job.
use daily_scheduler.Base.{
  String, ◌≡◌, refl, Bool, not, ◌&&◌, Option, none, some, arith, str_eq, ◌==◌, if◌then◌else◌,
}
use daily_scheduler.Jobs.Model.{JobModel, Registry, registry_number}
use daily_scheduler.Jobs.Broker.{Broker}
use daily_scheduler.Jobs.Job.Effects.{zscore-expire, hgetall-expire}
use daily_scheduler.Jobs.Queue.{remove_from_registries, expire_found, delete_job}

module _ (b : Broker) where
  open b use {Conn, zscore, zrem, hgetall}

  -- One entry of the registries after the removal: gone, unless it is that of a failed job.
  pub zscore-remove_from_registries :
      (q n q' : String) (r : Registry) (n' : String) (c : Conn)
      → zscore q' r n' (remove_from_registries b q n c) ≡ (
          if str_eq q q' && (not (registry_number r == 2) && str_eq n n')
          then none
          else zscore q' r n' c)
  unfolding remove_from_registries
  zscore-remove_from_registries q n q' Registry.queued n' c = simp b.zscore-zrem (ground arith)
  zscore-remove_from_registries q n q' _ n' c = simp b.zscore-zrem (ground arith)

  pub zscore-expire_found :
      (q : String) (r : Registry) (n : String) (found : Option JobModel) (c : Conn)
      → zscore q r n (expire_found b found c) ≡ zscore q r n c
  unfolding expire_found
  zscore-expire_found q r n none c = refl
  zscore-expire_found q r n (some job) c = zscore-expire b q r n job job.job_info_ttl c

  pub hgetall-remove_from_registries :
      (q n m : String) (c : Conn) → hgetall m (remove_from_registries b q n c) ≡ hgetall m c
  unfolding remove_from_registries
  hgetall-remove_from_registries q n m c = simp b.hgetall-zrem

  -- Deleting a job takes its name out of all six registries of its queue, whether or not the job
  -- is expired, and leaves every other entry of every queue as it was.
  pub zscore-delete_job :
      (q n : String) (expire_job_model : Bool) (q' : String) (r : Registry) (n' : String) (c : Conn)
      → zscore q' r n' (delete_job b q n expire_job_model c)
        ≡ (if str_eq q q' && str_eq n n' then none else zscore q' r n' c)
  unfolding delete_job
  zscore-delete_job q n e q' r n' c =
      let left = zrem q Registry.failed n (remove_from_registries b q n c) in
      ground (
        arith,
        zscore-expire_found q' r n' (hgetall n c) left,
        b.zscore-zrem q Registry.failed n q' r n' (remove_from_registries b q n c),
        zscore-remove_from_registries q n q' r n' c,
      )

  hgetall_of_expire_found :
      (found : Option JobModel) (c : Conn) (m : String) (j : JobModel)
      → hgetall m (expire_found b found c) ≡ some j
      → hgetall m c ≡ some j
  unfolding expire_found
  hgetall_of_expire_found none c m j e = e
  hgetall_of_expire_found (some job) c m j e =
      ground (arith, hgetall-expire b m job job.job_info_ttl c)

  -- Every hash that is there after a deletion was there before it, as it is.
  pub hgetall_of_delete_job :
      (q n : String) (expire_job_model : Bool) (c : Conn) (m : String) (j : JobModel)
      → hgetall m (delete_job b q n expire_job_model c) ≡ some j
      → hgetall m c ≡ some j
  unfolding delete_job
  hgetall_of_delete_job q n e c m j h =
      let removed = remove_from_registries b q n c in
      let left = zrem q Registry.failed n removed in
      ground (
        arith,
        hgetall_of_expire_found (hgetall n c) left m j,
        b.hgetall-zrem q Registry.failed n m removed,
        hgetall-remove_from_registries q n m c,
      )
