-- ===== src/Worker/Loop/Burst.antt =====
-- A worker in burst mode ends at the first turn that performs no job.
use mathlib.Core.Path.{subst}
use daily_scheduler.Base.{
  ℕ, suc, ◌≤◌, ◌≡◌, refl, sym, ap, String, Bool, true, false, Option, none, some, List, [], ◌∷◌,
  arith, length, if◌then◌else◌,
}
use daily_scheduler.Jobs.Model.{SchedulerConfiguration}
use daily_scheduler.Jobs.Broker.{Broker}
use daily_scheduler.Jobs.Queue.{UserCode}
use daily_scheduler.Worker.Perform.{WorkerModel}
use daily_scheduler.Worker.Waiting.{
  refresh, Checked, raises_stop_requested, passed, still_suspended, check_for_suspension, Settings,
  maintain, WorkerState, WaitEnd, got, no_job, raised_value_error, still_waiting,
  dequeue_job_and_maintain_ttl,
}
use daily_scheduler.Worker.Loop.{
  WorkEnd, out_of_jobs, idle_too_long, jobs_done, on_request, exception, still_running, Turn,
  Turned, ends, performed_and, goes_on, perform, after_job, after_wait, timeout, wait_turn,
  checked_turn, refreshed_turn, turn, behind, work,
}
use daily_scheduler.Worker.Loop.Answers.{
  IsNotSuspended, check_for_suspension-IsNotSuspended, has_read, IsAnswered,
  wait_for_job-IsAnswered, end_wait-IsAnswered,
}

module _ (b : Broker) where
  -- A turn of a worker in burst mode.
  abbrev IsBurstTurn : Turned b → Type 0
  IsBurstTurn (ends still_running s) = ⊥
  IsBurstTurn (ends idle_too_long s) = ⊥
  IsBurstTurn (ends out_of_jobs s) = Unit {0}
  IsBurstTurn (ends jobs_done s) = Unit {0}
  IsBurstTurn (ends on_request s) = Unit {0}
  IsBurstTurn (ends exception s) = Unit {0}
  IsBurstTurn (performed_and enough job_name s) = Unit {0}
  IsBurstTurn (goes_on s) = ⊥

  IsBurstTurn-if :
      (k : Bool) (x y : Turned b) → k ≡ true → IsBurstTurn x → IsBurstTurn (if k then x else y)
  IsBurstTurn-if true x y e h = h
  IsBurstTurn-if false x y e h = absurd cc

  -- Every turn has a round that reads the queues.
  abbrev pub AllRead : List (Turn b) → Type 0
  AllRead [] = Unit
  AllRead (t ∷ ts) = (has_read b t.attempts ≡ true) × AllRead ts

  -- The end of a loop of so many turns: still running, one job for each turn, and otherwise at most
  -- one for each; a worker that is idle for too long does not come about.
  abbrev pub IsBurstEnd : ℕ → WorkEnd × WorkerState b × List String → Type 0
  IsBurstEnd turns (still_running, s, names) = length names ≡ turns
  IsBurstEnd turns (idle_too_long, s, names) = ⊥
  IsBurstEnd turns (out_of_jobs, s, names) = length names ≤ turns
  IsBurstEnd turns (jobs_done, s, names) = length names ≤ turns
  IsBurstEnd turns (on_request, s, names) = length names ≤ turns
  IsBurstEnd turns (exception, s, names) = length names ≤ turns

  one_more :
      (turns : ℕ) (job_name : String) (end : WorkEnd) (s : WorkerState b) (names : List String)
      → IsBurstEnd turns (end, s, names)
      → IsBurstEnd (suc turns) (end, s, job_name ∷ names)
  one_more turns job_name still_running s names h = ap suc h
  one_more turns job_name idle_too_long s names h = h
  one_more turns job_name out_of_jobs s names h = omega (arith, h)
  one_more turns job_name jobs_done s names h = omega (arith, h)
  one_more turns job_name on_request s names h = omega (arith, h)
  one_more turns job_name exception s names h = omega (arith, h)

  module _ (u : UserCode b) (config : SchedulerConfiguration) where
    after_job-IsBurstTurn :
        (max_jobs : Option ℕ) (now : ℕ) (job_name : String) (found : Option WorkerModel)
        (s : WorkerState b)
        → IsBurstTurn (after_job b u config max_jobs now job_name found s)
    unfolding after_job
    after_job-IsBurstTurn max_jobs now job_name none s = tt
    after_job-IsBurstTurn max_jobs now job_name (some model) s = tt

    after_wait-IsBurstTurn :
        (settings : Settings) (max_jobs max_idle_time : Option ℕ) (t : Turn b)
        (r : WaitEnd b × WorkerState b)
        → settings.burst ≡ true
        → IsAnswered b r.0
        → IsBurstTurn (after_wait b u config settings max_jobs max_idle_time t r)
    unfolding after_wait
    after_wait-IsBurstTurn settings max_jobs max_idle_time t (got job q, s) burst h =
        let s' = perform b u config t job q s in
        after_job-IsBurstTurn max_jobs t.ended job.name (refresh s'.model s'.workers) s'
    after_wait-IsBurstTurn settings max_jobs none t (no_job, s) burst h =
        IsBurstTurn-if settings.burst _ _ burst tt
    after_wait-IsBurstTurn settings max_jobs (some max_idle_time) t (no_job, s) burst h =
        IsBurstTurn-if settings.burst _ _ burst tt
    after_wait-IsBurstTurn settings max_jobs max_idle_time t (raised_value_error, s) burst h = tt
    after_wait-IsBurstTurn settings max_jobs max_idle_time t (still_waiting, s) burst h = absurd h

    module _ (shuffle : List String → List String) (rounds worker_ttl : ℕ) (settings : Settings)
        (max_jobs max_idle_time : Option ℕ) (burst : settings.burst ≡ true) where
      wait_turn-IsBurstTurn :
          (t : Turn b) (requested : Option ℕ) (s : WorkerState b)
          → has_read b t.attempts ≡ true
          → IsBurstTurn (
              wait_turn b u config shuffle
                (suc rounds)
                worker_ttl
                settings
                max_jobs
                max_idle_time
                t
                requested
                s)
      unfolding wait_turn dequeue_job_and_maintain_ttl
      wait_turn-IsBurstTurn t (some requested) s h = tt
      wait_turn-IsBurstTurn t none s h =
          let untimed : none
              ≡ timeout b u config shuffle (suc rounds) worker_ttl settings max_jobs max_idle_time =
            ap (λ k. if k then none else some worker_ttl) (sym burst) in
          after_wait-IsBurstTurn settings max_jobs max_idle_time t _ burst (
            subst
              (λ o.
                IsAnswered b
                  (dequeue_job_and_maintain_ttl b shuffle (suc rounds) settings o max_idle_time
                    t.now t.attempts t.waited s).0)
              untimed
              (end_wait-IsAnswered b t.waited _ (
                wait_for_job-IsAnswered b shuffle rounds settings max_idle_time t.now t.attempts
                  max_idle_time _ h)))

      checked_turn-IsBurstTurn :
          (t : Turn b) (checked : Checked) (s : WorkerState b)
          → has_read b t.attempts ≡ true
          → IsNotSuspended checked
          → IsBurstTurn (
              checked_turn b u config shuffle
                (suc rounds)
                worker_ttl
                settings
                max_jobs
                max_idle_time
                t
                checked
                s)
      unfolding checked_turn
      checked_turn-IsBurstTurn t raises_stop_requested s h k = tt
      checked_turn-IsBurstTurn t (still_suspended model workers) s h k = absurd k
      checked_turn-IsBurstTurn t (passed model workers) s h k =
          let (model', workers') = maintain settings t.now model workers in
          wait_turn-IsBurstTurn t model'.shutdown_requested_date
            (record s { model = model'; workers = workers' }) h

      refreshed_turn-IsBurstTurn :
          (t : Turn b) (found : Option WorkerModel) (s : WorkerState b)
          → has_read b t.attempts ≡ true
          → IsBurstTurn (
              refreshed_turn b u config shuffle
                (suc rounds)
                worker_ttl
                settings
                max_jobs
                max_idle_time
                t
                found
                s)
      unfolding refreshed_turn
      refreshed_turn-IsBurstTurn t none s h = tt
      refreshed_turn-IsBurstTurn t (some model) s h =
          checked_turn-IsBurstTurn t (check_for_suspension t.seconds settings.burst model s.workers)
            s h
            (subst (λ k. IsNotSuspended (check_for_suspension t.seconds k model s.workers))
              (sym burst) (check_for_suspension-IsNotSuspended t.seconds model s.workers))

      behind-IsBurstEnd :
          (turns : ℕ) (r : Turned b) (rest : WorkerState b → WorkEnd × WorkerState b × List String)
          → IsBurstTurn r
          → ((s : WorkerState b) → IsBurstEnd turns (rest s))
          → IsBurstEnd (suc turns) (
              behind b u config shuffle
                (suc rounds)
                worker_ttl
                settings
                max_jobs
                max_idle_time
                r
                rest)
      unfolding behind
      behind-IsBurstEnd turns (ends still_running s) rest h k = absurd h
      behind-IsBurstEnd turns (ends idle_too_long s) rest h k = absurd h
      behind-IsBurstEnd turns (ends out_of_jobs s) rest h k = omega arith
      behind-IsBurstEnd turns (ends jobs_done s) rest h k = omega arith
      behind-IsBurstEnd turns (ends on_request s) rest h k = omega arith
      behind-IsBurstEnd turns (ends exception s) rest h k = omega arith
      behind-IsBurstEnd turns (performed_and true job_name s) rest h k = omega arith
      behind-IsBurstEnd turns (performed_and false job_name s) rest h k =
          let (end, s', names) = rest s in one_more turns job_name end s' names (k s)
      behind-IsBurstEnd turns (goes_on s) rest h k = absurd h

      -- In burst mode the loop of a worker ends at the first turn that performs no job: after any list of
      -- turns, in each of which a round reads the queues, it has ended, not for being idle too long
      -- and with at most one job for each turn, or has performed a job in every turn.
      pub work-IsBurstEnd :
          (turns : List (Turn b)) (s : WorkerState b)
          → AllRead turns
          → IsBurstEnd (length turns) (
              work b u config shuffle
                (suc rounds)
                worker_ttl
                settings
                max_jobs
                max_idle_time
                turns
                s)
      unfolding work turn
      work-IsBurstEnd [] s h = refl
      work-IsBurstEnd (t ∷ ts) s (read, h) =
          let s' = record s { workers = t.commands s.workers } in
          behind-IsBurstEnd (length ts) _ _
            (refreshed_turn-IsBurstTurn t (refresh s'.model s'.workers) s' read)
            (λ s''. work-IsBurstEnd ts s'' h)
