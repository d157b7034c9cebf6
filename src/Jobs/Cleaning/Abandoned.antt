-- ===== src/Jobs/Cleaning/Abandoned.antt =====
-- What Queue.clean_registries does with abandoned jobs.
use mathlib.Core.Path.{subst}
use daily_scheduler.Base.{
  sym, ℕ, zero, suc, String, ◌≡◌, ◌⊎◌, refl, inl, inr, Bool, true, false, ◌&&◌, Option, none, some,
  List, [], ◌∷◌, arith, if◌then◌else◌, eq_refl, Bool-cases, ◌∙◌,
}
use daily_scheduler.Base.Int.{ℤ, pos, ◌+ℤ◌, leb_ℤ}
use daily_scheduler.Jobs.Model.{JobModel, failed, Registry, SchedulerConfiguration}
use daily_scheduler.Jobs.Broker.{Broker, drop_between}
use daily_scheduler.Jobs.Job.{ended_job}
use daily_scheduler.Jobs.Queue.{
  UserCode, Outcome, returned, raised, run_callback, job_handle_failure,
}
use daily_scheduler.Jobs.Queue.Effects.{hgetall-job_handle_failure}
use daily_scheduler.Jobs.Registries.{cleanup, compact}
use daily_scheduler.Jobs.Cleaning.{
  Cleaned, cleaned, callback_raised, before_score, get_job_names_before, cleanup_all,
  move_abandoned, clean_found, clean_next, clean_started, clean_registries,
}

abbrev pub Started : Type 0
Started = List (String × ℤ)

some_of_if : (k : Bool) (t s : ℤ) → k ≡ false → (if k then none else some t) ≡ some s → t ≡ s
some_of_if true t s h e = absurd (ground arith)
some_of_if false t s h e = cc

in_range_of_drop :
    (lo hi : ℤ) (o : Option ℤ) (s : ℤ)
    → drop_between lo hi o ≡ some s
    → (leb_ℤ lo s && leb_ℤ s hi) ≡ false
in_range_of_drop lo hi none s e = ground arith
in_range_of_drop lo hi (some t) s e = elim (Bool-cases (leb_ℤ lo t && leb_ℤ t hi)) [
  | inl dropped ↦ absurd (ground arith)
  | inr kept ↦
      subst (λ v. (leb_ℤ lo v && leb_ℤ v hi) ≡ false)
        (some_of_if (leb_ℤ lo t && leb_ℤ t hi) t s kept e) kept
]

module _ (b : Broker) (u : UserCode b) (config : SchedulerConfiguration) (q : String)
    (now : ℕ) where
  open b use {Conn, zscore, hgetall}

  -- No active job has a score from 0 up to the given one.
  abbrev pub NoneActiveBefore : ℕ → Conn → Type 0
  NoneActiveBefore before c =
      (m : String) (s : ℤ)
      → zscore q Registry.active m c ≡ some s
      → (leb_ℤ (pos 0) s && leb_ℤ s (pos before)) ≡ false

  -- What a round leaves: the state that it found, or no active job up to the given score.
  abbrev pub IsRound : ℕ → Conn → Cleaned Conn → Type 0
  IsRound before c (cleaned c') = (c' ≡ c) ⊎ NoneActiveBefore before c'
  IsRound before c (callback_raised error) = Unit

  -- The cleanup of the active jobs leaves none in the range.
  none-cleanup_active :
      (before : ℕ) (c : Conn)
      → NoneActiveBefore before (cleanup b q Registry.active (some before) now c)
  unfolding cleanup
  none-cleanup_active zero c m s z = ground (
    arith,
    b.zscore-zremrangebyscore q Registry.active (pos 0) (pos now) q Registry.active m c,
    eq_refl q,
    in_range_of_drop (pos 0) (pos now) (zscore q Registry.active m c) s,
  )
  none-cleanup_active (suc n) c m s z = ground (
    arith,
    b.zscore-zremrangebyscore q Registry.active (pos 0) (pos (suc n)) q Registry.active m c,
    eq_refl q,
    in_range_of_drop (pos 0) (pos (suc n)) (zscore q Registry.active m c) s,
  )

  cleanup_all-NoneActiveBefore :
      (before : ℕ) (c : Conn) → NoneActiveBefore before (cleanup_all b u config q now before c)
  unfolding cleanup_all cleanup
  cleanup_all-NoneActiveBefore before c = none-cleanup_active before _

  move_abandoned-IsRound :
      (before : ℕ) (exc_string : String) (job : JobModel) (outcome : Outcome) (c c' : Conn)
      → IsRound before c (move_abandoned b u config q now before exc_string job (outcome, c'))
  unfolding move_abandoned
  move_abandoned-IsRound before exc_string job (returned value) c c' =
      inr (cleanup_all-NoneActiveBefore before _)
  move_abandoned-IsRound before exc_string job (raised error) c c' = tt

  clean_found-IsRound :
      (before : ℕ) (exc_string : String) (score : ℤ) (found : Option JobModel) (c : Conn)
      → IsRound before c (clean_found b u config q now before exc_string score found c)
  unfolding clean_found
  clean_found-IsRound before exc_string score none c = inl refl
  clean_found-IsRound before exc_string score (some job) c =
      elim (Bool-cases (leb_ℤ (score +ℤ job.timeout) (pos before))) [
        | inl abandoned ↦ rw abandoned (
            let (outcome, c') = run_callback b u job.failure_callback job c in
            move_abandoned-IsRound before exc_string job outcome c c')
        | inr running ↦ rw running (inl refl)
      ]

  IsRound-then :
      (before : ℕ) (c c' : Conn) (last : Cleaned Conn)
      → IsRound before c (cleaned c')
      → IsRound before c' last
      → IsRound before c last
  IsRound-then before c c' (callback_raised error) h k = tt
  IsRound-then before c c' (cleaned c'') h (inr none_) = inr none_
  IsRound-then before c c' (cleaned c'') (inl same) (inl same') = inl (same' ∙ same)
  IsRound-then before c c' (cleaned c'') (inr none_) (inl same') =
      inr (subst (NoneActiveBefore before) (sym same') none_)

  IsRound-next :
      (before : ℕ) (exc_string : String) (rest : List (String × ℤ)) (c : Conn)
      (first : Cleaned Conn)
      → IsRound before c first
      → ((c' : Conn) → IsRound before c' (clean_started b u config q now before exc_string rest c'))
      → IsRound before c (
          clean_next b u config q now (clean_started b u config q now before exc_string rest) first)
  unfolding clean_next
  IsRound-next before exc_string rest c (callback_raised error) h k = tt
  IsRound-next before exc_string rest c (cleaned c') h k =
      IsRound-then before c c' (clean_started b u config q now before exc_string rest c') h (k c')

  clean_started-IsRound :
      (before : ℕ) (exc_string : String) (started : List (String × ℤ)) (c : Conn)
      → IsRound before c (clean_started b u config q now before exc_string started c)
  unfolding clean_started
  clean_started-IsRound before exc_string [] c = inl refl
  clean_started-IsRound before exc_string ((n, s) ∷ rest) c =
      IsRound-next before exc_string rest c
        (clean_found b u config q now before exc_string s (hgetall n c) c)
        (clean_found-IsRound before exc_string s (hgetall n c) c)
        (clean_started-IsRound before exc_string rest)

  -- The score and the timeout of a job that is there lie together not beyond the moment.
  abbrev pub is_abandoned : ℕ → ℤ → JobModel → Bool
  is_abandoned before score job = leb_ℤ (score +ℤ job.timeout) (pos before)

  abbrev pub or_later :
      ℕ → ℤ → Option JobModel → Started → Option (JobModel × Started) → Option (JobModel × Started)
  or_later before score none rest later = later
  or_later before score (some job) rest later =
      if is_abandoned before score job then some (job, rest) else later

  -- The first of the started jobs that is abandoned, and the ones behind it.
  abbrev pub first_abandoned : ℕ → Conn → Started → Option (JobModel × Started)
  first_abandoned before c [] = none
  first_abandoned before c ((n, s) ∷ rest) =
      or_later before s (hgetall n c) rest (first_abandoned before c rest)

  abbrev pub NoneActiveAfter : ℕ → Cleaned Conn → Type 0
  NoneActiveAfter before (cleaned c) = NoneActiveBefore before c
  NoneActiveAfter before (callback_raised error) = Unit

  -- What is done with an abandoned job once its callback has ended: the exception is passed on, or
  -- the job is failed and all active jobs up to the moment are taken off, before the others come.
  abbrev pub IsHandled : ℕ → String → JobModel → Started → Outcome × Conn → Cleaned Conn → Type 0
  IsHandled before exc_string job rest (raised error, c) last = last ≡ callback_raised error
  IsHandled before exc_string job rest (returned value, c) last =
      (c' : Conn) × (failed_job : JobModel) × (hgetall job.name c' ≡ some failed_job)
      × (failed_job.status ≡ failed)
      × NoneActiveBefore before c'
      × (last ≡ clean_started b u config q now before exc_string rest c')
      × NoneActiveAfter before last

  abbrev pub IsCleaned : ℕ → String → Conn → Option (JobModel × Started) → Cleaned Conn → Type 0
  IsCleaned before exc_string c none last = last ≡ cleaned c
  IsCleaned before exc_string c (some (job, rest)) last =
      IsHandled before exc_string job rest (run_callback b u job.failure_callback job c) last

  hgetall-cleanup :
      (r : Registry) (timestamp : Option ℕ) (n : String) (c : Conn)
      → hgetall n (cleanup b q r timestamp now c) ≡ hgetall n c
  unfolding cleanup
  hgetall-cleanup Registry.queued timestamp n c = refl
  hgetall-cleanup Registry.canceled timestamp n c = refl
  hgetall-cleanup Registry.scheduled timestamp n c = refl
  hgetall-cleanup Registry.active none n c = simp (b.hgetall-zremrangebyscore)
  hgetall-cleanup Registry.active (some zero) n c = simp (b.hgetall-zremrangebyscore)
  hgetall-cleanup Registry.active (some (suc t)) n c = simp (b.hgetall-zremrangebyscore)
  hgetall-cleanup Registry.failed none n c = simp (b.hgetall-zremrangebyscore)
  hgetall-cleanup Registry.failed (some zero) n c = simp (b.hgetall-zremrangebyscore)
  hgetall-cleanup Registry.failed (some (suc t)) n c = simp (b.hgetall-zremrangebyscore)
  hgetall-cleanup Registry.finished none n c = simp (b.hgetall-zremrangebyscore)
  hgetall-cleanup Registry.finished (some zero) n c = simp (b.hgetall-zremrangebyscore)
  hgetall-cleanup Registry.finished (some (suc t)) n c = simp (b.hgetall-zremrangebyscore)

  hgetall-cleanup_all :
      (before : ℕ) (n : String) (c : Conn)
      → hgetall n (cleanup_all b u config q now before c) ≡ hgetall n c
  unfolding cleanup_all
  hgetall-cleanup_all before n c = simp (hgetall-cleanup)

  NoneActive-kept :
      (before : ℕ) (c : Conn) (last : Cleaned Conn)
      → NoneActiveBefore before c
      → IsRound before c last
      → NoneActiveAfter before last
  NoneActive-kept before c (callback_raised error) h k = tt
  NoneActive-kept before c (cleaned c') h (inl same) = subst (NoneActiveBefore before) (sym same) h
  NoneActive-kept before c (cleaned c') h (inr none_) = none_

  move_abandoned-IsHandled :
      (before : ℕ) (exc_string : String) (job : JobModel) (rest : Started) (called : Outcome × Conn)
      → IsHandled before exc_string job rest called (
          clean_next b u config q now
            (clean_started b u config q now before exc_string rest)
            (move_abandoned b u config q now before exc_string job called))
  unfolding clean_next move_abandoned ended_job
  move_abandoned-IsHandled before exc_string job rest (raised error, c) = refl
  move_abandoned-IsHandled before exc_string job rest (returned value, c) =
      let c1 = (job_handle_failure b config q now failed job exc_string c).1 in
      let c2 = cleanup_all b u config q now before c1 in
      let gone = cleanup_all-NoneActiveBefore before c1 in
      (
        c2,
        ended_job failed now job,
        hgetall-cleanup_all before job.name c1
            ∙ hgetall-job_handle_failure b config q now failed job exc_string c job.name
            ∙ rw (eq_refl job.name) refl,
        refl,
        gone,
        refl,
        NoneActive-kept before c2 _ gone (clean_started-IsRound before exc_string rest c2),
      )

  clean_found-IsCleaned :
      (before : ℕ) (exc_string : String) (score : ℤ) (found : Option JobModel) (rest : Started)
      (c : Conn)
      → IsCleaned before exc_string c
          (first_abandoned before c rest)
          (clean_started b u config q now before exc_string rest c)
      → IsCleaned before exc_string c
          (or_later before score found rest (first_abandoned before c rest))
          (clean_next b u config q now
            (clean_started b u config q now before exc_string rest)
            (clean_found b u config q now before exc_string score found c))
  unfolding clean_found clean_next
  clean_found-IsCleaned before exc_string score none rest c h = h
  clean_found-IsCleaned before exc_string score (some job) rest c h =
      elim (Bool-cases (leb_ℤ (score +ℤ job.timeout) (pos before))) [
        | inl abandoned ↦ rw abandoned (
            move_abandoned-IsHandled before exc_string job rest
              (run_callback b u job.failure_callback job c))
        | inr running ↦ rw running h
      ]

  clean_started-IsCleaned :
      (before : ℕ) (exc_string : String) (started : Started) (c : Conn)
      → IsCleaned before exc_string c
          (first_abandoned before c started)
          (clean_started b u config q now before exc_string started c)
  unfolding clean_started
  clean_started-IsCleaned before exc_string [] c = refl
  clean_started-IsCleaned before exc_string ((n, s) ∷ rest) c =
      clean_found-IsCleaned before exc_string s (hgetall n c) rest c
        (clean_started-IsCleaned before exc_string rest c)

  -- Where none of the active jobs up to the timestamp is abandoned, that is, has a score and a timeout
  -- that lie together not beyond it, the call only compacts the queue. Otherwise the first one that is
  -- comes first: the exception of its callback is that of the call, or the job is failed and every
  -- active job whose score lies from 0 up to the timestamp is taken off, abandoned or not, before the
  -- others are looked at; and none is there at the end, unless a later callback raises.
  pub clean_registries-IsCleaned :
      (timestamp : Option ℕ) (exc_string : String) (c : Conn)
      → let before = before_score b u config q now timestamp in
        let c' = compact b q c in
        IsCleaned before exc_string c'
          (first_abandoned before c' (get_job_names_before b u config q now before c'))
          (clean_registries b u config q now timestamp exc_string c)
  unfolding clean_registries
  clean_registries-IsCleaned timestamp exc_string c =
      clean_started-IsCleaned (before_score b u config q now timestamp) exc_string _ (compact b q c)
