-- ===== src/Jobs/Cleaning.antt =====
-- Queue.clean_registries of scheduler/helpers/queues/queue_logic.py: the jobs whose execution was
-- abandoned.
pub mod Abandoned
use mathlib.Core.Path.{subst}
use daily_scheduler.Base.{
  sym, ℕ, zero, suc, String, ◌≡◌, ◌⊎◌, refl, inl, inr, Bool, true, false, ◌&&◌, Option, none, some,
  List, [], ◌∷◌, arith, select, if◌then◌else◌, eq_refl, ◌==◌, Bool-cases, ◌∙◌,
}
use daily_scheduler.Base.Int.{ℤ, pos, ◌+ℤ◌, leb_ℤ}
use daily_scheduler.Jobs.Model.{JobModel, failed, Registry, SchedulerConfiguration}
use daily_scheduler.Jobs.Broker.{Broker, drop_between}
use daily_scheduler.Jobs.Queue.{
  UserCode, Outcome, returned, raised, run_callback, job_handle_failure,
}
use daily_scheduler.Jobs.Registries.{cleanup, compact}

-- The state behind the call, or the exception of a callback that ends it.
pub data Cleaned {ℓ} (A : Type ℓ) : Type ℓ where
  cleaned : A → Cleaned A
  callback_raised : String → Cleaned A

module _ (b : Broker) (u : UserCode b) (config : SchedulerConfiguration) (q : String)
    (now : ℕ) where
  open b use {Conn, zscore, hgetall, entries}

  -- `timestamp or current_timestamp()`
  abbrev pub before_score : Option ℕ → ℕ
  before_score none = now
  before_score (some t) = if t == 0 then now else t

  -- ActiveJobRegistry.get_job_names_before
  abbrev pub get_job_names_before : ℕ → Conn → List (String × ℤ)
  get_job_names_before before c =
      select (λ x. leb_ℤ (pos 0) x.1 && leb_ℤ x.1 (pos before)) (entries q Registry.active c)

  -- The cleanups of the six registries, in the order of Queue.REGISTRIES.
  unfoldable pub cleanup_all : ℕ → Conn → Conn
  cleanup_all before c =
      let t = some before in
      cleanup b q Registry.queued t now (
        cleanup b q Registry.canceled t now (
          cleanup b q Registry.active t now (
            cleanup b q Registry.scheduled t now
              (cleanup b q Registry.failed t now (cleanup b q Registry.finished t now c)))))

  -- The job is marked as failed where its callback returned, and the registries are cleaned.
  unfoldable pub move_abandoned : ℕ → String → JobModel → Outcome × Conn → Cleaned Conn
  move_abandoned before exc_string job (returned value, c) =
      cleaned (cleanup_all before (job_handle_failure b config q now failed job exc_string c).1)
  move_abandoned before exc_string job (raised error, c) = callback_raised error

  -- One round of the loop. `has_failure_callback` is a method that is not called, so it holds.
  unfoldable pub clean_found : ℕ → String → ℤ → Option JobModel → Conn → Cleaned Conn
  clean_found before exc_string score none c = cleaned c
  clean_found before exc_string score (some job) c =
      let moved =
        move_abandoned before exc_string job (run_callback b u job.failure_callback job c) in
      if leb_ℤ (score +ℤ job.timeout) (pos before) then moved else cleaned c

  unfoldable pub clean_next : (Conn → Cleaned Conn) → Cleaned Conn → Cleaned Conn
  clean_next rest (cleaned c) = rest c
  clean_next rest (callback_raised error) = callback_raised error

  unfoldable pub clean_started : ℕ → String → List (String × ℤ) → Conn → Cleaned Conn
  clean_started before exc_string [] c = cleaned c
  clean_started before exc_string ((n, s) ∷ rest) c =
      clean_next (clean_started before exc_string rest)
        (clean_found before exc_string s (hgetall n c) c)

  -- Queue.clean_registries; `exc_string` is the text that names the registry and the time.
  unfoldable pub clean_registries : Option ℕ → String → Conn → Cleaned Conn
  clean_registries timestamp exc_string c =
      let before = before_score timestamp in
      let c' = compact b q c in clean_started before exc_string (get_job_names_before before c') c'
