-- ===== src/Jobs/Queue/Consistency.antt =====
-- The invariant of a queue: where the job of each status may stand.
use mathlib.Core.Path.{subst}
use daily_scheduler.Base.{
  String, ◌≡◌, refl, sym, Bool, true, false, ◌||◌, some, arith, str_eq, eq_iff, ◌==◌, if◌then◌else◌,
  ◌∙◌, Bool-cases, inl, inr,
}
use daily_scheduler.Base.Int.{ℤ}
use daily_scheduler.Jobs.Model.{
  JobModel, JobStatus, scheduled, queued, canceled, started, finished, failed, stopped, Registry,
  registry_number,
}
use daily_scheduler.Jobs.Broker.{Broker}

-- The registries in which a job may stand by its status. A stopped job stands among the finished
-- jobs if it was cancelled, and among the failed jobs if its execution was killed.
abbrev pub is_home : JobStatus → Registry → Bool
is_home queued r = registry_number r == 0
is_home started r = registry_number r == 1
is_home failed r = registry_number r == 2
is_home finished r = registry_number r == 3
is_home scheduled r = registry_number r == 4
is_home canceled r = registry_number r == 5
is_home stopped r = registry_number r == 2 || registry_number r == 3

module _ (b : Broker) (q : String) where
  open b use {Conn, zscore, hgetall, zrem}

  -- Every hash stands under its job's name, and a job stands in no registry but those of its status.
  pub record IsConsistent (c : Conn) : Type 0 where
    pub keyed : (n : String) (j : JobModel) → hgetall n c ≡ some j → j.name ≡ n
    pub placed :
        (n : String) (r : Registry) (j : JobModel) (s : ℤ)
        → hgetall n c ≡ some j
        → zscore q r n c ≡ some s
        → is_home j.status r ≡ true

  -- An operation that writes the hash of one job, and entries of that job alone.
  pub IsConsistent-write :
      (c c' : Conn) (j' : JobModel)
      → IsConsistent c
      → ((m : String) → hgetall m c' ≡ (if str_eq j'.name m then some j' else hgetall m c))
      → ((m : String) (r : Registry) → str_eq j'.name m ≡ false → zscore q r m c' ≡ zscore q r m c)
      → ((r : Registry) (s : ℤ) → zscore q r j'.name c' ≡ some s → is_home j'.status r ≡ true)
      → IsConsistent c'
  IsConsistent-write c c' j' h hashes others own = record {
    keyed = λ n j e. ground (arith, hashes n, eq_iff j'.name n, h.keyed n j);
    placed = λ n r j s e z. elim (Bool-cases (str_eq j'.name n)) [
      | inl same ↦
          let p : j'.name ≡ n = (eq_iff j'.name n).0 same in
          let stored : hgetall n c' ≡ some j' = hashes n ∙ rw same refl in
          let same_job : j' ≡ j = cc in
          subst (λ x. is_home x.status r ≡ true) same_job
            (own r s (subst (λ x. zscore q r x c' ≡ some s) (sym p) z))
      | inr other ↦
          h.placed n r j s (sym (hashes n ∙ rw other refl) ∙ e) (sym (others n r other) ∙ z)
    ];
  }
