-- ===== src/Jobs/Registries/Dequeue.antt =====
-- Which job dequeue_any takes, and that it takes one round.
use daily_scheduler.Base.{
  ℕ, zero, suc, String, ◌≡◌, ◌≢◌, ◌⊎◌, refl, true, false, Option, none, some, List, [], ◌∷◌, arith,
  eq_refl, Bool-cases, inl, inr, ap, ◌∙◌, head?,
}
use daily_scheduler.Base.Int.{ℤ, ◌≤ℤ◌}
use daily_scheduler.Jobs.Model.{JobModel, Registry}
use daily_scheduler.Jobs.Broker.{Broker}
use daily_scheduler.Jobs.Registries.{
  Dequeued, dequeued, nothing, timed_out, value_error, out_of_rounds, exists_job, compact_all, pop,
  take_job, take_popped, is_zero, dequeue_any,
}
use daily_scheduler.Jobs.Registries.Pop.{
  NoneBefore, NoneIn, Popped, PopFacts, PopFacts-pop, not-Mem, before_of_Popped, hgetall_of_Popped,
}
use daily_scheduler.Jobs.Registries.Compact.{zscore-compact_all}

module _ (b : Broker) where
  open b use {Conn, zscore, hgetall, entries, zrem}

  -- No name of a job that is there waits in a queue.
  abbrev pub NoJobIn : String → Conn → Type 0
  NoJobIn q c =
      (m : String) (t : ℤ) → zscore q Registry.queued m c ≡ some t → exists_job b m c ≡ false

  abbrev pub NoJobBefore : String → List String → Conn → Type 0
  NoJobBefore q [] c = Unit
  NoJobBefore q (x ∷ xs) c = (x ≡ q) ⊎ (NoJobIn x c × NoJobBefore q xs c)

  abbrev pub NoJobInAny : List String → Conn → Type 0
  NoJobInAny [] c = Unit
  NoJobInAny (x ∷ xs) c = NoJobIn x c × NoJobInAny xs c

  still-compact_all :
      (qs : List String) (c : Conn) (q m : String) (t : ℤ)
      → zscore q Registry.queued m c ≡ some t
      → exists_job b m c ≡ true
      → zscore q Registry.queued m (compact_all b qs c) ≡ some t
  still-compact_all qs c q m t z alive =
      ground (arith, zscore-compact_all b qs q Registry.queued m c)

  NoJobIn-of_none :
      (qs : List String) (c : Conn) (x : String)
      → head? (entries x Registry.queued (compact_all b qs c)) ≡ none
      → NoJobIn x c
  NoJobIn-of_none qs c x empty m t z = elim (Bool-cases (exists_job b m c)) [
    | inl alive ↦
        let c0 = compact_all b qs c in
        absurd (
          not-Mem b (entries x Registry.queued c0) (m, t) empty
            ((b.entries_iff x Registry.queued m t c0).1 (still-compact_all qs c x m t z alive)))
    | inr dead ↦ dead
  ]

  NoJobBefore_of_none :
      (qs : List String) (c : Conn) (q : String) (xs : List String)
      → NoneBefore b q xs (compact_all b qs c)
      → NoJobBefore q xs c
  unfolding NoneBefore
  NoJobBefore_of_none qs c q [] h = tt
  NoJobBefore_of_none qs c q (x ∷ xs) (inl here) = inl here
  NoJobBefore_of_none qs c q (x ∷ xs) (inr (empty, h)) =
      inr (NoJobIn-of_none qs c x empty, NoJobBefore_of_none qs c q xs h)

  NoJobInAny-of_none :
      (qs : List String) (c : Conn) (xs : List String)
      → NoneIn b xs (compact_all b qs c)
      → NoJobInAny xs c
  unfolding NoneIn
  NoJobInAny-of_none qs c [] h = tt
  NoJobInAny-of_none qs c (x ∷ xs) (empty, h) =
      (NoJobIn-of_none qs c x empty, NoJobInAny-of_none qs c xs h)

  -- The job `job` of the queue `q`, taken in the state `c`, which left the state `c'`.
  pub record IsFirst (queues : List String) (c : Conn) (job : JobModel) (q : String) (c' : Conn)
      : Type 0 where
    pub name : String
    pub score : ℤ
    pub waited : zscore q Registry.queued name c ≡ some score
    pub stored : hgetall name c ≡ some job
    pub taken : zscore q Registry.queued name c' ≡ none
    pub lowest :
        (m : String) (t : ℤ)
        → zscore q Registry.queued m c ≡ some t
        → exists_job b m c ≡ true
        → score ≤ℤ t
    pub before : NoJobBefore q queues c

  -- What dequeue_any may give.
  abbrev pub IsDequeued : List String → Option ℕ → Conn → Dequeued × Conn → Type 0
  IsDequeued queues timeout c (dequeued job q, c') = IsFirst queues c job q c'
  IsDequeued queues timeout c (nothing, c') = (timeout ≡ none) × NoJobInAny queues c
  IsDequeued queues timeout c (timed_out, c') = (timeout ≢ none) × NoJobInAny queues c
  IsDequeued queues timeout c (value_error, c') = timeout ≡ some 0
  IsDequeued queues timeout c (out_of_rounds, c') = ⊥

  IsFirst-of_Popped :
      (qs : List String) (c : Conn) (q n : String) (c' : Conn) (job : JobModel)
      → Popped b qs (compact_all b qs c) q n c'
      → hgetall n c ≡ some job
      → IsFirst qs c job q c'
  IsFirst-of_Popped qs c q n c' job h e =
      let c0 = compact_all b qs c in
      record {
        name = n;
        score = h.score;
        waited = before_of_Popped b qs c q n c' h;
        stored = e;
        taken =
            ap (zscore q Registry.queued n) h.left
            ∙ b.zscore-zrem q Registry.queued n q Registry.queued n c0
            ∙ ground (arith, eq_refl q, eq_refl n);
        lowest = λ m t z alive.
            b.entries_lowest q Registry.queued n h.score m t c0 h.first
              (still-compact_all qs c q m t z alive);
        before = NoJobBefore_of_none qs c q qs h.before;
      }

  take_popped-IsDequeued :
      (qs : List String) (c : Conn) (timeout : Option ℕ) (popped : Option (String × String) × Conn)
      (again : Dequeued × Conn)
      → PopFacts b qs (compact_all b qs c) popped
      → IsDequeued qs timeout c (take_popped b popped.0 timeout popped.1 again)
  unfolding PopFacts take_popped take_job
  take_popped-IsDequeued qs c none (none, c') again h = (refl, NoJobInAny-of_none qs c qs h)
  take_popped-IsDequeued qs c (some timeout) (none, c') again h =
      (λ e. cc, NoJobInAny-of_none qs c qs h)
  take_popped-IsDequeued qs c timeout (some (q, n), c') again h =
      let (job, before, after) = hgetall_of_Popped b qs c q n c' h in
      rw after (IsFirst-of_Popped qs c q n c' job h before)

  zero_timeout : (timeout : Option ℕ) → is_zero b timeout ≡ true → timeout ≡ some 0
  zero_timeout none e = ground arith
  zero_timeout (some zero) e = refl
  zero_timeout (some (suc n)) e = ground arith

  -- One round is always enough. The job that is taken has a hash, and the lowest score of those in
  -- its queue that have one; no queue before its queue has such a job. Where there is none in any
  -- queue, the call says so by the timeout: None returns nothing, a number raises DequeueTimeout,
  -- and 0 is refused.
  pub dequeue_any-IsDequeued :
      (rounds : ℕ) (queues : List String) (timeout : Option ℕ) (c : Conn)
      → IsDequeued queues timeout c (dequeue_any b (suc rounds) queues timeout c)
  unfolding dequeue_any
  dequeue_any-IsDequeued rounds queues timeout c = elim (Bool-cases (is_zero b timeout)) [
    | inl refused ↦ rw refused (zero_timeout timeout refused)
    | inr fine ↦ rw fine (
        take_popped-IsDequeued queues c timeout (pop b queues (compact_all b queues c)) _
          (PopFacts-pop b queues (compact_all b queues c)))
  ]
