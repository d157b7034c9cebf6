-- ===== src/Jobs/Registries/Pop.antt =====
-- What a pop behind a compaction takes.
use mathlib.Core.Path.{subst}
use daily_scheduler.Base.{
  String, ◌≡◌, ◌⊎◌, refl, true, false, Option, none, some, List, [], ◌∷◌, Memᴰ, arith, eq_refl,
  Option-cases, inl, inr, ap, sym, ◌∙◌, head?,
}
use daily_scheduler.Base.Int.{ℤ}
use daily_scheduler.Jobs.Model.{JobModel, Registry}
use daily_scheduler.Jobs.Broker.{Broker}
use daily_scheduler.Jobs.Registries.{exists_job, compact_all, pop}
use daily_scheduler.Jobs.Registries.Compact.{member, zscore-compact_all, hgetall-compact_all}

module _ (b : Broker) where
  open b use {Conn, zscore, hgetall, entries, zrem}

  -- No name waits in the queues before the first one called `q`.
  unfoldable pub NoneBefore : String → List String → Conn → Type 0
  NoneBefore q [] c = Unit
  NoneBefore q (x ∷ xs) c =
      (x ≡ q) ⊎ ((head? (entries x Registry.queued c) ≡ none) × NoneBefore q xs c)

  unfoldable pub NoneIn : List String → Conn → Type 0
  NoneIn [] c = Unit
  NoneIn (x ∷ xs) c = (head? (entries x Registry.queued c) ≡ none) × NoneIn xs c

  pub record Popped (qs : List String) (c : Conn) (q n : String) (c' : Conn) : Type 0 where
    pub score : ℤ
    pub first : head? (entries q Registry.queued c) ≡ some (n, score)
    pub left : c' ≡ zrem q Registry.queued n c
    pub of_queues : member q qs ≡ true
    pub before : NoneBefore q qs c

  -- What a pop gives: nothing, or the first name of a queue, which is taken off.
  unfoldable pub PopFacts : List String → Conn → Option (String × String) × Conn → Type 0
  PopFacts qs c (none, c') = NoneIn qs c
  PopFacts qs c (some (q, n), c') = Popped qs c q n c'

  PopFacts-cons :
      (x : String) (xs : List String) (c : Conn) (result : Option (String × String) × Conn)
      → head? (entries x Registry.queued c) ≡ none
      → PopFacts xs c result
      → PopFacts (x ∷ xs) c result
  unfolding PopFacts NoneBefore NoneIn
  PopFacts-cons x xs c (none, c') empty h = (empty, h)
  PopFacts-cons x xs c (some (q, n), c') empty h = record {
    score = h.score;
    first = h.first;
    left = h.left;
    of_queues = ground (arith, h.of_queues);
    before = inr (empty, h.before);
  }

  pop-empty :
      (x : String) (xs : List String) (c : Conn)
      → head? (entries x Registry.queued c) ≡ none
      → pop b (x ∷ xs) c ≡ pop b xs c
  unfolding pop
  pop-empty x xs c e = rw (pop, e) refl

  pop-first :
      (x : String) (xs : List String) (c : Conn) (n : String) (s : ℤ)
      → head? (entries x Registry.queued c) ≡ some (n, s)
      → pop b (x ∷ xs) c ≡ (some (x, n), zrem x Registry.queued n c)
  unfolding pop
  pop-first x xs c n s e = rw (pop, e) refl

  pop-none : (c : Conn) → pop b [] c ≡ (none, c)
  unfolding pop
  pop-none c = refl

  pub PopFacts-pop : (qs : List String) (c : Conn) → PopFacts qs c (pop b qs c)
  unfolding PopFacts NoneBefore NoneIn
  PopFacts-pop [] c = subst (PopFacts [] c) (sym (pop-none c)) tt
  PopFacts-pop (x ∷ xs) c = elim (Option-cases (head? (entries x Registry.queued c))) [
    | inl empty ↦
        subst (PopFacts (x ∷ xs) c) (sym (pop-empty x xs c empty))
          (PopFacts-cons x xs c (pop b xs c) empty (PopFacts-pop xs c))
    | inr ((m, s), here) ↦ subst (PopFacts (x ∷ xs) c) (sym (pop-first x xs c m s here)) (record {
      score = s;
      first = here;
      left = refl;
      of_queues = ground (arith, eq_refl x);
      before = inl refl;
    })
  ]

  head-Mem : (xs : List (String × ℤ)) (x : String × ℤ) → head? xs ≡ some x → Memᴰ x xs
  head-Mem [] x e = ground arith
  head-Mem (y ∷ ys) x e = Memᴰ.head cc

  pub not-Mem : (xs : List (String × ℤ)) (x : String × ℤ) → head? xs ≡ none → Memᴰ x xs → ⊥
  not-Mem [] x e m = elim m [ ]
  not-Mem (y ∷ ys) x e m = ground arith

  -- The name that is popped behind a compaction has a hash, and stood in the queue before.
  module _ (qs : List String) (c : Conn) (q n : String) (c' : Conn)
      (h : Popped qs (compact_all b qs c) q n c') where
    zscore_of_Popped : zscore q Registry.queued n (compact_all b qs c) ≡ some h.score
    zscore_of_Popped =
        (b.entries_iff q Registry.queued n h.score (compact_all b qs c)).0
          (head-Mem (entries q Registry.queued (compact_all b qs c)) (n, h.score) h.first)

    exists_of_Popped : exists_job b n c ≡ true
    exists_of_Popped =
        ground (arith, zscore_of_Popped, zscore-compact_all b qs q Registry.queued n c, h.of_queues)

    pub before_of_Popped : zscore q Registry.queued n c ≡ some h.score
    before_of_Popped =
        ground
          (arith, zscore_of_Popped, zscore-compact_all b qs q Registry.queued n c, exists_of_Popped)

    -- The job whose hash is found.
    pub hgetall_of_Popped : (job : JobModel) × (hgetall n c ≡ some job) × (hgetall n c' ≡ some job)
    hgetall_of_Popped = elim (Option-cases (hgetall n c)) [
      | inl dead ↦ absurd (
          ground (
            arith,
            exists_of_Popped,
            ap (λ (o : Option JobModel). elim o [ none ↦ false | some job ↦ true ]) dead,
          ))
      | inr (job, e) ↦ (
        job,
        e,
        ap (hgetall n) h.left
            ∙ b.hgetall-zrem q Registry.queued n n (compact_all b qs c)
            ∙ hgetall-compact_all b qs n c
            ∙ e,
      )
    ]
