-- ===== src/Jobs/Registries/Compact.antt =====
-- What the compaction of the waiting jobs changes.
use daily_scheduler.Base.{
  String, ◌≡◌, refl, Bool, true, false, not, ◌&&◌, ◌||◌, Option, none, some, List, [], ◌∷◌, Memᴰ,
  arith, str_eq, eq_iff, ◌==◌, Option-cases, Bool-cases, inl, inr, if◌then◌else◌, ap, sym, ◌∙◌,
}
use daily_scheduler.Base.Int.{ℤ}
use daily_scheduler.Jobs.Model.{JobModel, Registry, registry_number, registry_number_inj}
use daily_scheduler.Jobs.Broker.{Broker}
use daily_scheduler.Jobs.Registries.{exists_job, drop_dead, compact, compact_all}

abbrev pub member : String → List String → Bool
member q [] = false
member q (x ∷ xs) = str_eq x q || member q xs

abbrev named : String → List (String × ℤ) → Bool
named n [] = false
named n ((m, s) ∷ xs) = str_eq m n || named n xs

named_of_Mem : (n : String) (s : ℤ) (xs : List (String × ℤ)) → Memᴰ (n, s) xs → named n xs ≡ true
named_of_Mem n s [] h = elim h [ ]
named_of_Mem n s ((m, t) ∷ xs) (Memᴰ.head p) =
    let name : m ≡ n = ap (λ (x : String × ℤ). x.0) (sym p) in ground (arith, (eq_iff m n).1 name)
named_of_Mem n s ((m', t) ∷ xs) (Memᴰ.tail m) = ground (arith, named_of_Mem n s xs m)

module _ (b : Broker) where
  open b use {Conn, zscore, hgetall, entries, zrem}

  -- One round of the loop.
  abbrev drop_one : String → String → Conn → Conn
  drop_one q n c = if exists_job b n c then c else zrem q Registry.queued n c

  hgetall-drop_one : (q n m : String) (c : Conn) → hgetall m (drop_one q n c) ≡ hgetall m c
  hgetall-drop_one q n m c = elim (Bool-cases (exists_job b n c)) [
    | inl alive ↦ rw alive refl
    | inr dead ↦ rw dead (b.hgetall-zrem q Registry.queued n m c)
  ]

  exists-drop_one : (q n m : String) (c : Conn) → exists_job b m (drop_one q n c) ≡ exists_job b m c
  exists-drop_one q n m c =
      ap (λ (o : Option JobModel). elim o [ none ↦ false | some job ↦ true ])
        (hgetall-drop_one q n m c)

  exists_congr : (n m : String) (c : Conn) → str_eq n m ≡ true → exists_job b n c ≡ exists_job b m c
  exists_congr n m c e = ap (λ x. exists_job b x c) ((eq_iff n m).0 e)

  zscore-drop_one :
      (q n q' : String) (r : Registry) (m : String) (c : Conn)
      → zscore q' r m (drop_one q n c) ≡ (
          if (str_eq q q' && 0 == registry_number r) && (str_eq n m && not (exists_job b n c))
          then none
          else zscore q' r m c)
  zscore-drop_one q n q' r m c = elim (Bool-cases (exists_job b n c)) [
    | inl alive ↦ rw alive (ground arith)
    | inr dead ↦ rw dead (ground (arith, b.zscore-zrem q Registry.queued n q' r m c))
  ]

  pub hgetall-drop_dead :
      (q : String) (xs : List (String × ℤ)) (m : String) (c : Conn)
      → hgetall m (drop_dead b q xs c) ≡ hgetall m c
  unfolding drop_dead
  hgetall-drop_dead q [] m c = refl
  hgetall-drop_dead q ((n, s) ∷ xs) m c =
      hgetall-drop_dead q xs m (drop_one q n c) ∙ hgetall-drop_one q n m c

  zscore-drop_dead :
      (q : String) (xs : List (String × ℤ)) (q' : String) (r : Registry) (m : String) (c : Conn)
      → zscore q' r m (drop_dead b q xs c) ≡ (
          if (str_eq q q' && 0 == registry_number r) && (named m xs && not (exists_job b m c))
          then none
          else zscore q' r m c)
  unfolding drop_dead
  zscore-drop_dead q [] q' r m c = ground arith
  zscore-drop_dead q ((n, s) ∷ xs) q' r m c = ground (
    arith,
    zscore-drop_dead q xs q' r m (drop_one q n c),
    zscore-drop_one q n q' r m c,
    exists-drop_one q n m c,
    exists_congr n m c,
  )

  -- Compacting a queue takes the names without a hash off its waiting jobs, and nothing else off
  -- any queue.
  pub zscore-compact :
      (q q' : String) (r : Registry) (m : String) (c : Conn)
      → zscore q' r m (compact b q c) ≡ (
          if (str_eq q q' && 0 == registry_number r) && not (exists_job b m c)
          then none
          else zscore q' r m c)
  unfolding compact
  zscore-compact q q' r m c =
      let found = entries q Registry.queued c in
      elim (Bool-cases (str_eq q q' && 0 == registry_number r)) [
        | inl here ↦
            let same_queue : q ≡ q' = (eq_iff q q').0 (ground arith) in
            let same_registry : Registry.queued ≡ r =
              registry_number_inj Registry.queued r (ground arith) in
            elim (Option-cases (zscore q' r m c)) [
              | inl empty ↦ ground (arith, zscore-drop_dead q found q' r m c)
              | inr (s, z) ↦
                  let z' : zscore q Registry.queued m c ≡ some s = cc in
                  ground (
                    arith,
                    zscore-drop_dead q found q' r m c,
                    named_of_Mem m s found ((b.entries_iff q Registry.queued m s c).1 z'),
                  )
            ]
        | inr other ↦ ground (arith, zscore-drop_dead q found q' r m c)
      ]

  pub hgetall-compact : (q m : String) (c : Conn) → hgetall m (compact b q c) ≡ hgetall m c
  unfolding compact
  hgetall-compact q m c = hgetall-drop_dead q (entries q Registry.queued c) m c

  exists-compact : (q m : String) (c : Conn) → exists_job b m (compact b q c) ≡ exists_job b m c
  exists-compact q m c =
      ap (λ (o : Option JobModel). elim o [ none ↦ false | some job ↦ true ])
        (hgetall-compact q m c)

  pub hgetall-compact_all :
      (qs : List String) (m : String) (c : Conn) → hgetall m (compact_all b qs c) ≡ hgetall m c
  unfolding compact_all
  hgetall-compact_all [] m c = refl
  hgetall-compact_all (q ∷ qs) m c =
      hgetall-compact_all qs m (compact b q c) ∙ hgetall-compact q m c

  -- Compacting some queues does the same for each of them.
  pub zscore-compact_all :
      (qs : List String) (q : String) (r : Registry) (m : String) (c : Conn)
      → zscore q r m (compact_all b qs c) ≡ (
          if (member q qs && 0 == registry_number r) && not (exists_job b m c)
          then none
          else zscore q r m c)
  unfolding compact_all
  zscore-compact_all [] q r m c = ground arith
  zscore-compact_all (x ∷ xs) q r m c = ground (
    arith,
    zscore-compact_all xs q r m (compact b x c),
    zscore-compact x q r m c,
    exists-compact x m c,
  )
