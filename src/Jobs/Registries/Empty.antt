-- ===== src/Jobs/Registries/Empty.antt =====
-- What emptying the waiting jobs of a queue removes.
use daily_scheduler.Base.{
  ℕ, zero, suc, ◌+◌, ◌/◌, ◌≤◌, String, ◌≡◌, refl, true, ◌&&◌, none, List, [], ◌∷◌, Memᴰ, arith,
  str_eq, eq_iff, eq_refl, ◌==◌, Option-cases, inl, inr, if◌then◌else◌, ap, sym, take, length, map,
}
use daily_scheduler.Base.Int.{ℤ}
use daily_scheduler.Jobs.Model.{Registry, registry_number}
use daily_scheduler.Jobs.Broker.{Broker}
use daily_scheduler.Jobs.Registries.{all_between, delete_all, empty_rounds, empty}
use daily_scheduler.Jobs.Registries.Compact.{member}

take_all : (n : ℕ) (xs : List (String × ℤ)) → length xs ≤ n → take n xs ≡ xs
take_all zero [] h = refl
take_all (suc n) [] h = refl
take_all (suc n) (x ∷ xs) h = ap (λ ys. x ∷ ys) (take_all n xs (omega arith))
take_all zero (x ∷ xs) h = absurd (omega arith)

member_of_Mem :
    (n : String) (s : ℤ) (xs : List (String × ℤ))
    → Memᴰ (n, s) xs
    → member n (map (λ x. x.0) xs) ≡ true
member_of_Mem n s [] h = elim h [ ]
member_of_Mem n s ((m, t) ∷ xs) (Memᴰ.head p) =
    ground (arith, (eq_iff m n).1 (ap (λ (x : String × ℤ). x.0) (sym p)))
member_of_Mem n s ((m, t) ∷ xs) (Memᴰ.tail k) = ground (arith, member_of_Mem n s xs k)

length_of_Mem : (x : String × ℤ) (xs : List (String × ℤ)) → Memᴰ x xs → 1 ≤ length xs
length_of_Mem x [] h = elim h [ ]
length_of_Mem x (y ∷ ys) h = omega arith

module _ (b : Broker) where
  open b use {Conn, zscore, entries, zrem}

  zscore-delete_all :
      (q : String) (ns : List String) (q' : String) (r : Registry) (m : String) (c : Conn)
      → zscore q' r m (delete_all b q ns c)
        ≡ (if (str_eq q q' && 0 == registry_number r) && member m ns then none else zscore q' r m c)
  unfolding delete_all
  zscore-delete_all q [] q' r m c = ground arith
  zscore-delete_all q (n ∷ ns) q' r m c = ground (
    arith,
    zscore-delete_all q ns q' r m (b.del_job n (zrem q Registry.queued n c)),
    b.zscore-del_job q' r m n (zrem q Registry.queued n c),
    b.zscore-zrem q Registry.queued n q' r m c,
  )

  gone-empty_rounds :
      (q : String) (xs : List (String × ℤ)) (left offset : ℕ) (m : String) (c : Conn)
      → zscore q Registry.queued m c ≡ none
      → zscore q Registry.queued m (empty_rounds b q xs left offset c) ≡ none
  unfolding empty_rounds
  gone-empty_rounds q xs zero offset m c h = h
  gone-empty_rounds q xs (suc left) offset m c h =
      let names = all_between b offset 1000 xs in
      gone-empty_rounds q xs left (offset + 1000) m (delete_all b q names c)
        (ground (arith, zscore-delete_all q names q Registry.queued m c))

  gone_in_first_round :
      (q : String) (xs : List (String × ℤ)) (rounds : ℕ) (m : String) (s : ℤ) (c : Conn)
      → 1 ≤ rounds
      → length xs ≤ 1001
      → Memᴰ (m, s) xs
      → zscore q Registry.queued m (empty_rounds b q xs rounds 0 c) ≡ none
  unfolding empty_rounds
  gone_in_first_round q xs zero m s c some_ few k = absurd (omega arith)
  gone_in_first_round q xs (suc left) m s c some_ few k =
      let names = all_between b 0 1000 xs in
      let all : names ≡ map (λ x. x.0) xs = ap (map (λ x. x.0)) (take_all 1001 xs few) in
      gone-empty_rounds q xs left 1000 m (delete_all b q names c) (
        ground (
          arith,
          zscore-delete_all q names q Registry.queued m c,
          ap (member m) all,
          member_of_Mem m s xs k,
          eq_refl q,
        ))

  -- Of at most 1001 waiting jobs, none waits any longer.
  pub zscore-empty :
      (q m : String) (c : Conn)
      → length (entries q Registry.queued c) ≤ 1001
      → zscore q Registry.queued m (empty b q c) ≡ none
  unfolding empty
  zscore-empty q m c few =
      let xs = entries q Registry.queued c in
      elim (Option-cases (zscore q Registry.queued m c)) [
        | inl none_ ↦ gone-empty_rounds q xs ((length xs + 999) / 1000) 0 m c none_
        | inr (s, z) ↦
            let k = (b.entries_iff q Registry.queued m s c).1 z in
            let some_ = length_of_Mem (m, s) xs k in
            gone_in_first_round q xs ((length xs + 999) / 1000) m s c (omega arith) few k
      ]
