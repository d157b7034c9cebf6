-- ===== src/Worker/Exclusion.antt =====
-- Who holds the lock on a queue: scheduler/redis_models/lock.py and scheduler/worker/scheduler.py.
use mathlib.Core.Path.{subst}
use daily_scheduler.Base.{
  ℕ, ◌≡◌, refl, sym, ◌∙◌, String, Bool, true, false, Option, none, some, List, [], ◌∷◌, str_eq,
  eq_refl, eq_iff, arith, if◌then◌else◌, Bool-cases, inl, inr, Option-cases,
}
use daily_scheduler.Worker.Naming.{has_name}
use daily_scheduler.Worker.Locks.{
  Keys, or_else, WorkerScheduler, acquire, release, lock_queues, release_all, stop,
}

module _ (keys : Keys) (locking_key : String → String)
    (apart : (a a' : String) → str_eq (locking_key a) (locking_key a') ≡ str_eq a a') where
  open keys use {Conn, get, set_nx, del}

  -- A lock that is held stays with its holder.
  get-lock_queues :
      (pid : String) (expire : ℕ) (qs : List String) (q holder : String) (c : Conn)
      → get (locking_key q) c ≡ some holder
      → get (locking_key q) (lock_queues keys locking_key pid expire qs c).1 ≡ some holder
  unfolding lock_queues acquire
  get-lock_queues pid expire [] q holder c held = held
  get-lock_queues pid expire (x ∷ xs) q holder c held =
      get-lock_queues pid expire xs q holder (set_nx (locking_key x) pid expire c).1 (kept x)
    where
      kept :
          (x : String) → get (locking_key q) (set_nx (locking_key x) pid expire c).1 ≡ some holder
      kept x = elim (Bool-cases (str_eq x q)) [
        | inl same ↦
            let e : x ≡ q = (eq_iff x q).0 same in
            keys.get-set_nx (locking_key x) pid (locking_key q) expire c
            ∙ rw (apart x q) (rw same (rw e (rw held refl)))
        | inr other ↦
            keys.get-set_nx (locking_key x) pid (locking_key q) expire c
            ∙ rw (apart x q) (rw other held)
      ]

  -- One key after SET NX of another queue's.
  get_other :
      (pid : String) (expire : ℕ) (x q : String) (c : Conn)
      → str_eq x q ≡ false
      → get (locking_key q) (set_nx (locking_key x) pid expire c).1 ≡ get (locking_key q) c
  get_other pid expire x q c other =
      keys.get-set_nx (locking_key x) pid (locking_key q) expire c ∙ rw (apart x q) (rw other refl)

  get_same :
      (pid : String) (expire : ℕ) (q : String) (c : Conn)
      → get (locking_key q) (set_nx (locking_key q) pid expire c).1
        ≡ or_else (get (locking_key q) c) pid
  get_same pid expire q c =
      keys.get-set_nx (locking_key q) pid (locking_key q) expire c
      ∙ rw (eq_refl (locking_key q)) refl

  free_of_set_nx :
      (pid : String) (expire : ℕ) (q : String) (c : Conn)
      → (set_nx (locking_key q) pid expire c).0 ≡ true
      → get (locking_key q) c ≡ none
  free_of_set_nx pid expire q c ok = elim (Option-cases (get (locking_key q) c)) [
    | inl free ↦ free
    | inr (w, held) ↦
        absurd (let refused = keys.set_nx-some (locking_key q) pid w expire c held in cc)
  ]

  or_else-none : (o : Option String) (v : String) → or_else o v ≡ none → ⊥
  or_else-none none v e = cc
  or_else-none (some w) v e = cc

  has_name-if :
      (k : Bool) (q x : String) (more : List String)
      → has_name q (if k then x ∷ more else more) ≡ true
      → str_eq q x ≡ false
      → has_name q more ≡ true
  has_name-if true q x more h other = ground (arith, h, other)
  has_name-if false q x more h other = h

  has_name-unlocked :
      (k : Bool) (q x : String) (more : List String)
      → has_name q (if k then x ∷ more else more) ≡ true
      → k ≡ false
      → has_name q more ≡ true
  has_name-unlocked true q x more h lost = absurd cc
  has_name-unlocked false q x more h lost = h

  -- A scheduler that locks a queue has found the queue's lock free, and holds it then.
  pub lock_queues-get :
      (pid : String) (expire : ℕ) (qs : List String) (q : String) (c : Conn)
      → has_name q (lock_queues keys locking_key pid expire qs c).0 ≡ true
      → (get (locking_key q) c ≡ none)
        × (get (locking_key q) (lock_queues keys locking_key pid expire qs c).1 ≡ some pid)
  unfolding lock_queues acquire
  lock_queues-get pid expire [] q c mine = absurd cc
  lock_queues-get pid expire (x ∷ xs) q c mine =
      let c' = (set_nx (locking_key x) pid expire c).1 in
      let ok = (set_nx (locking_key x) pid expire c).0 in
      let more = (lock_queues keys locking_key pid expire xs c').0 in
      elim (Bool-cases (str_eq q x)) [
        | inr other ↦
            let other' : str_eq x q ≡ false = ground (arith, other, eq_iff x q, eq_refl x) in
            let (free, held) =
              lock_queues-get pid expire xs q c' (has_name-if ok q x more mine other) in
            (sym (get_other pid expire x q c other') ∙ free, held)
        | inl same ↦
            let e : x ≡ q = sym ((eq_iff q x).0 same) in
            let after : get (locking_key q) c' ≡ or_else (get (locking_key q) c) pid =
              subst
                (λ y.
                  get (locking_key q) (set_nx (locking_key y) pid expire c).1
                  ≡ or_else (get (locking_key q) c) pid)
                (sym e) (get_same pid expire q c) in
            elim (Bool-cases ok) [
              | inl won ↦
                  let free : get (locking_key q) c ≡ none =
                    subst (λ y. get (locking_key y) c ≡ none) e
                      (free_of_set_nx pid expire x c won) in
                  (free, get-lock_queues pid expire xs q pid c' (after ∙ rw free refl))
              | inr lost ↦
                  let there = has_name-unlocked ok q x more mine lost in
                  let (free, held) = lock_queues-get pid expire xs q c' there in
                  absurd (or_else-none (get (locking_key q) c) pid (sym after ∙ free))
            ]
      ]

  -- Once one scheduler has locked a queue, no scheduler that tries next locks it, whatever queues it
  -- tries, as long as the lock is neither released nor lapses.
  pub lock_queues_exclusive :
      (pid pid' : String) (expire expire' : ℕ) (qs qs' : List String) (q : String) (c : Conn)
      → has_name q (lock_queues keys locking_key pid expire qs c).0 ≡ true
      → has_name q
          (lock_queues keys locking_key pid' expire' qs'
            (lock_queues keys locking_key pid expire qs c).1).0
        ≡ false
  lock_queues_exclusive pid pid' expire expire' qs qs' q c mine =
      let c' = (lock_queues keys locking_key pid expire qs c).1 in
      let held = (lock_queues-get pid expire qs q c mine).1 in
      elim (Bool-cases (has_name q (lock_queues keys locking_key pid' expire' qs' c').0)) [
        | inr lost ↦ lost
        | inl won ↦ absurd (let free = (lock_queues-get pid' expire' qs' q c' won).0 in cc)
      ]

  get-release_all :
      (qs : List String) (q : String) (c : Conn)
      → (get (locking_key q) c ≡ none)
      → get (locking_key q) (release_all keys locking_key qs c) ≡ none
  unfolding release_all release
  get-release_all [] q c free = free
  get-release_all (x ∷ xs) q c free =
      get-release_all xs q (del (locking_key x) c)
        (ground (arith, keys.get-del (locking_key x) (locking_key q) c, free))

  released :
      (qs : List String) (q : String) (c : Conn)
      → has_name q qs ≡ true
      → get (locking_key q) (release_all keys locking_key qs c) ≡ none
  unfolding release_all release
  released [] q c there = absurd cc
  released (x ∷ xs) q c there = elim (Bool-cases (str_eq q x)) [
    | inl same ↦ get-release_all xs q (del (locking_key x) c) (
        ground (
          arith,
          keys.get-del (locking_key x) (locking_key q) c,
          apart x q,
          eq_refl x,
          (eq_iff q x).0 same,
        ))
    | inr other ↦ released xs q (del (locking_key x) c) (ground (arith, other))
  ]

  -- A scheduler that stops lets go of the lock of every queue that it has ever locked, whoever holds
  -- it by then.
  pub stop-get :
      (s : WorkerScheduler) (q : String) (c : Conn)
      → has_name q s.locks ≡ true
      → get (locking_key q) (stop keys locking_key s c).1 ≡ none
  unfolding stop
  stop-get s q c mine = released s.locks q c mine
