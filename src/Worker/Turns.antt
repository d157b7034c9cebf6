-- ===== src/Worker/Turns.antt =====
-- The round-robin order serves every queue: who waits moves up with every job that another queue
-- gives.
use mathlib.Core.Path.{subst}
use daily_scheduler.Base.{
  ℕ, zero, suc, ◌-◌, ◌≤◌, ◌<◌, ◌≡◌, refl, sym, ◌∙◌, ap, String, Bool, true, false, Option, none,
  some, List, [], ◌∷◌, ◌++◌, take, drop, length, str_eq, eq_iff, eq_refl, arith, Bool-cases, inl,
  inr, if◌then◌else◌,
}
use daily_scheduler.Worker.Naming.{has_name}
use daily_scheduler.Worker.Rotation.{round_robin, index_of, next_index, turn_at, reorder_queues}

-- The first queue of the order that has a job: what Queue.dequeue_any picks.
abbrev pub first_with : (String → Bool) → List String → Option String
first_with jobs [] = none
first_with jobs (x ∷ xs) = let rest = first_with jobs xs in if jobs x then some x else rest

abbrev pub turned : Option (List String) → List String → List String
turned none queues = queues
turned (some order) queues = order

-- The queues that give a job, round by round: in each round some queues have one, the first of these
-- gives it, and the worker reorders its queues.
abbrev pub served : List (String → Bool) → List String → List String
served [] order = []
served (jobs ∷ rounds) order = elim (first_with jobs order) [
  | none ↦ []
  | some q ↦ q ∷ served rounds (turned (reorder_queues (λ qs. qs) round_robin q order) order)
]

-- The queue has a job in every round.
abbrev pub AlwaysWaits : String → List (String → Bool) → Type 0
AlwaysWaits p [] = Unit
AlwaysWaits p (jobs ∷ rounds) = (jobs p ≡ true) × AlwaysWaits p rounds

-- An index behind the first element.
index_of_tail :
    (p x : String) (xs : List String) (j : ℕ)
    → str_eq p x ≡ false
    → index_of p (x ∷ xs) ≡ some j
    → (j' : ℕ) × (j ≡ suc j') × (index_of p xs ≡ some j')
unfolding index_of
index_of_tail p x xs j other e = tail_at (index_of p xs) j refl (sym (rw other refl) ∙ e)
  where
    tail_at :
        (o : Option ℕ) (j : ℕ)
        → index_of p xs ≡ o
        → next_index o ≡ some j
        → (j' : ℕ) × (j ≡ suc j') × (index_of p xs ≡ some j')
    tail_at none j at_ e = absurd cc
    tail_at (some i) j at_ e = (i, cc, at_)

index_of_head :
    (p x : String) (xs : List String) (j : ℕ)
    → str_eq p x ≡ true
    → index_of p (x ∷ xs) ≡ some j
    → j ≡ 0
unfolding index_of
index_of_head p x xs j same e = let e' : some 0 ≡ some j = sym (rw same refl) ∙ e in cc

index_of-append :
    (p : String) (xs ys : List String) (j : ℕ)
    → index_of p xs ≡ some j
    → index_of p (xs ++ ys) ≡ some j
unfolding index_of
index_of-append p [] ys j e = absurd cc
index_of-append p (x ∷ xs) ys j e = elim (Bool-cases (str_eq p x)) [
  | inl same ↦ rw same (rw (index_of_head p x xs j same e) refl)
  | inr other ↦
      let (j', js, at_) = index_of_tail p x xs j other e in
      rw other (rw (index_of-append p xs ys j' at_) (ap some (sym js)))
]

-- Who stands behind the place where the order is cut moves up by as many places.
index_of-drop :
    (p : String) (xs ys : List String) (i j : ℕ)
    → index_of p xs ≡ some j
    → i < j
    → index_of p (drop (suc i) xs ++ ys) ≡ some (j - suc i)
unfolding index_of
index_of-drop p [] ys i j e lt = absurd cc
index_of-drop p (x ∷ xs) ys zero j e lt = elim (Bool-cases (str_eq p x)) [
  | inl same ↦ absurd (omega (arith, index_of_head p x xs j same e))
  | inr other ↦
      let (j', js, at_) = index_of_tail p x xs j other e in
      subst (λ k. index_of p (xs ++ ys) ≡ some k) (omega (arith, js))
        (index_of-append p xs ys j' at_)
]
index_of-drop p (x ∷ xs) ys (suc i) j e lt = elim (Bool-cases (str_eq p x)) [
  | inl same ↦ absurd (omega (arith, index_of_head p x xs j same e))
  | inr other ↦
      let (j', js, at_) = index_of_tail p x xs j other e in
      subst (λ k. index_of p (drop (suc i) xs ++ ys) ≡ some k) (omega (arith, js))
        (index_of-drop p xs ys i j' at_ (omega (arith, js)))
]

-- The first queue with a job stands no later than one that has a job.
first_with-before :
    (jobs : String → Bool) (p : String) (xs : List String) (j : ℕ)
    → jobs p ≡ true
    → index_of p xs ≡ some j
    → (q : String) × (i : ℕ) × (first_with jobs xs ≡ some q)
      × (jobs q ≡ true)
      × (index_of q xs ≡ some i)
      × (i ≤ j)
      × (i ≡ j → q ≡ p)
unfolding index_of
first_with-before jobs p [] j waits e = absurd cc
first_with-before jobs p (x ∷ xs) j waits e = elim (Bool-cases (jobs x)) [
  | inl here ↦ (
    x,
    0,
    rw here refl,
    here,
    rw (eq_refl x) refl,
    omega arith,
    λ none_before. elim (Bool-cases (str_eq p x)) [
      | inl same ↦ sym ((eq_iff p x).0 same)
      | inr other ↦
          let (j', js, at_) = index_of_tail p x xs j other e in
          absurd (omega (arith, js, none_before))
    ],
  )
  | inr empty ↦
      let other : str_eq p x ≡ false = ground (arith, waits, empty, eq_iff p x) in
      let (j', js, at_) = index_of_tail p x xs j other e in
      let (q, i, first, gives, found, le, only) = first_with-before jobs p xs j' waits at_ in
      let apart : str_eq q x ≡ false = ground (arith, gives, empty, eq_iff q x) in
      (
        q,
        suc i,
        rw empty first,
        gives,
        rw apart (rw found refl),
        omega (arith, js, le),
        λ h. only (omega (arith, js, h)),
      )
]

abbrev turn : String → List String → List String
turn q order = turned (reorder_queues (λ qs. qs) round_robin q order) order

served-cons :
    (jobs : String → Bool) (rounds : List (String → Bool)) (order : List String) (q : String)
    → first_with jobs order ≡ some q
    → served (jobs ∷ rounds) order ≡ q ∷ served rounds (turn q order)
served-cons jobs rounds order q first = rw (first, served) refl

turn_lem :
    (q : String) (order : List String) (i : ℕ)
    → index_of q order ≡ some i
    → turn q order ≡ drop (suc i) order ++ take (suc i) order
unfolding reorder_queues
turn_lem q order i found = ap (λ o. turned (turn_at o order) order) found

has_name-cons :
    (p q : String) (qs : List String) → str_eq p q ≡ false → has_name p (q ∷ qs) ≡ has_name p qs
has_name-cons p q qs other = rw other refl

-- A queue that has a job in every round gives one after at most as many others as stand before it
-- at the start: no queue starves under the round-robin order.
pub served-has_name :
    (p : String) (rounds : List (String → Bool)) (order : List String) (j : ℕ)
    → AlwaysWaits p rounds
    → index_of p order ≡ some j
    → j < length rounds
    → has_name p (served rounds order) ≡ true
served-has_name p [] order j waits e lt = absurd (omega arith)
served-has_name p (jobs ∷ rounds) order j (now, later) e lt =
    let (q, i, first, gives, found, le, only) = first_with-before jobs p order j now e in
    ap (has_name p) (served-cons jobs rounds order q first) ∙ elim (Bool-cases (str_eq p q)) [
      | inl same ↦ rw same refl
      | inr other ↦
          let apart : i < j = ground (arith, le, only, eq_iff p q, other, eq_refl p) in
          let moved : index_of p (turn q order) ≡ some (j - suc i) =
            rw (turn_lem q order i found)
              (index_of-drop p order (take (suc i) order) i j e apart) in
          has_name-cons p q (served rounds (turn q order)) other
          ∙ served-has_name p rounds (turn q order) (j - suc i) later moved (omega arith)
    ]
