-- ===== src/Worker/Naming.antt =====
-- The name of a new worker, and the queues it listens to: _calc_worker_name, get_queues and
-- create_worker of scheduler/worker/worker.py.
use daily_scheduler.Base.{
  ℕ, zero, suc, ◌≤◌, ◌<◌, ◌≡◌, refl, sym, ◌∙◌, ap, String, Bool, true, false, not, ◌||◌, Option,
  none, some, List, [], ◌∷◌, length, leb, select, if◌then◌else◌, str_eq, eq_iff, arith, Bool-cases,
  inl, inr,
}

abbrev pub has_name : String → List String → Bool
has_name n [] = false
has_name n (x ∷ xs) = str_eq n x || has_name n xs

-- The loop of _calc_worker_name, which counts up from `c`. `name_of` puts the count behind the name
-- of the host.
unfoldable pub first_free : (ℕ → String) → List String → ℕ → ℕ → Option ℕ
first_free name_of existing zero c = none
first_free name_of existing (suc fuel) c =
    let rest = first_free name_of existing fuel (suc c) in
    if has_name (name_of c) existing then rest else some c

unfoldable pub named_by : (ℕ → String) → Option ℕ → Option String
named_by name_of none = none
named_by name_of (some c) = some (name_of c)

unfoldable pub calc_worker_name : (ℕ → String) → List String → Option String
unfolding first_free named_by
calc_worker_name name_of existing =
    named_by name_of (first_free name_of existing (suc (length existing)) 1)

pub data CreateError : Type 0 where
  no_queue_names connection_discrepancy worker_exists : CreateError

pub data Created {ℓ} (A : Type ℓ) : Type ℓ where
  created : A → Created A
  raise : CreateError → Created A

-- The loop of get_queues behind the first name: all have the first one's connection.
unfoldable pub get_more_queues :
    (String → String → Bool) → String → List String → Created (List String)
get_more_queues same_connection first [] = created []
get_more_queues same_connection first (n ∷ ns) =
    let rest = get_more_queues same_connection first ns in
    if not (same_connection first n)
    then raise connection_discrepancy
    else elim rest [ raise e ↦ raise e | created qs ↦ created (n ∷ qs) ]

-- get_queues. `same_connection` is QueueConfiguration.same_connection_params.
unfoldable pub get_queues : (String → String → Bool) → List String → Created (List String)
unfolding get_more_queues
get_queues same_connection [] = raise no_queue_names
get_queues same_connection (n ∷ ns) = elim (get_more_queues same_connection n ns) [
  | raise e ↦ raise e
  | created qs ↦ created (n ∷ qs)
]

-- The name that create_worker gives to the worker: one that was asked for, or a new one.
unfoldable pub worker_name :
    (ℕ → String) → (String → String) → List String → Option String → Created String
worker_name name_of replace_slashes existing (some name) =
    if has_name name existing then raise worker_exists else created (replace_slashes name)
worker_name name_of replace_slashes existing none = elim (calc_worker_name name_of existing) [
  | none ↦ raise worker_exists
  | some name ↦
      if has_name name existing then raise worker_exists else created (replace_slashes name)
]

-- create_worker, up to the Worker: its queues and its name.
unfoldable pub create_worker :
    (String → String → Bool)
    → (ℕ → String)
    → (String → String)
    → List String
    → Option String
    → List String
    → Created (List String × String)
unfolding get_queues worker_name
create_worker same_connection name_of replace_slashes existing name queue_names =
    elim (get_queues same_connection queue_names) [
      | raise e ↦ raise e
      | created qs ↦ elim (worker_name name_of replace_slashes existing name) [
        | raise e ↦ raise e
        | created n ↦ created (qs, n)
      ]
    ]

-- Two lists with the same names from `c` on have the same first free one.
same_first_free :
    (name_of : ℕ → String) (xs ys : List String) (fuel c : ℕ)
    → ((k : ℕ) → c ≤ k → has_name (name_of k) xs ≡ has_name (name_of k) ys)
    → first_free name_of xs fuel c ≡ first_free name_of ys fuel c
unfolding first_free
same_first_free name_of xs ys zero c same = refl
same_first_free name_of xs ys (suc fuel) c same =
    rw (same c (omega arith))
      (rw (same_first_free name_of xs ys fuel (suc c) (λ k le. same k (omega arith))) refl)

has_name-select :
    (n m : String) (xs : List String)
    → str_eq n m ≡ false
    → has_name n (select (λ x. not (str_eq m x)) xs) ≡ has_name n xs
has_name-select n m [] other = refl
has_name-select n m (x ∷ xs) other =
    ground (arith, has_name-select n m xs other, eq_iff m x, eq_iff n x, other)

fewer_names :
    (m : String) (xs : List String) → length (select (λ x. not (str_eq m x)) xs) ≤ length xs
fewer_names m [] = omega arith
fewer_names m (x ∷ xs) = ground (arith, fewer_names m xs)

length-select-lt :
    (m : String) (xs : List String)
    → has_name m xs ≡ true
    → length (select (λ x. not (str_eq m x)) xs) < length xs
length-select-lt m [] there = absurd cc
length-select-lt m (x ∷ xs) there = elim (Bool-cases (str_eq m x)) [
  | inl same ↦ ground (arith, fewer_names m xs)
  | inr other ↦ ground (arith, length-select-lt m xs (ground (arith, other)))
]

-- The first count from `c` on whose name is free.
pub record IsFirstFree (name_of : ℕ → String) (existing : List String) (c k : ℕ) : Type 0 where
  pub from_start : c ≤ k
  pub is_free : has_name (name_of k) existing ≡ false
  pub taken_before : (j : ℕ) → c ≤ j → j < k → has_name (name_of j) existing ≡ true

first_free-IsFirstFree :
    (name_of : ℕ → String)
    → ((j k : ℕ) → j < k → str_eq (name_of k) (name_of j) ≡ false)
    → (fuel c : ℕ) (existing : List String) → length existing < fuel
    → (k : ℕ) × (first_free name_of existing fuel c ≡ some k) × IsFirstFree name_of existing c k
unfolding first_free
first_free-IsFirstFree name_of apart zero c existing p = absurd (omega arith)
first_free-IsFirstFree name_of apart (suc fuel) c existing p =
    elim (Bool-cases (has_name (name_of c) existing)) [
      | inr free ↦ (
        c,
        rw free refl,
        record {
          from_start = omega arith;
          is_free = free;
          taken_before = λ j le lt. absurd (omega arith);
        },
      )
      | inl taken ↦
          let left = select (λ x. not (str_eq (name_of c) x)) existing in
          let fewer : length left < fuel =
            ground (arith, length-select-lt (name_of c) existing taken, p) in
          let same : (k : ℕ)
              → suc c ≤ k
              → has_name (name_of k) left ≡ has_name (name_of k) existing =
            λ k le. has_name-select (name_of k) (name_of c) existing (apart c k (omega arith)) in
          let (k, e, first) = first_free-IsFirstFree name_of apart fuel (suc c) left fewer in
          (
            k,
            rw taken (sym (same_first_free name_of left existing fuel (suc c) same) ∙ e),
            record {
              from_start = omega (arith, first.from_start);
              is_free = sym (same k first.from_start) ∙ first.is_free;
              taken_before = λ j le lt. elim (Bool-cases (leb (suc c) j)) [
                | inl later ↦ sym (same j (ground arith)) ∙ first.taken_before j (ground arith) lt
                | inr here ↦ let e : j ≡ c = ground arith in rw e taken
              ];
            },
          )
    ]

-- The search for a worker's name ends, whatever names exist: it is over after at most one step more
-- than there are names, with the first name in the count that is free. Different counts give
-- different names.
pub calc_worker_name-IsFirstFree :
    (name_of : ℕ → String)
    → ((j k : ℕ) → j < k → str_eq (name_of k) (name_of j) ≡ false)
    → (existing : List String)
    → (k : ℕ) × (calc_worker_name name_of existing ≡ some (name_of k))
      × IsFirstFree name_of existing 1 k
unfolding calc_worker_name named_by
calc_worker_name-IsFirstFree name_of apart existing =
    let (k, e, first) =
      first_free-IsFirstFree name_of apart (suc (length existing)) 1 existing (omega arith) in
    (k, ap (named_by name_of) e, first)
