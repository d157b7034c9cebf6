-- ===== src/Base/Sorting.antt =====
-- Sorting by a key, as Python's stable `list.sort(key=…)` does it: elements of one key stay in their
-- order.
use Prim.Native.Nat.{ℕ, ◌+◌, ◌≤◌}
use mathlib.Core.Path.{◌≡◌, refl}
use mathlib.Core.Logic.{inl, inr}
use mathlib.Core.Bool.{Bool}
use mathlib.Core.List.{List, [], ◌∷◌}
use native.Mathlib.Omega.{arith}
use daily_scheduler.Base.Tests.{ltb, leb, ◌==◌, if◌then◌else◌, Bool-cases}
use daily_scheduler.Base.Lists.{count, select}

module _ {A : Type 0} (key : A → ℕ) where
  -- No key is above one that stands behind it.
  abbrev pub IsSorted : List A → Type 0
  IsSorted [] = Unit {0}
  IsSorted (x ∷ xs) = (count (λ y. ltb (key y) (key x)) xs ≡ 0) × IsSorted xs

  insert_by : A → List A → List A
  insert_by x [] = x ∷ []
  insert_by x (y ∷ ys) =
      let rest = insert_by x ys in if leb (key x) (key y) then x ∷ y ∷ ys else y ∷ rest

  unfoldable pub sort_by : List A → List A
  unfolding insert_by
  sort_by [] = []
  sort_by (x ∷ xs) = insert_by x (sort_by xs)

  count-insert_by :
      (p : A → Bool) (x : A) (ys : List A)
      → count p (insert_by x ys) ≡ (if p x then 1 else 0) + count p ys
  unfolding insert_by
  count-insert_by p x [] = refl
  count-insert_by p x (y ∷ ys) = ground (arith, count-insert_by p x ys)

  pub count-sort_by : (p : A → Bool) (xs : List A) → count p (sort_by xs) ≡ count p xs
  unfolding sort_by
  count-sort_by p [] = refl
  count-sort_by p (x ∷ xs) = omega (arith, count-insert_by p x (sort_by xs), count-sort_by p xs)

  count-above :
      (n m : ℕ) (ys : List A)
      → n ≤ m
      → count (λ y. ltb (key y) m) ys ≡ 0
      → count (λ y. ltb (key y) n) ys ≡ 0
  count-above n m [] le h = refl
  count-above n m (y ∷ ys) le h = ground (arith, count-above n m ys)

  insert_by-IsSorted : (x : A) (ys : List A) → IsSorted ys → IsSorted (insert_by x ys)
  unfolding insert_by
  insert_by-IsSorted x [] h = (refl, tt)
  insert_by-IsSorted x (y ∷ ys) (above, sorted) = elim (Bool-cases (leb (key x) (key y))) [
    | inl before ↦ rw before ((ground (arith, count-above (key x) (key y) ys), (above, sorted)))
    | inr behind ↦ rw behind (
        (
          ground (arith, count-insert_by (λ z. ltb (key z) (key y)) x ys),
          insert_by-IsSorted x ys sorted,
        ))
  ]

  pub sort_by-IsSorted : (xs : List A) → IsSorted (sort_by xs)
  unfolding sort_by
  sort_by-IsSorted [] = tt
  sort_by-IsSorted (x ∷ xs) = insert_by-IsSorted x (sort_by xs) (sort_by-IsSorted xs)

  select-insert_by :
      (k : ℕ) (x : A) (ys : List A)
      → select (λ y. key y == k) (insert_by x ys) ≡ select (λ y. key y == k) (x ∷ ys)
  unfolding insert_by
  select-insert_by k x [] = refl
  select-insert_by k x (y ∷ ys) = ground (arith, select-insert_by k x ys)

  -- Sorting keeps the order of the elements of one key.
  pub select-sort_by :
      (k : ℕ) (xs : List A) → select (λ y. key y == k) (sort_by xs) ≡ select (λ y. key y == k) xs
  unfolding sort_by
  select-sort_by k [] = refl
  select-sort_by k (x ∷ xs) = ground (arith, select-insert_by k x (sort_by xs), select-sort_by k xs)
