-- ===== src/Base/Lists.antt =====
-- Lists measured by native numbers, and the counts of the rows that pass a test.
use Prim.Native.Nat.{ℕ, zero, suc, ◌+◌, ◌≤◌}
use mathlib.Core.Path.{◌≡◌, refl, ap}
use mathlib.Core.Bool.{Bool, true, false, not, ◌&&◌}
use mathlib.Core.List.{List, [], ◌∷◌, ◌++◌, Memᴰ}
use mathlib.Core.Option.{Option, none, some}
use native.Mathlib.Omega.{arith}
use daily_scheduler.Base.Tests.{if◌then◌else◌}

module _ {ℓ} {A : Type ℓ} where
  abbrev pub length : List A → ℕ
  length [] = 0
  length (x ∷ xs) = suc (length xs)

  abbrev pub take : ℕ → List A → List A
  take zero xs = []
  take (suc n) [] = []
  take (suc n) (x ∷ xs) = x ∷ take n xs

  abbrev pub drop : ℕ → List A → List A
  drop zero xs = xs
  drop (suc n) [] = []
  drop (suc n) (x ∷ xs) = drop n xs

  -- The elements that pass a test, in their order.
  abbrev pub select : (A → Bool) → List A → List A
  select p [] = []
  select p (x ∷ xs) = let rest = select p xs in if p x then x ∷ rest else rest

  -- How many elements pass a test.
  abbrev pub count : (A → Bool) → List A → ℕ
  count p [] = 0
  count p (x ∷ xs) = (if p x then 1 else 0) + count p xs

  abbrev pub head? : List A → Option A
  head? [] = none
  head? (x ∷ xs) = some x

  pub length-append : (xs ys : List A) → length (xs ++ ys) ≡ length xs + length ys
  length-append [] ys = omega arith
  length-append (x ∷ xs) ys = omega (arith, length-append xs ys)

  pub count-le-length : (p : A → Bool) (xs : List A) → count p xs ≤ length xs
  count-le-length p [] = omega arith
  count-le-length p (x ∷ xs) = ground (arith, count-le-length p xs)

  pub length-select : (p : A → Bool) (xs : List A) → length (select p xs) ≡ count p xs
  length-select p [] = refl
  length-select p (x ∷ xs) = ground (arith, length-select p xs)

  pub count-and-le : (p q : A → Bool) (xs : List A) → count (λ x. p x && q x) xs ≤ count p xs
  count-and-le p q [] = omega arith
  count-and-le p q (x ∷ xs) = ground (arith, count-and-le p q xs)

  pub count-split :
      (p q : A → Bool) (xs : List A)
      → count p xs ≡ count (λ x. p x && q x) xs + count (λ x. p x && not (q x)) xs
  count-split p q [] = omega arith
  count-split p q (x ∷ xs) = ground (arith, count-split p q xs)

  -- No element of a list passes a test that none of its elements is counted by.
  pub false_of_count-zero :
      (p : A → Bool) (xs : List A) {x : A} → count p xs ≡ 0 → Memᴰ x xs → p x ≡ false
  false_of_count-zero p [] h m = elim m [ ]
  false_of_count-zero p (y ∷ ys) h (Memᴰ.head e) = ground (arith, ap p e)
  false_of_count-zero p (y ∷ ys) h (Memᴰ.tail m) = false_of_count-zero p ys (ground arith) m

  pub count_mono :
      (p q : A → Bool) (xs : List A) → ((x : A) → p x ≡ true → q x ≡ true) → count p xs ≤ count q xs
  count_mono p q [] h = omega arith
  count_mono p q (x ∷ xs) h = ground (arith, h x, count_mono p q xs h)
