-- ===== src/Orm/Memory.antt =====
-- A table held as the list of its rows, which shows that the assumptions on the database can hold.
use Prim.Native.Nat.{max}
use daily_scheduler.Base.{
  ℕ, suc, ◌<◌, ◌≡◌, refl, Bool, ◌&&◌, not, List, [], ◌∷◌, map, arith, count, select, ◌==◌,
  if◌then◌else◌,
}
use daily_scheduler.Base.Sorting.{sort_by, count-sort_by, sort_by-IsSorted}
use daily_scheduler.Orm.{Table, OrderBy}

module _ {Row : Type 0} (id : Row → ℕ) where
  abbrev pub largest_id : List Row → ℕ
  largest_id [] = 0
  largest_id (x ∷ xs) = max (id x) (largest_id xs)

  pub count-map :
      (p : Row → Bool) (f : Row → Row) (xs : List Row)
      → count p (map f xs) ≡ count (λ x. p (f x)) xs
  count-map p f [] = refl
  count-map p f (x ∷ xs) = ground (arith, count-map p f xs)

  pub count-select :
      (p q : Row → Bool) (xs : List Row)
      → count p (select (λ x. not (q x)) xs) ≡ count (λ x. p x && not (q x)) xs
  count-select p q [] = refl
  count-select p q (x ∷ xs) = ground (arith, count-select p q xs)

  pub no-larger : (n : ℕ) (xs : List Row) → largest_id xs < n → count (λ x. id x == n) xs ≡ 0
  no-larger n [] h = refl
  no-larger n (x ∷ xs) h = ground (arith, no-larger n xs)

  abbrev pub list_table : Table Row id
  list_table = record {
    Db = List Row;
    rows = λ d. d;
    next_id = λ d. suc (largest_id d);
    insert = λ r d. r ∷ d;
    update = λ r d. map (λ x. if id x == id r then r else x) d;
    delete = λ q d. select (λ x. not (q x)) d;
    count-insert = λ p r d. refl;
    count-update = λ p r d. count-map p _ d;
    count-delete = λ p q d. count-select p q d;
    next_id_fresh = λ d. no-larger (suc (largest_id d)) d (omega arith);
  }

  abbrev pub list_order : OrderBy list_table
  list_order = record {
    ordered = sort_by;
    count-ordered = λ key p d. count-sort_by key p d;
    ordered-IsSorted = λ key d. sort_by-IsSorted key d;
  }
