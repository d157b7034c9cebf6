-- ===== src/Orm.antt =====
-- A database table of Django as the views use it. The database is not part of the repository: its
-- operations and what its documentation says of them are the fields of this record. A queryset
-- `filter(…)` is read as a test on rows, `.count()` as `count` of the test over `rows`, and
-- `.exists()` as a count above 0.
pub mod Memory
pub mod Found
use daily_scheduler.Base.{
  ℕ, ◌+◌, ◌≡◌, Bool, ◌&&◌, not, List, [], ◌∷◌, arith, count, ltb, ◌==◌, if◌then◌else◌, Option,
  head?, select,
}
use daily_scheduler.Base.Sorting.{IsSorted}

pub record Table (Row : Type 0) (id : Row → ℕ) : Type 1 where
  pub Db : Type 0
  -- `objects.all()`, and the id that the next row is given.
  pub rows : Db → List Row
  pub next_id : Db → ℕ
  -- `objects.create(…)` of a row under its id, `row.save()` of a row that is there, and
  -- `queryset.delete()` of the rows that pass a test.
  pub insert : Row → Db → Db
  pub update : Row → Db → Db
  pub delete : (Row → Bool) → Db → Db
  pub count-insert :
      (p : Row → Bool) (r : Row) (d : Db)
      → count p (rows (insert r d)) ≡ (if p r then 1 else 0) + count p (rows d)
  pub count-update :
      (p : Row → Bool) (r : Row) (d : Db)
      → count p (rows (update r d)) ≡ count (λ x. p (if id x == id r then r else x)) (rows d)
  pub count-delete :
      (p q : Row → Bool) (d : Db)
      → count p (rows (delete q d)) ≡ count (λ x. p x && not (q x)) (rows d)
  pub next_id_fresh : (d : Db) → count (λ x. id x == next_id d) (rows d) ≡ 0

module _ {Row : Type 0} {id : Row → ℕ} (t : Table Row id) where
  -- `queryset.exists()`
  abbrev pub exists : (Row → Bool) → t.Db → Bool
  exists p d = ltb 0 (count p (t.rows d))

  -- `objects.filter(id=…).first()`, which get_object_or_404 reads, too.
  abbrev pub with_id : ℕ → t.Db → Option Row
  with_id i d = head? (select (λ x. id x == i) (t.rows d))

-- `order_by` of a table: its rows, from the lowest key to the highest.
pub record OrderBy {Row : Type 0} {id : Row → ℕ} (t : Table Row id) : Type 1 where
  pub ordered : (Row → ℕ) → t.Db → List Row
  pub count-ordered :
      (key : Row → ℕ) (p : Row → Bool) (d : t.Db) → count p (ordered key d) ≡ count p (t.rows d)
  pub ordered-IsSorted : (key : Row → ℕ) (d : t.Db) → IsSorted key (ordered key d)
