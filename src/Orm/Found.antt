-- ===== src/Orm/Found.antt =====
-- The counts of a table after a change to the row that an id names.
use daily_scheduler.Base.{
  ℕ, ◌≤◌, ◌≡◌, refl, Bool, none, some, List, [], ◌∷◌, arith, count, head?, select, ◌==◌, ==_iff,
  if◌then◌else◌, Bool-cases, inl, inr, ap, ◌∙◌, sym,
}
use daily_scheduler.Orm.{Table, with_id}

module _ {Row : Type 0} (id : Row → ℕ) where
  count-replace_none :
      (p : Row → Bool) (i : ℕ) (r : Row) (xs : List Row)
      → count (λ x. id x == i) xs ≡ 0
      → count (λ x. p (if id x == i then r else x)) xs ≡ count p xs
  count-replace_none p i r [] h = refl
  count-replace_none p i r (x ∷ xs) h = elim (Bool-cases (id x == i)) [
    | inl same ↦ absurd (ground arith)
    | inr other ↦ rw other (ground (arith, count-replace_none p i r xs))
  ]

  some_inj : (x r : Row) → some x ≡ some r → x ≡ r
  some_inj x r e = cc

  -- A row that replaces the only one of its id counts as that one where it passes the same tests.
  pub count-replace_found :
      (p : Row → Bool) (i : ℕ) (r new : Row) (xs : List Row)
      → count (λ x. id x == i) xs ≤ 1
      → head? (select (λ x. id x == i) xs) ≡ some r
      → p new ≡ p r
      → count (λ x. p (if id x == i then new else x)) xs ≡ count p xs
  count-replace_found p i r new [] one e h = refl
  count-replace_found p i r new (x ∷ xs) one e h = elim (Bool-cases (id x == i)) [
    | inl same ↦
        let first : x ≡ r = some_inj x r (rw same at e) in
        rw same (ground (arith, ap p first, count-replace_none p i new xs (ground arith)))
    | inr other ↦
        rw other (ground (arith, count-replace_found p i r new xs (ground arith) (rw other at e)))
  ]

  pub id_of_found :
      (i : ℕ) (r : Row) (xs : List Row) → head? (select (λ x. id x == i) xs) ≡ some r → id r ≡ i
  id_of_found i r [] e = cc
  id_of_found i r (x ∷ xs) e = elim (Bool-cases (id x == i)) [
    | inl same ↦ ap id (sym (some_inj x r (rw same at e))) ∙ (==_iff (id x) i).0 same
    | inr other ↦ id_of_found i r xs (rw other at e)
  ]

  pub none_found : (p : Row → Bool) (xs : List Row) → head? (select p xs) ≡ none → count p xs ≡ 0
  none_found p [] e = refl
  none_found p (x ∷ xs) e = ground (arith, none_found p xs)

  module _ (t : Table Row id) where
    pub count-update_found :
        (p : Row → Bool) (i : ℕ) (r new : Row) (d : t.Db)
        → count (λ x. id x == i) (t.rows d) ≤ 1
        → with_id t i d ≡ some r
        → id new ≡ id r
        → p new ≡ p r
        → count p (t.rows (t.update new d)) ≡ count p (t.rows d)
    count-update_found p i r new d one e same h =
        t.count-update p new d
        ∙ ap (λ j. count (λ x. p (if id x == j then new else x)) (t.rows d))
            (same ∙ id_of_found i r (t.rows d) e)
        ∙ count-replace_found p i r new (t.rows d) one e h

    -- A value that no row has is had by one row at most once it is inserted.
    pub count-insert_new :
        (f : Row → ℕ) (r : Row) (d : t.Db)
        → count (λ x. f x == f r) (t.rows d) ≡ 0
        → (i : ℕ) → count (λ x. f x == i) (t.rows d) ≤ 1
        → count (λ x. f x == i) (t.rows (t.insert r d)) ≤ 1
    count-insert_new f r d free i one = elim (Bool-cases (f r == i)) [
      | inl same ↦ ground (
        arith,
        t.count-insert (λ x. f x == i) r d,
        ap (λ n. count (λ x. f x == n) (t.rows d)) ((==_iff (f r) i).0 same),
      )
      | inr other ↦ ground (arith, t.count-insert (λ x. f x == i) r d)
    ]
