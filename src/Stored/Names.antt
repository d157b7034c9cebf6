-- ===== src/Stored/Names.antt =====
-- The set of the names of all models of a class: HashModel.save and delete.
use daily_scheduler.Base.{
  ◌≡◌, refl, ◌∙◌, String, Bool, true, false, ◌||◌, Option, none, some, List, [], ◌∷◌, str_eq, arith,
  eq_refl, Bool-cases, inl, inr,
}
use daily_scheduler.Stored.Values.{Formats, serialize}
use daily_scheduler.Stored.Hashes.{Hashes}
use daily_scheduler.Stored.Model.{
  Class, Instance, has_text, add_to_parent, remove_from_parent, write_fields, save, delete,
}

module _ (h : Hashes) (f : Formats) (class_ : Class) where
  open h use {Conn, is_member, put}
  open class_ use {list_key, key_for, children_key_for}

  is_member-write_fields :
      (all : Bool) (m : Instance) (xs : List String) (s n : String) (c : Conn)
      → is_member s n (write_fields h f class_ all m xs c) ≡ is_member s n c
  unfolding write_fields
  is_member-write_fields all m [] s n c = refl
  is_member-write_fields all m (y ∷ ys) s n c =
      elim (Bool-cases (all || has_text y m.dirty_fields)) [
        | inl due ↦ rw due (
            is_member-write_fields all m ys s n
              (put (key_for m.name) y (serialize f (m.values y)) c)
            ∙ h.is_member-put s n (key_for m.name) y (serialize f (m.values y)) c)
        | inr kept ↦ rw kept (is_member-write_fields all m ys s n c)
      ]

  is_member-add_to_parent :
      (o : Option String) (n m : String) (c : Conn)
      → is_member list_key m c ≡ true
      → is_member list_key m (add_to_parent h f class_ o n c) ≡ true
  unfolding add_to_parent
  is_member-add_to_parent none n m c there = there
  is_member-add_to_parent (some p) n m c there =
      ground (arith, h.is_member-sadd (children_key_for p) n list_key m c)

  -- A saved model is among the names of its class.
  pub is_member-save :
      (all : Bool) (m : Instance) (c : Conn)
      → is_member list_key m.name (save h f class_ all m c).1 ≡ true
  unfolding save
  is_member-save all m c =
      let listed = h.sadd list_key m.name c in
      let there : is_member list_key m.name listed ≡ true = ground (
        arith,
        h.is_member-sadd list_key m.name list_key m.name c,
        eq_refl list_key,
        eq_refl m.name,
      ) in
      is_member-write_fields (all || m.save_all) m class_.fields list_key m.name
        (add_to_parent h f class_ m.parent m.name listed)
      ∙ is_member-add_to_parent m.parent m.name m.name listed there

  is_member-remove_from_parent :
      (o : Option String) (k n : String) (c : Conn)
      → ((p : String) → str_eq (children_key_for p) list_key ≡ false)
      → is_member list_key n (remove_from_parent h f class_ o k c) ≡ is_member list_key n c
  unfolding remove_from_parent
  is_member-remove_from_parent none k n c apart = refl
  is_member-remove_from_parent (some p) k n c apart = ground (
    arith,
    apart p,
    h.is_member-srem (children_key_for p) k list_key n (h.srem (children_key_for p) "0" c),
    h.is_member-srem (children_key_for p) "0" list_key n c,
  )

  is_member_of_delete :
      (m : Instance) (c : Conn)
      → ((p : String) → str_eq (children_key_for p) list_key ≡ false)
      → str_eq (key_for m.name) list_key ≡ false
      → str_eq (key_for m.name) m.name ≡ false
      → is_member list_key m.name c ≡ true
      → is_member list_key m.name (delete h f class_ m c).1 ≡ true
  unfolding delete
  is_member_of_delete m c apart hash_apart named there =
      let k = key_for m.name in
      let out = h.srem list_key k c in
      ground (
        arith,
        h.is_member-del k list_key m.name (remove_from_parent h f class_ m.parent k out),
        is_member-remove_from_parent m.parent k m.name out apart,
        h.is_member-srem list_key k list_key m.name c,
      )

  -- Deleting a model that was saved leaves its name among the names of its class: what is taken out of
  -- the set is the key of the model, where the key of a model is not its name and the keys of the
  -- sets of children and of the hash are not that of the set of all names.
  pub is_member-delete :
      (all : Bool) (m : Instance) (c : Conn)
      → ((p : String) → str_eq (children_key_for p) list_key ≡ false)
      → str_eq (key_for m.name) list_key ≡ false
      → str_eq (key_for m.name) m.name ≡ false
      → is_member list_key m.name
          (delete h f class_ (save h f class_ all m c).0 (save h f class_ all m c).1).1
        ≡ true
  unfolding save
  is_member-delete all m c apart hash_apart named =
      is_member_of_delete (save h f class_ all m c).0 (save h f class_ all m c).1 apart hash_apart
        named (is_member-save all m c)
