-- ===== src/Stored/Sync.antt =====
-- A model and its hash: what the broker keeps is what the model says, but for the fields that were
-- set since the last save.
use daily_scheduler.Base.{
  ◌≡◌, refl, String, Bool, true, false, ◌||◌, ◌&&◌, Option, none, some, List, [], ◌∷◌, str_eq,
  arith, eq_refl, eq_iff, Bool-cases, inl, inr, if◌then◌else◌,
}
use daily_scheduler.Stored.Values.{Value, Formats, serialize, HasType, deserialize-serialize}
use daily_scheduler.Stored.Hashes.{Hashes}
use daily_scheduler.Stored.Model.{
  Class, Instance, has_text, set_attr, add_to_parent, write_fields, save, get_field, set_field,
}

module _ (h : Hashes) (f : Formats) (class_ : Class) where
  open h use {Conn, hget, put, is_member}
  open class_ use {fields, field_type, key_for}

  -- One field's cell.
  abbrev pub IsStored : Instance → String → Conn → Type 0
  IsStored m x c = hget (key_for m.name) x c ≡ serialize f (m.values x)

  -- Every field is stored, but for those that the next save will write.
  abbrev pub IsSynced : Instance → Conn → Type 0
  IsSynced m c =
      m.save_all ≡ false
      → (x : String) → has_text x fields ≡ true
      → has_text x m.dirty_fields ≡ false
      → IsStored m x c

  -- One field's cell as `write_fields` leaves it.
  hget-write_fields :
      (all : Bool) (m : Instance) (xs : List String) (x : String) (c : Conn)
      → hget (key_for m.name) x (write_fields h f class_ all m xs c) ≡ (
          if has_text x xs && (all || has_text x m.dirty_fields)
          then serialize f (m.values x)
          else hget (key_for m.name) x c)
  unfolding write_fields
  hget-write_fields all m [] x c = refl
  hget-write_fields all m (y ∷ ys) x c =
      let due = all || has_text y m.dirty_fields in
      let put_y = put (key_for m.name) y (serialize f (m.values y)) c in
      let there = hget-write_fields all m ys x (if due then put_y else c) in
      let changed = h.hget-put (key_for m.name) y (serialize f (m.values y)) (key_for m.name) x c in
      elim (Bool-cases (str_eq x y)) [
        | inl same ↦
            let e : x ≡ y = (eq_iff x y).0 same in
            ground (arith, there, changed, e, eq_refl y, eq_refl (key_for m.name))
        | inr other ↦ ground (arith, there, changed, other, eq_iff y x, eq_refl x)
      ]

  hget-add_to_parent :
      (o : Option String) (n k x : String) (c : Conn)
      → hget k x (add_to_parent h f class_ o n c) ≡ hget k x c
  unfolding add_to_parent
  hget-add_to_parent none n k x c = refl
  hget-add_to_parent (some p) n k x c = h.hget-sadd _ n k x c

  -- One field's cell after a save: written if all are, or if it was set since the last one.
  hget-save :
      (all : Bool) (m : Instance) (x : String) (c : Conn)
      → hget (key_for m.name) x (save h f class_ all m c).1 ≡ (
          if has_text x fields && ((all || m.save_all) || has_text x m.dirty_fields)
          then serialize f (m.values x)
          else hget (key_for m.name) x c)
  unfolding save
  hget-save all m x c =
      let added = add_to_parent h f class_ m.parent m.name (h.sadd class_.list_key m.name c) in
      ground (
        arith,
        hget-write_fields (all || m.save_all) m fields x added,
        hget-add_to_parent m.parent m.name (key_for m.name) x (h.sadd class_.list_key m.name c),
        h.hget-sadd class_.list_key m.name (key_for m.name) x c,
      )

  -- After a save every field is stored, although only the fields that were set are written, and
  -- reading a field back gives its value.
  pub save-IsStored :
      (all : Bool) (m : Instance) (c : Conn) (x : String)
      → IsSynced m c
      → has_text x fields ≡ true
      → IsStored m x (save h f class_ all m c).1
  save-IsStored all m c x synced mine =
      elim (Bool-cases ((all || m.save_all) || has_text x m.dirty_fields)) [
        | inl due ↦ ground (arith, hget-save all m x c)
        | inr kept ↦
            let before = synced (ground arith) x mine (ground arith) in
            ground (arith, hget-save all m x c)
      ]

  pub get_field-save :
      (all : Bool) (m : Instance) (c : Conn) (x : String)
      → IsSynced m c
      → has_text x fields ≡ true
      → HasType f (m.values x) (field_type x)
      → get_field h f class_ x m (save h f class_ all m c).1 ≡ m.values x
  unfolding get_field
  get_field-save all m c x synced mine typed =
      rw (save-IsStored all m c x synced mine)
        (deserialize-serialize f (field_type x) (m.values x) typed)

  -- The invariant: it holds after a save, and setting an attribute or a field keeps it.
  pub save-IsSynced :
      (all : Bool) (m : Instance) (c : Conn)
      → IsSynced m c
      → IsSynced (save h f class_ all m c).0 (save h f class_ all m c).1
  unfolding save
  save-IsSynced all m c synced off x mine clean = save-IsStored all m c x synced mine

  pub set_attr-IsSynced :
      (field : String) (v : Value) (m : Instance) (c : Conn)
      → IsSynced m c
      → IsSynced (set_attr field v m) c
  unfolding set_attr
  set_attr-IsSynced field v m c synced off x mine clean =
      let other : str_eq field x ≡ false =
        ground (arith, eq_iff x field, eq_refl field, eq_refl x, eq_iff field x) in
      rw other (synced off x mine (ground arith))

  pub set_field-IsSynced :
      (field : String) (v : Value) (m : Instance) (c : Conn)
      → IsSynced m c
      → IsSynced (set_field h f class_ field v true m c).0 (set_field h f class_ field v true m c).1
  unfolding set_field set_attr
  set_field-IsSynced field v m c synced off x mine clean =
      let other : str_eq field x ≡ false =
        ground (arith, eq_iff x field, eq_refl field, eq_refl x, eq_iff field x) in
      let before = synced off x mine (ground arith) in
      let changed = h.hget-put (key_for m.name) field (serialize f v) (key_for m.name) x c in
      rw other (ground (arith, changed, other, before))
