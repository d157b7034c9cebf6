-- ===== src/Stored/Model.antt =====
-- The class HashModel of scheduler/redis_models/base.py: a model remembers the fields that were set
-- since it was last saved, and saves these alone.
use daily_scheduler.Base.{
  String, Bool, true, false, ◌||◌, Option, none, some, List, [], ◌∷◌, str_eq, if◌then◌else◌,
}
use daily_scheduler.Stored.Values.{Value, FieldType, Formats, serialize, deserialize}
use daily_scheduler.Stored.Hashes.{Hashes}

-- A class: its public fields with their types, and the templates of its keys.
pub record Class : Type 0 where
  pub fields : List String
  pub field_type : String → FieldType
  pub key_for : String → String
  pub list_key : String
  pub children_key_for : String → String

-- An instance: `_dirty_fields` and `_save_all` beside the values of its fields.
pub record Instance : Type 0 where
  pub name : String
  pub parent : Option String
  pub values : String → Value
  pub dirty_fields : List String
  pub save_all : Bool

abbrev pub has_text : String → List String → Bool
has_text x [] = false
has_text x (y ∷ ys) = str_eq x y || has_text x ys

-- HashModel.__setattr__ for a public field that is neither the name nor the parent.
unfoldable pub set_attr : String → Value → Instance → Instance
set_attr field v m = record m {
  values = λ x. if str_eq field x then v else m.values x;
  dirty_fields = field ∷ m.dirty_fields;
}

module _ (h : Hashes) (f : Formats) (class_ : Class) where
  open h use {Conn, hget, put, del, sadd, srem}
  open class_ use {fields, field_type, key_for, list_key, children_key_for}

  unfoldable pub add_to_parent : Option String → String → Conn → Conn
  add_to_parent none n c = c
  add_to_parent (some p) n c = sadd (children_key_for p) n c

  unfoldable pub remove_from_parent : Option String → String → Conn → Conn
  remove_from_parent none n c = c
  remove_from_parent (some p) n c = srem (children_key_for p) n (srem (children_key_for p) "0" c)

  -- The fields that a save writes, each set or deleted.
  unfoldable pub write_fields : Bool → Instance → List String → Conn → Conn
  write_fields all m [] c = c
  write_fields all m (x ∷ xs) c = write_fields all m xs (
      if all || has_text x m.dirty_fields
      then put (key_for m.name) x (serialize f (m.values x)) c
      else c)

  -- HashModel.save
  unfoldable pub save : Bool → Instance → Conn → Instance × Conn
  unfolding write_fields add_to_parent
  save all m c = (
    record m { dirty_fields = []; save_all = false },
    write_fields (all || m.save_all) m fields
        (add_to_parent m.parent m.name (sadd list_key m.name c)),
  )

  -- HashModel.delete
  unfoldable pub delete : Instance → Conn → Instance × Conn
  unfolding remove_from_parent
  delete m c = (
    record m { save_all = true },
    del (key_for m.name)
        (remove_from_parent m.parent (key_for m.name) (srem list_key (key_for m.name) c)),
  )

  -- HashModel.get_field
  unfoldable pub get_field : String → Instance → Conn → Value
  get_field field m c = deserialize f (field_type field) (hget (key_for m.name) field c)

  -- HashModel.set_field
  unfoldable pub set_field : String → Value → Bool → Instance → Conn → Instance × Conn
  unfolding set_attr
  set_field field v set_attribute m c = (
    if set_attribute then set_attr field v m else m,
    put (key_for m.name) field (serialize f v) c,
  )
