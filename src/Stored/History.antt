-- ===== src/Stored/History.antt =====
-- A model's whole history: any sequence of assignments and saves.
use daily_scheduler.Base.{◌≡◌, String, Bool, true, List, [], ◌∷◌}
use daily_scheduler.Stored.Values.{Value, Formats, HasType}
use daily_scheduler.Stored.Hashes.{Hashes}
use daily_scheduler.Stored.Model.{Class, Instance, has_text, set_attr, save, set_field, get_field}
use daily_scheduler.Stored.Sync.{
  IsSynced, save-IsSynced, set_attr-IsSynced, set_field-IsSynced, get_field-save,
}

-- What a process does with a model: an attribute is set, a field is set in the model and in the
-- hash, or the model is saved, all of it or not.
pub data Operation : Type 0 where
  assign assign_stored : String → Value → Operation
  store : Bool → Operation

module _ (h : Hashes) (f : Formats) (class_ : Class) where
  open h use {Conn}

  abbrev pub operate : Operation → Instance × Conn → Instance × Conn
  operate (assign field v) (m, c) = (set_attr field v m, c)
  operate (assign_stored field v) (m, c) = set_field h f class_ field v true m c
  operate (store all) (m, c) = save h f class_ all m c

  abbrev pub operate_all : List Operation → Instance × Conn → Instance × Conn
  operate_all [] s = s
  operate_all (o ∷ os) s = operate_all os (operate o s)

  operate-IsSynced :
      (o : Operation) (s : Instance × Conn)
      → IsSynced h f class_ s.0 s.1
      → IsSynced h f class_ (operate o s).0 (operate o s).1
  operate-IsSynced (assign field v) (m, c) synced = set_attr-IsSynced h f class_ field v m c synced
  operate-IsSynced (assign_stored field v) (m, c) synced =
      set_field-IsSynced h f class_ field v m c synced
  operate-IsSynced (store all) (m, c) synced = save-IsSynced h f class_ all m c synced

  operate_all-IsSynced :
      (os : List Operation) (s : Instance × Conn)
      → IsSynced h f class_ s.0 s.1
      → IsSynced h f class_ (operate_all os s).0 (operate_all os s).1
  operate_all-IsSynced [] s synced = synced
  operate_all-IsSynced (o ∷ os) s synced =
      operate_all-IsSynced os (operate o s) (operate-IsSynced o s synced)

  -- Whatever is done to a new model, a save then leaves each of its fields in the broker: reading one
  -- back gives the model's value, although the save writes only what was set since the last one. The
  -- value is of the field's type, and no other process writes the hash.
  pub get_field-operate_all :
      (os : List Operation) (m : Instance) (c : Conn) (all : Bool) (x : String)
      → m.save_all ≡ true
      → has_text x class_.fields ≡ true
      → HasType f ((operate_all os (m, c)).0.values x) (class_.field_type x)
      → get_field h f class_ x
          (operate_all os (m, c)).0
          (save h f class_ all (operate_all os (m, c)).0 (operate_all os (m, c)).1).1
        ≡ (operate_all os (m, c)).0.values x
  get_field-operate_all os m c all x new mine typed =
      get_field-save h f class_ all (operate_all os (m, c)).0 (operate_all os (m, c)).1 x
        (operate_all-IsSynced os (m, c) (λ off y its clean. absurd cc)) mine typed
