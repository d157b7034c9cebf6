-- ===== src/Stored/Workers/Leaving.antt =====
-- A worker that is saved stands in the sets of its queues, and one that is deleted in none.
use daily_scheduler.Base.{
  ◌≡◌, ◌∙◌, ap, String, Bool, true, false, List, [], ◌∷◌, Memᴰ, arith, eq_refl, Option,
}
use daily_scheduler.Stored.Values.{Formats}
use daily_scheduler.Stored.Hashes.{Hashes}
use daily_scheduler.Stored.Model.{Class, Instance, save}
use daily_scheduler.Stored.Names.{is_member-save}
use daily_scheduler.Stored.Workers.{join_queues, leave_queues, save_worker, delete_worker}

module _ (h : Hashes) (class_ : Class) where
  open h use {Conn, is_member, put, srem, sadd}
  open class_ use {key_for, list_key, children_key_for}

  -- Joining queues takes no name out of a set, and leaving them brings none in.
  still-join_queues :
      (qs : List String) (name s n : String) (c : Conn)
      → is_member s n c ≡ true
      → is_member s n (join_queues h class_ qs name c) ≡ true
  unfolding join_queues
  still-join_queues [] name s n c there = there
  still-join_queues (q ∷ qs) name s n c there =
      still-join_queues qs name s n (sadd (children_key_for q) name c)
        (ground (arith, h.is_member-sadd (children_key_for q) name s n c))

  still-leave_queues :
      (qs : List String) (name s n : String) (c : Conn)
      → is_member s n c ≡ false
      → is_member s n (leave_queues h class_ qs name c) ≡ false
  unfolding leave_queues
  still-leave_queues [] name s n c gone = gone
  still-leave_queues (q ∷ qs) name s n c gone =
      still-leave_queues qs name s n (srem (children_key_for q) name c)
        (ground (arith, h.is_member-srem (children_key_for q) name s n c))

  is_member-join_queues :
      (qs : List String) (name q : String) (c : Conn)
      → Memᴰ q qs
      → is_member (children_key_for q) name (join_queues h class_ qs name c) ≡ true
  unfolding join_queues
  is_member-join_queues [] name q c m = elim m [ ]
  is_member-join_queues (x ∷ xs) name q c (Memᴰ.head e) =
      ap
        (λ y.
          is_member (children_key_for y) name
            (join_queues h class_ xs name (sadd (children_key_for x) name c)))
        e
      ∙ still-join_queues xs name (children_key_for x) name (sadd (children_key_for x) name c) (
          ground (
            arith,
            h.is_member-sadd (children_key_for x) name (children_key_for x) name c,
            eq_refl (children_key_for x),
            eq_refl name,
          ))
  is_member-join_queues (x ∷ xs) name q c (Memᴰ.tail m) =
      is_member-join_queues xs name q (sadd (children_key_for x) name c) m

  is_member-leave_queues :
      (qs : List String) (name q : String) (c : Conn)
      → Memᴰ q qs
      → is_member (children_key_for q) name (leave_queues h class_ qs name c) ≡ false
  unfolding leave_queues
  is_member-leave_queues [] name q c m = elim m [ ]
  is_member-leave_queues (x ∷ xs) name q c (Memᴰ.head e) =
      ap
        (λ y.
          is_member (children_key_for y) name
            (leave_queues h class_ xs name (srem (children_key_for x) name c)))
        e
      ∙ still-leave_queues xs name (children_key_for x) name (srem (children_key_for x) name c) (
          ground (
            arith,
            h.is_member-srem (children_key_for x) name (children_key_for x) name c,
            eq_refl (children_key_for x),
            eq_refl name,
          ))
  is_member-leave_queues (x ∷ xs) name q c (Memᴰ.tail m) =
      is_member-leave_queues xs name q (srem (children_key_for x) name c) m

  -- A worker that is saved stands among all workers and in the set of each of its queues, and after
  -- it is deleted, whenever that is, it stands among neither.
  pub is_member-delete_worker :
      (f : Formats) (all : Bool) (now q : String) (queue_names : List String) (m : Instance)
      (c later : Conn)
      → Memᴰ q queue_names
      → let saved = (save_worker h class_ f all queue_names m c).1 in
        let deleted = delete_worker h class_ now queue_names m later in
        (is_member list_key m.name saved ≡ true)
        × (is_member (children_key_for q) m.name saved ≡ true)
        × (is_member list_key m.name deleted ≡ false)
        × (is_member (children_key_for q) m.name deleted ≡ false)
  unfolding save_worker delete_worker
  is_member-delete_worker f all now q queue_names m c later named =
      let saved = (save h f class_ all m c).1 in
      let dead = put (key_for m.name) "death" (Option.some now) later in
      (
        still-join_queues queue_names m.name list_key m.name saved
            (is_member-save h f class_ all m c),
        is_member-join_queues queue_names m.name q saved named,
        still-leave_queues queue_names m.name list_key m.name (srem list_key m.name dead) (
            ground (
              arith,
              h.is_member-srem list_key m.name list_key m.name dead,
              eq_refl list_key,
              eq_refl m.name,
            )),
        is_member-leave_queues queue_names m.name q (srem list_key m.name dead) named,
      )
