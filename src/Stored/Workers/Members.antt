-- ===== src/Stored/Workers/Members.antt =====
-- Which names the sets of workers hold after a cleanup, and after a worker comes and goes.
use daily_scheduler.Base.{
  ℕ, zero, suc, ◌≤◌, ◌≡◌, refl, ap, ◌∙◌, String, Bool, false, not, ◌&&◌, ◌||◌, Option, none, some,
  List, [], ◌∷◌, ◌++◌, arith, take, drop, length, select, str_eq, eq_iff, if◌then◌else◌, Bool-cases,
  inl, inr,
}
use daily_scheduler.Stored.Hashes.{Hashes}
use daily_scheduler.Stored.Model.{Class}
use daily_scheduler.Stored.Workers.{
  is_listed, Listing, split_from, split_list, max_keys, srem_all, remove_subset, remove_subsets,
  all_names, remove_invalid, cleanup_workers,
}

abbrev join : List (List String) → List String
join [] = []
join (xs ∷ xss) = xs ++ join xss

append_assoc_take : (n : ℕ) (xs : List String) → take n xs ++ drop n xs ≡ xs
append_assoc_take zero xs = refl
append_assoc_take (suc n) [] = refl
append_assoc_take (suc n) (x ∷ xs) = ap (λ ys. x ∷ ys) (append_assoc_take n xs)

length-drop : (n : ℕ) (xs : List String) → length (drop n xs) ≤ length xs
length-drop zero xs = omega arith
length-drop (suc n) [] = omega arith
length-drop (suc n) (x ∷ xs) = omega (arith, length-drop n xs)

join-split_from :
    (rounds size : ℕ) (xs : List String)
    → length xs ≤ rounds
    → join (split_from rounds (suc size) xs) ≡ xs
unfolding split_from
join-split_from zero size [] h = refl
join-split_from zero size (x ∷ xs) h = absurd (omega (arith, h))
join-split_from (suc rounds) size [] h = refl
join-split_from (suc rounds) size (x ∷ xs) h =
    ap (λ ys. x ∷ (take size xs ++ ys))
      (join-split_from rounds size (drop size xs) (omega (arith, h, length-drop size xs)))
    ∙ ap (λ ys. x ∷ ys) (append_assoc_take size xs)

-- The parts of a list, of a size above 0, are the list again.
pub join-split_list : (xs : List String) (size : ℕ) → join (split_list xs (suc size)) ≡ xs
unfolding split_list
join-split_list xs size = join-split_from (length xs) size xs (omega arith)

is_listed-append :
    (n : String) (xs ys : List String) → is_listed n (xs ++ ys) ≡ (is_listed n xs || is_listed n ys)
is_listed-append n [] ys = refl
is_listed-append n (x ∷ xs) ys = ground (arith, is_listed-append n xs ys)

is_listed-select :
    (p : String → Bool) (n : String) (xs : List String)
    → is_listed n (select p xs) ≡ (is_listed n xs && p n)
is_listed-select p n [] = refl
is_listed-select p n (x ∷ xs) = elim (Bool-cases (str_eq x n)) [
  | inl same ↦ ground (arith, ap p ((eq_iff x n).0 same), is_listed-select p n xs)
  | inr other ↦ ground (arith, is_listed-select p n xs)
]

module _ (h : Hashes) (class_ : Class) where
  open h use {Conn, is_member, srem}
  open class_ use {key_for, list_key, children_key_for}

  is_member-srem_all :
      (s : String) (ns : List String) (s' n' : String) (c : Conn)
      → is_member s' n' (srem_all h class_ s ns c)
        ≡ (if str_eq s s' && is_listed n' ns then false else is_member s' n' c)
  unfolding srem_all
  is_member-srem_all s [] s' n' c = ground arith
  is_member-srem_all s (n ∷ ns) s' n' c =
      ground (arith, is_member-srem_all s ns s' n' (srem s n c), h.is_member-srem s n s' n' c)

  -- Whether a set is one of those that a cleanup goes over.
  abbrev pub is_cleaned : Option String → String → Bool
  is_cleaned none s = str_eq list_key s
  is_cleaned (some q) s = str_eq list_key s || str_eq (children_key_for q) s

  is_member-remove_subset :
      (queue_name : Option String) (ns : List String) (s n : String) (c : Conn)
      → is_member s n (remove_subset h class_ queue_name ns c)
        ≡ (if is_cleaned queue_name s && is_listed n ns then false else is_member s n c)
  unfolding remove_subset
  is_member-remove_subset none ns s n c = is_member-srem_all list_key ns s n c
  is_member-remove_subset (some q) ns s n c = ground (
    arith,
    is_member-srem_all (children_key_for q) ns s n (srem_all h class_ list_key ns c),
    is_member-srem_all list_key ns s n c,
  )

  is_member-remove_subsets :
      (queue_name : Option String) (nss : List (List String)) (s n : String) (c : Conn)
      → is_member s n (remove_subsets h class_ queue_name nss c)
        ≡ (if is_cleaned queue_name s && is_listed n (join nss) then false else is_member s n c)
  unfolding remove_subsets
  is_member-remove_subsets queue_name [] s n c = ground arith
  is_member-remove_subsets queue_name (ns ∷ nss) s n c = ground (
    arith,
    is_member-remove_subsets queue_name nss s n (remove_subset h class_ queue_name ns c),
    is_member-remove_subset queue_name ns s n c,
    is_listed-append n ns (join nss),
  )

  is_member-remove_invalid :
      (queue_name : Option String) (ns : List String) (s n : String) (c : Conn)
      → is_member s n (remove_invalid h class_ queue_name ns c)
        ≡ (if is_cleaned queue_name s && is_listed n ns then false else is_member s n c)
  unfolding remove_invalid
  is_member-remove_invalid queue_name [] s n c = ground arith
  is_member-remove_invalid queue_name (x ∷ xs) s n c =
      is_member-remove_subsets queue_name (split_list (x ∷ xs) max_keys) s n c
      ∙ ap (λ ys. if is_cleaned queue_name s && is_listed n ys then false else is_member s n c)
          (join-split_list (x ∷ xs) 999)

  -- The set whose names a cleanup looks at.
  abbrev pub looked_at : Option String → String
  looked_at none = list_key
  looked_at (some q) = children_key_for q

  is_listed-all_names :
      (l : Listing h) (queue_name : Option String) (n : String) (c : Conn)
      → is_listed n (all_names h class_ l queue_name c) ≡ is_member (looked_at queue_name) n c
  unfolding all_names
  is_listed-all_names l none n c = l.smembers_lem list_key n c
  is_listed-all_names l (some q) n c = l.smembers_lem (children_key_for q) n c

  -- A cleanup takes exactly those names out of the set of all workers, and out of the set of the
  -- queue where one is given, that stand in the set it looks at, the queue's or else that of all,
  -- and whose hash is gone, however many they are; every other set, and every other name, stays.
  pub is_member-cleanup_workers :
      (l : Listing h) (queue_name : Option String) (s n : String) (c : Conn)
      → is_member s n (cleanup_workers h class_ l queue_name c) ≡ (
          if is_cleaned queue_name s
            && (is_member (looked_at queue_name) n c && not (l.exists_key (key_for n) c))
          then false
          else is_member s n c)
  unfolding cleanup_workers
  is_member-cleanup_workers l queue_name s n c =
      let p : String → Bool = λ x. not (l.exists_key (key_for x) c) in
      is_member-remove_invalid queue_name (select p (all_names h class_ l queue_name c)) s n c
      ∙ ap (λ k. if is_cleaned queue_name s && k then false else is_member s n c)
          (is_listed-select p n (all_names h class_ l queue_name c)
            ∙ ap (λ k. k && p n) (is_listed-all_names l queue_name n c))
