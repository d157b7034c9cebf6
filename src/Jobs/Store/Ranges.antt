-- ===== src/Jobs/Store/Ranges.antt =====
-- The removal of the entries of a registry whose score lies in a range.
use daily_scheduler.Base.{
  String, ◌≡◌, Bool, true, false, ◌&&◌, Option, none, some, List, [], ◌∷◌, arith, str_eq, eq_iff,
  ap, ◌∙◌, ◌==◌, if◌then◌else◌,
}
use daily_scheduler.Base.Int.{ℤ, leb_ℤ}
use daily_scheduler.Jobs.Model.{Registry, registry_number, registry_number_inj}
use daily_scheduler.Jobs.Broker.{drop_between}
use daily_scheduler.Jobs.Store.{
  Entry, find_first, find_score, without, is_entry, score_of, score_of_if,
}

-- The entries of one registry whose score lies in a range.
abbrev is_between : ℤ → ℤ → Option ℤ → Bool
is_between lo hi none = false
is_between lo hi (some s) = leb_ℤ lo s && leb_ℤ s hi

abbrev pub is_in_range : String → Registry → ℤ → ℤ → List Entry → Entry → Bool
is_in_range q r lo hi all e =
    (str_eq q e.queue && registry_number r == registry_number e.registry)
    && is_between lo hi (find_score e.queue e.registry e.name all)

find_first-without_same {ℓ} :
    {A : Type ℓ} (p d : A → Bool) (k : Bool)
    → ((x : A) → p x ≡ true → d x ≡ k)
    → (xs : List A) → find_first p (without d xs) ≡ (if k then none else find_first p xs)
unfolding find_first without
find_first-without_same p d k same [] = ground arith
find_first-without_same p d k same (x ∷ xs) =
    ground (arith, same x, find_first-without_same p d k same xs)

-- What is dropped of the entries under one key is all or nothing.
is_in_range_entry :
    (q : String) (r : Registry) (lo hi : ℤ) (q' : String) (r' : Registry) (n' : String)
    (all : List Entry) (e : Entry)
    → is_entry q' r' n' e ≡ true
    → is_in_range q r lo hi all e ≡ (
        (str_eq q q' && registry_number r == registry_number r')
        && is_between lo hi (find_score q' r' n' all))
is_in_range_entry q r lo hi q' r' n' all e h =
    let same_queue : e.queue ≡ q' = (eq_iff e.queue q').0 (ground arith) in
    let same_name : e.name ≡ n' = (eq_iff e.name n').0 (ground arith) in
    let same_registry : e.registry ≡ r' = registry_number_inj e.registry r' (ground arith) in cc

drop_if :
    (k : Bool) (lo hi : ℤ) (o : Option ℤ)
    → (if k && is_between lo hi o then none else o) ≡ (if k then drop_between lo hi o else o)
drop_if k lo hi none = ground arith
drop_if k lo hi (some s) = ground arith

pub find_score-drop_range :
    (q : String) (r : Registry) (lo hi : ℤ) (q' : String) (r' : Registry) (n' : String)
    (es : List Entry)
    → find_score q' r' n' (without (is_in_range q r lo hi es) es) ≡ (
        if str_eq q q' && registry_number r == registry_number r'
        then drop_between lo hi (find_score q' r' n' es)
        else find_score q' r' n' es)
unfolding find_score
find_score-drop_range q r lo hi q' r' n' es =
    let registry = str_eq q q' && registry_number r == registry_number r' in
    let found = find_first (is_entry q' r' n') es in
    let k = registry && is_between lo hi (score_of found) in
    ap score_of (
      find_first-without_same (is_entry q' r' n') (is_in_range q r lo hi es) k
        (is_in_range_entry q r lo hi q' r' n' es) es)
    ∙ score_of_if k found
    ∙ drop_if registry lo hi (score_of found)
