-- ===== src/Jobs/Store.antt =====
-- A store of sorted sets, hashes and streams in lists, newest first, and what is found in it.
pub mod Listing
pub mod Ranges
use daily_scheduler.Base.{
  String, ◌≡◌, refl, Bool, true, false, ◌&&◌, Option, none, some, List, [], ◌∷◌, arith, str_eq,
  eq_iff, ap, ◌∙◌, Option-cases, inl, inr, ◌==◌, if◌then◌else◌,
}
use daily_scheduler.Base.Int.{ℤ, ◌≤ℤ◌, leb_ℤ}
use daily_scheduler.Jobs.Model.{JobModel, JobResult, Registry, registry_number}
use daily_scheduler.Jobs.Broker.{same_entry}

pub record Entry : Type 0 where
  pub queue : String
  pub registry : Registry
  pub name : String
  pub score : ℤ

pub record Store : Type 0 where
  pub entries : List Entry
  pub hashes : List JobModel
  pub streams : List JobResult

-- The first element that passes a test, and the elements that do not pass one.
module _ {ℓ} {A : Type ℓ} where
  unfoldable pub find_first : (A → Bool) → List A → Option A
  find_first p [] = none
  find_first p (x ∷ xs) = if p x then some x else find_first p xs

  unfoldable pub without : (A → Bool) → List A → List A
  without d [] = []
  without d (x ∷ xs) = let rest = without d xs in if d x then rest else x ∷ rest

  -- The test `p` looks for one key and `d` drops one key; `k` says whether these are the same.
  find_first-without :
      (p d : A → Bool) (k : Bool)
      → ((x : A) → d x ≡ true → p x ≡ k)
      → ((x : A) → d x ≡ false → p x ≡ true → k ≡ false)
      → (xs : List A) → find_first p (without d xs) ≡ (if k then none else find_first p xs)
  unfolding find_first without
  find_first-without p d k same other [] = ground arith
  find_first-without p d k same other (x ∷ xs) =
      ground (arith, same x, other x, find_first-without p d k same other xs)

abbrev pub score_of : Option Entry → Option ℤ
score_of none = none
score_of (some e) = some e.score

abbrev pub is_entry : String → Registry → String → Entry → Bool
is_entry q r n e = same_entry e.queue e.registry e.name q r n

abbrev pub is_dropped : String → Registry → String → Entry → Bool
is_dropped q r n e = same_entry q r n e.queue e.registry e.name

same_entry_trans :
    (q : String) (r : Registry) (n q' : String) (r' : Registry) (n' : String) (e : Entry)
    → is_dropped q r n e ≡ true
    → is_entry q' r' n' e ≡ same_entry q r n q' r' n'
same_entry_trans q r n q' r' n' e h = ground (
  arith,
  eq_iff q e.queue,
  eq_iff e.queue q',
  eq_iff q q',
  eq_iff n e.name,
  eq_iff e.name n',
  eq_iff n n',
)

same_entry_other :
    (q : String) (r : Registry) (n q' : String) (r' : Registry) (n' : String) (e : Entry)
    → is_dropped q r n e ≡ false
    → is_entry q' r' n' e ≡ true
    → same_entry q r n q' r' n' ≡ false
same_entry_other q r n q' r' n' e h k = ground (
  arith,
  eq_iff q e.queue,
  eq_iff e.queue q',
  eq_iff q q',
  eq_iff n e.name,
  eq_iff e.name n',
  eq_iff n n',
)

abbrev max_score : ℤ → Option ℤ → ℤ
max_score s none = s
max_score s (some t) = if leb_ℤ s t then t else s

unfoldable pub top_score : String → Registry → List Entry → Option ℤ
top_score q r [] = none
top_score q r (e ∷ es) =
    let rest = top_score q r es in
    if str_eq e.queue q && registry_number e.registry == registry_number r
    then some (max_score e.score rest)
    else rest

unfoldable pub find_score : String → Registry → String → List Entry → Option ℤ
unfolding find_first
find_score q r n es = score_of (find_first (is_entry q r n) es)

pub find_first-cons {ℓ} :
    {A : Type ℓ} (p : A → Bool) (x : A) (xs : List A)
    → find_first p (x ∷ xs) ≡ (if p x then some x else find_first p xs)
unfolding find_first
find_first-cons p x xs = refl

pub find_score-cons :
    (q : String) (r : Registry) (n q' : String) (r' : Registry) (n' : String) (s : ℤ)
    (es : List Entry)
    → find_score q' r' n' (record { queue = q; registry = r; name = n; score = s } ∷ es)
      ≡ (if same_entry q r n q' r' n' then some s else find_score q' r' n' es)
unfolding find_score
find_score-cons q r n q' r' n' s es = ground arith

pub score_of_if :
    (k : Bool) (o : Option Entry)
    → score_of (if k then none else o) ≡ (if k then none else score_of o)
score_of_if true o = refl
score_of_if false o = refl

pub find_score-without :
    (q : String) (r : Registry) (n q' : String) (r' : Registry) (n' : String) (es : List Entry)
    → find_score q' r' n' (without (is_dropped q r n) es)
      ≡ (if same_entry q r n q' r' n' then none else find_score q' r' n' es)
unfolding find_score
find_score-without q r n q' r' n' es =
    ap score_of (
      find_first-without (is_entry q' r' n') (is_dropped q r n) (same_entry q r n q' r' n')
        (same_entry_trans q r n q' r' n') (same_entry_other q r n q' r' n') es)
    ∙ score_of_if (same_entry q r n q' r' n') (find_first (is_entry q' r' n') es)

pub find_job-without :
    (n m : String) (js : List JobModel)
    → find_first (λ j. str_eq j.name m) (without (λ j. str_eq n j.name) js)
      ≡ (if str_eq n m then none else find_first (λ j. str_eq j.name m) js)
find_job-without n m js =
    find_first-without (λ j. str_eq j.name m) (λ j. str_eq n j.name) (str_eq n m)
      (λ j d. ground (arith, eq_iff n j.name, eq_iff j.name m, eq_iff n m))
      (λ j d e. ground (arith, eq_iff n j.name, eq_iff j.name m, eq_iff n m)) js

pub find_result-without :
    (n m : String) (xs : List JobResult)
    → find_first (λ x. str_eq x.parent m) (without (λ x. str_eq n x.parent) xs)
      ≡ (if str_eq n m then none else find_first (λ x. str_eq x.parent m) xs)
find_result-without n m xs =
    find_first-without (λ x. str_eq x.parent m) (λ x. str_eq n x.parent) (str_eq n m)
      (λ x d. ground (arith, eq_iff n x.parent, eq_iff x.parent m, eq_iff n m))
      (λ x d e. ground (arith, eq_iff n x.parent, eq_iff x.parent m, eq_iff n m)) xs

pub top_score-none :
    (q : String) (r : Registry) (n : String) (es : List Entry)
    → top_score q r es ≡ none
    → find_score q r n es ≡ none
unfolding top_score find_score
top_score-none q r n [] h = refl
top_score-none q r n (e ∷ es) h = ground (arith, top_score-none q r n es)

pub top_score_max :
    (q : String) (r : Registry) (n : String) (s t : ℤ) (es : List Entry)
    → top_score q r es ≡ some t
    → find_score q r n es ≡ some s
    → s ≤ℤ t
unfolding top_score find_score
top_score_max q r n s t [] h z = cc
top_score_max q r n s t (e ∷ es) h z = elim (Option-cases (top_score q r es)) [
  | inl empty ↦ ground (arith, top_score-none q r n es empty)
  | inr (t', e') ↦ ground (arith, top_score_max q r n s t' es e')
]

abbrev pub empty_store : Store
empty_store = record { entries = []; hashes = []; streams = [] }
