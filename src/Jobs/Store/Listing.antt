-- ===== src/Jobs/Store/Listing.antt =====
-- The sorted sets of a store as lists, the lowest score first.
use mathlib.Core.Logic.{◌↔◌}
use mathlib.Core.Path.{subst}
use daily_scheduler.Base.{
  String, ◌≡◌, refl, sym, Bool, true, false, ◌&&◌, Option, none, some, List, [], ◌∷◌, Memᴰ, arith,
  str_eq, head?, eq_iff, ap, ◌∙◌, Bool-cases, inl, inr, ◌⊎◌, ◌==◌, if◌then◌else◌,
}
use daily_scheduler.Base.Int.{ℤ, pos, negsuc, ◌≤ℤ◌, leb_ℤ, eqb_ℤ}
use daily_scheduler.Jobs.Model.{Registry, registry_number}
use daily_scheduler.Jobs.Store.{Entry, find_first, find_score, is_entry}

-- Insertion behind the lower scores.
abbrev pub insert_pair : String × ℤ → List (String × ℤ) → List (String × ℤ)
insert_pair x [] = x ∷ []
insert_pair x (y ∷ ys) =
    let rest = insert_pair x ys in if leb_ℤ x.1 y.1 then x ∷ y ∷ ys else y ∷ rest

abbrev is_score : ℤ → Option ℤ → Bool
is_score s none = false
is_score s (some t) = eqb_ℤ s t

abbrev is_listed : String → Registry → List Entry → Entry → Bool
is_listed q r all e =
    (str_eq e.queue q && registry_number e.registry == registry_number r)
    && is_score e.score (find_score q r e.name all)

unfoldable pub listed : String → Registry → List Entry → List Entry → List (String × ℤ)
listed q r all [] = []
listed q r all (e ∷ es) =
    let rest = listed q r all es in
    if is_listed q r all e then insert_pair (e.name, e.score) rest else rest

eqb_ℤ-eq : (s t : ℤ) → eqb_ℤ s t ≡ true → s ≡ t
eqb_ℤ-eq (pos m) (pos n) h = ap pos (ground arith)
eqb_ℤ-eq (pos m) (negsuc n) h = ground arith
eqb_ℤ-eq (negsuc m) (pos n) h = ground arith
eqb_ℤ-eq (negsuc m) (negsuc n) h = ap negsuc (ground arith)

eqb_ℤ_refl : (s : ℤ) → eqb_ℤ s s ≡ true
eqb_ℤ_refl s = ground arith

of-Mem-cons {ℓ} : {A : Type ℓ} (x y : A) (ys : List A) → Memᴰ x (y ∷ ys) → (x ≡ y) ⊎ Memᴰ x ys
of-Mem-cons x y ys (Memᴰ.head p) = inl p
of-Mem-cons x y ys (Memᴰ.tail t) = inr t

of-Mem-insert_pair :
    (x y : String × ℤ) (ys : List (String × ℤ)) → Memᴰ x (insert_pair y ys) → (x ≡ y) ⊎ Memᴰ x ys
of-Mem-insert_pair x y [] = of-Mem-cons x y []
of-Mem-insert_pair x y (z ∷ zs) = elim (Bool-cases (leb_ℤ y.1 z.1)) [
  | inl low ↦ rw low (of-Mem-cons x y (z ∷ zs))
  | inr high ↦ rw high (λ m. elim (of-Mem-cons x z (insert_pair y zs) m) [
    | inl p ↦ inr (Memᴰ.head p)
    | inr t ↦ elim (of-Mem-insert_pair x y zs t) [ inl p ↦ inl p | inr u ↦ inr (Memᴰ.tail u) ]
  ])
]

Mem-insert_pair-new :
    (x y : String × ℤ) (ys : List (String × ℤ)) → x ≡ y → Memᴰ x (insert_pair y ys)
Mem-insert_pair-new x y [] p = Memᴰ.head p
Mem-insert_pair-new x y (z ∷ zs) p = elim (Bool-cases (leb_ℤ y.1 z.1)) [
  | inl low ↦ rw low (Memᴰ.head p)
  | inr high ↦ rw high (Memᴰ.tail (Mem-insert_pair-new x y zs p))
]

Mem-insert_pair-old :
    (x y : String × ℤ) (ys : List (String × ℤ)) → Memᴰ x ys → Memᴰ x (insert_pair y ys)
Mem-insert_pair-old x y [] m = elim m [ ]
Mem-insert_pair-old x y (z ∷ zs) m = elim (Bool-cases (leb_ℤ y.1 z.1)) [
  | inl low ↦ rw low (Memᴰ.tail m)
  | inr high ↦ rw high (elim (of-Mem-cons x z zs m) [
    | inl p ↦ Memᴰ.head p
    | inr t ↦ Memᴰ.tail (Mem-insert_pair-old x y zs t)
  ])
]

-- Nothing of a list is below its head.
abbrev LowestFirst : List (String × ℤ) → Type 0
LowestFirst [] = Unit
LowestFirst (x ∷ xs) = (y : String × ℤ) → Memᴰ y xs → x.1 ≤ℤ y.1

leb_ℤ-le : (s t : ℤ) → leb_ℤ s t ≡ true → s ≤ℤ t
leb_ℤ-le s t h = ground arith

leb_ℤ-ge : (s t : ℤ) → leb_ℤ s t ≡ false → t ≤ℤ s
leb_ℤ-ge s t h = ground arith

le_ℤ_trans : (s t u : ℤ) → s ≤ℤ t → t ≤ℤ u → s ≤ℤ u
le_ℤ_trans s t u p q = omega arith

le_of_eq : (x y z : String × ℤ) → y ≡ z → x.1 ≤ℤ z.1 → x.1 ≤ℤ y.1
le_of_eq x y z p h = subst (λ (v : String × ℤ). x.1 ≤ℤ v.1) (sym p) h

LowestFirst-insert_pair :
    (z : String × ℤ) (xs : List (String × ℤ)) → LowestFirst xs → LowestFirst (insert_pair z xs)
LowestFirst-insert_pair z [] h = λ y m. elim m [ ]
LowestFirst-insert_pair z (w ∷ ws) h = elim (Bool-cases (leb_ℤ z.1 w.1)) [
  | inl low ↦ rw low (λ y m.
      let z_w = leb_ℤ-le z.1 w.1 low in
      elim (of-Mem-cons y w ws m) [
        | inl p ↦ le_of_eq z y w p z_w
        | inr t ↦ le_ℤ_trans z.1 w.1 y.1 z_w (h y t)
      ])
  | inr high ↦ rw high (λ y m. elim (of-Mem-insert_pair y z ws m) [
    | inl p ↦ le_of_eq w y z p (leb_ℤ-ge z.1 w.1 high)
    | inr t ↦ h y t
  ])
]

LowestFirst-listed :
    (q : String) (r : Registry) (all es : List Entry) → LowestFirst (listed q r all es)
unfolding listed
LowestFirst-listed q r all [] = tt
LowestFirst-listed q r all (e ∷ es) = elim (Bool-cases (is_listed q r all e)) [
  | inl yes_ ↦ rw yes_ (
      LowestFirst-insert_pair (e.name, e.score) (listed q r all es) (LowestFirst-listed q r all es))
  | inr no_ ↦ rw no_ (LowestFirst-listed q r all es)
]

some_of-is_score : (s : ℤ) (o : Option ℤ) → is_score s o ≡ true → o ≡ some s
some_of-is_score s none h = ground arith
some_of-is_score s (some t) h = ap some (sym (eqb_ℤ-eq s t h))

score_of-is_listed :
    (q : String) (r : Registry) (all : List Entry) (e : Entry)
    → is_listed q r all e ≡ true
    → find_score q r e.name all ≡ some e.score
score_of-is_listed q r all e h = some_of-is_score e.score (find_score q r e.name all) (ground arith)

score_of-listed :
    (q : String) (r : Registry) (n : String) (s : ℤ) (all es : List Entry)
    → Memᴰ (n, s) (listed q r all es)
    → find_score q r n all ≡ some s
unfolding listed
score_of-listed q r n s all [] = λ m. elim m [ ]
score_of-listed q r n s all (e ∷ es) = elim (Bool-cases (is_listed q r all e)) [
  | inl yes_ ↦ rw yes_ (λ m.
      elim (of-Mem-insert_pair (n, s) (e.name, e.score) (listed q r all es) m) [
        | inl p ↦
            subst (λ (x : String × ℤ). find_score q r x.0 all ≡ some x.1) (sym p)
              (score_of-is_listed q r all e yes_)
        | inr t ↦ score_of-listed q r n s all es t
      ])
  | inr no_ ↦ rw no_ (score_of-listed q r n s all es)
]

is_listed_entry :
    (q : String) (r : Registry) (n : String) (all : List Entry) (e : Entry)
    → find_score q r n all ≡ some e.score
    → is_entry q r n e ≡ true
    → is_listed q r all e ≡ true
is_listed_entry q r n all e h k =
    let name : e.name ≡ n = (eq_iff e.name n).0 (ground arith) in
    let here : find_score q r e.name all ≡ some e.score =
      subst (λ x. find_score q r x all ≡ some e.score) (sym name) h in
    rw here (ground (arith, eqb_ℤ_refl e.score))

find_score-entry :
    (q : String) (r : Registry) (n : String) (e : Entry) (es : List Entry)
    → find_score q r n (e ∷ es) ≡ (if is_entry q r n e then some e.score else find_score q r n es)
unfolding find_score find_first
find_score-entry q r n e es = ground arith

nothing_found : (q : String) (r : Registry) (n : String) (s : ℤ) → find_score q r n [] ≡ some s → ⊥
unfolding find_score find_first
nothing_found q r n s k = ground arith

listed-of-score :
    (q : String) (r : Registry) (n : String) (s : ℤ) (all es : List Entry)
    → find_score q r n all ≡ some s
    → find_score q r n es ≡ some s
    → Memᴰ (n, s) (listed q r all es)
unfolding listed
listed-of-score q r n s all [] h k = absurd (nothing_found q r n s k)
listed-of-score q r n s all (e ∷ es) h k = elim (Bool-cases (is_entry q r n e)) [
  | inl here ↦
      let score : some e.score ≡ some s = sym (find_score-entry q r n e es ∙ rw here refl) ∙ k in
      let name : e.name ≡ n = (eq_iff e.name n).0 (ground arith) in
      let pair : ◌≡◌ {A = String × ℤ} (n, s) (e.name, e.score) = cc in
      rw (is_listed_entry q r n all e (h ∙ sym score) here)
        (Mem-insert_pair-new (n, s) (e.name, e.score) (listed q r all es) pair)
  | inr other ↦
      let later =
        listed-of-score q r n s all es h (sym (find_score-entry q r n e es ∙ rw other refl) ∙ k) in
      elim (Bool-cases (is_listed q r all e)) [
        | inl yes_ ↦
            rw yes_ (Mem-insert_pair-old (n, s) (e.name, e.score) (listed q r all es) later)
        | inr no_ ↦ rw no_ later
      ]
]

pub listed_iff :
    (q : String) (r : Registry) (n : String) (s : ℤ) (es : List Entry)
    → Memᴰ (n, s) (listed q r es es) ↔ (find_score q r n es ≡ some s)
listed_iff q r n s es = (score_of-listed q r n s es es, λ h. listed-of-score q r n s es es h h)

lowest_of_head :
    (xs : List (String × ℤ)) (x y : String × ℤ)
    → LowestFirst xs
    → head? xs ≡ some x
    → Memᴰ y xs
    → x.1 ≤ℤ y.1
lowest_of_head [] x y h e m = elim m [ ]
lowest_of_head (z ∷ zs) x y h e m =
    let same : z ≡ x = cc in
    subst (λ (v : String × ℤ). v.1 ≤ℤ y.1) same
      (elim (of-Mem-cons y z zs m) [ inl p ↦ le_of_eq z y z p (omega arith) | inr t ↦ h y t ])

pub listed_lowest :
    (q : String) (r : Registry) (n : String) (s : ℤ) (n' : String) (s' : ℤ) (es : List Entry)
    → head? (listed q r es es) ≡ some (n, s)
    → find_score q r n' es ≡ some s'
    → s ≤ℤ s'
listed_lowest q r n s n' s' es e h =
    lowest_of_head (listed q r es es) (n, s) (n', s') (LowestFirst-listed q r es es) e
      (listed-of-score q r n' s' es es h h)
