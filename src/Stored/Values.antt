-- ===== src/Stored/Values.antt =====
-- The values of a model's fields and their texts: _serialize and _deserialize of
-- scheduler/redis_models/base.py. The texts of whole numbers and moments are Python's, and are
-- parameters. Fractions, lists and dictionaries are left out.
use daily_scheduler.Base.{
  ℕ, ◌≡◌, refl, String, Bool, true, false, not, Option, none, some, if◌then◌else◌,
}
use daily_scheduler.Base.Int.{ℤ, pos, eqb_ℤ}

pub data Value : Type 0 where
  nothing : Value
  text choice : String → Value
  number : ℤ → Value
  truth : Bool → Value
  moment : ℕ → Value

pub data FieldType : Type 0 where
  text_type choice_type number_type truth_type moment_type : FieldType

-- str and int, isoformat and fromisoformat, and the values of the enumeration.
pub record Formats : Type 0 where
  pub show_int : ℤ → String
  pub read_int : String → Option ℤ
  pub show_moment : ℕ → String
  pub read_moment : String → Option ℕ
  pub is_choice : String → Bool
  pub read_int-show_int : (z : ℤ) → read_int (show_int z) ≡ some z
  pub read_moment-show_moment : (t : ℕ) → read_moment (show_moment t) ≡ some t

module _ (f : Formats) where
  open f use {show_int, read_int, show_moment, read_moment, is_choice}

  abbrev pub int_of : Bool → ℤ
  int_of true = pos 1
  int_of false = pos 0

  -- _serialize, as the text that the broker keeps.
  unfoldable pub serialize : Value → Option String
  serialize nothing = none
  serialize (text s) = some s
  serialize (choice s) = some s
  serialize (number z) = some (show_int z)
  serialize (truth x) = some (show_int (int_of x))
  serialize (moment t) = some (show_moment t)

  -- A text that cannot be read stays as it is.
  unfoldable pub or_text {ℓ} : {A : Type ℓ} → String → (A → Value) → Option A → Value
  or_text s make none = text s
  or_text s make (some x) = make x

  -- _deserialize
  unfoldable pub deserialize : FieldType → Option String → Value
  deserialize type none = nothing
  deserialize text_type (some s) = text s
  deserialize moment_type (some s) = or_text s moment (read_moment s)
  deserialize truth_type (some s) = or_text s (λ z. truth (not (eqb_ℤ z (pos 0)))) (read_int s)
  deserialize number_type (some s) = or_text s number (read_int s)
  deserialize choice_type (some s) = if is_choice s then choice s else text s

  -- The values that a field of the type may have.
  abbrev pub HasType : Value → FieldType → Type 0
  HasType nothing type = Unit
  HasType (text s) type = type ≡ text_type
  HasType (choice s) type = (type ≡ choice_type) × (is_choice s ≡ true)
  HasType (number z) type = type ≡ number_type
  HasType (truth x) type = type ≡ truth_type
  HasType (moment t) type = type ≡ moment_type

  -- Reading back the text of a value gives the value, for every type of field.
  pub deserialize-serialize :
      (type : FieldType) (v : Value) → HasType v type → deserialize type (serialize v) ≡ v
  unfolding serialize deserialize or_text
  deserialize-serialize type nothing e = refl
  deserialize-serialize type (text s) e = rw e refl
  deserialize-serialize type (choice s) (e, known) = rw e (rw known refl)
  deserialize-serialize type (number z) e = rw e (rw (f.read_int-show_int z) refl)
  deserialize-serialize type (truth true) e = rw e (rw (f.read_int-show_int (pos 1)) refl)
  deserialize-serialize type (truth false) e = rw e (rw (f.read_int-show_int (pos 0)) refl)
  deserialize-serialize type (moment t) e = rw e (rw (f.read_moment-show_moment t) refl)
