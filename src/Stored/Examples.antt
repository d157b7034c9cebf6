-- ===== src/Stored/Examples.antt =====
-- The theorems on stored models at concrete inputs. Whole numbers are written with strokes.
use Prim.Native.String.{[] as empty_text, ◌∷◌ as ◌∷ₜ◌}
use daily_scheduler.Base.{
  ℕ, zero, suc, ◌+◌, ◌/◌, ◌%◌, ◌==◌, String, ◌≡◌, refl, ap, ◌∙◌, true, false, none, some, List, [],
  ◌∷◌, arith, str_eq, if◌then◌else◌,
}
use daily_scheduler.Base.Int.{ℤ, pos, negsuc}
use daily_scheduler.Stored.Values.{text, number, nothing, text_type, number_type, Formats}
use daily_scheduler.Stored.Hashes.{table}
use daily_scheduler.Stored.Model.{Class, Instance, save, delete, get_field, set_attr, set_field}
use daily_scheduler.Stored.History.{Operation, operate_all, get_field-operate_all}
use daily_scheduler.Stored.Names.{is_member-delete}

abbrev pub strokes : ℕ → String
strokes zero = ""
strokes (suc n) = "1" ∷ₜ strokes n

abbrev pub count_strokes : String → ℕ
count_strokes empty_text = 0
count_strokes (c ∷ₜ s) = suc (count_strokes s)

pub count_strokes-strokes : (n : ℕ) → count_strokes (strokes n) ≡ n
count_strokes-strokes zero = refl
count_strokes-strokes (suc n) = ap suc (count_strokes-strokes n)

-- Even counts for the numbers from 0 on, odd ones for those below.
abbrev pub int_strokes : ℤ → ℕ
int_strokes (pos n) = n + n
int_strokes (negsuc n) = suc (n + n)

abbrev pub strokes_int : ℕ → ℤ
strokes_int n = if n % 2 == 0 then pos (n / 2) else negsuc (n / 2)

pub strokes_int-int_strokes : (z : ℤ) → strokes_int (int_strokes z) ≡ z
strokes_int-int_strokes (pos n) = ground arith
strokes_int-int_strokes (negsuc n) = ground arith

abbrev pub stroke_formats : Formats
stroke_formats = record {
  show_int = λ z. strokes (int_strokes z);
  read_int = λ s. some (strokes_int (count_strokes s));
  show_moment = strokes;
  read_moment = λ s. some (count_strokes s);
  is_choice = λ s. true;
  read_int-show_int = λ z.
      ap (λ n. some (strokes_int n)) (count_strokes-strokes (int_strokes z))
      ∙ ap some (strokes_int-int_strokes z);
  read_moment-show_moment = λ t. ap some (count_strokes-strokes t);
}

abbrev worker_class : Class
worker_class = record {
  fields = "pid" ∷ "current_job_name" ∷ [];
  field_type = λ x. if str_eq x "pid" then number_type else text_type;
  key_for = λ n. if str_eq n "w.1" then ":workers:w.1" else ":workers:";
  list_key = ":workers:ALL:";
  children_key_for = λ p. ":queue-workers:";
}

abbrev pub new_worker : Instance
new_worker = record {
  name = "w.1";
  parent = none;
  values = λ x. if str_eq x "pid" then number (pos 7) else nothing;
  dirty_fields = [];
  save_all = true;
}

abbrev nothing_stored : table.Conn
nothing_stored = ((λ k x. none), (λ k n. false))

-- The worker is saved, takes a job and goes on to another.
abbrev some_operations : List Operation
some_operations =
    Operation.store false
    ∷ Operation.assign "current_job_name" (text "a")
    ∷ Operation.assign_stored "current_job_name" (text "b")
    ∷ []

abbrev after_operations : Instance × table.Conn
after_operations =
    operate_all table stroke_formats worker_class some_operations (new_worker, nothing_stored)

get_field-operate_all_example :
    get_field table stroke_formats worker_class "current_job_name" after_operations.0
      (save table stroke_formats worker_class false after_operations.0 after_operations.1).1
    ≡ text "b"
unfolding set_attr save set_field
get_field-operate_all_example =
    get_field-operate_all table stroke_formats worker_class some_operations new_worker
      nothing_stored false "current_job_name" refl refl refl

is_member-delete_example :
    table.is_member ":workers:ALL:" "w.1"
      (delete table stroke_formats worker_class
        (save table stroke_formats worker_class false new_worker nothing_stored).0
        (save table stroke_formats worker_class false new_worker nothing_stored).1).1
    ≡ true
is_member-delete_example =
    is_member-delete table stroke_formats worker_class false new_worker nothing_stored (λ p. refl)
      refl refl
