-- ===== src/Message/Laws.antt =====
-- Reading the fields of a message, and when it can be printed.
use nest_quickfix.Prelude.{
  ◌≡◌, ◌↔◌, ◌++◌, true, false, List, [], ◌∷◌, All, arith, ◌==◌, if◌then◌else◌,
}
use nest_quickfix.Text.{Text, text}
use nest_quickfix.OrderedMap.Laws.{get-set, has-set, has-eq-get, get-delete, has-delete}
use nest_quickfix.OrderedMap.Unique.{IsUnique, set-IsUnique, delete-IsUnique}
use nest_quickfix.Result.{ok, err, error}
use nest_quickfix.Fields.{FieldType, field_Eq, field_text, check_sum}
use nest_quickfix.Message.{
  Message, Value, Field, undefined, set_field, get_field, has_field, remove_field, set_fields,
  new_message, require_fields, validate_required_fields, required_fields, to_string, unsummed_text,
  pair_text, string, calculate_checksum,
}

-- The text that `to_string` returns when its validation passes.
abbrev pub print : Message → Text
print m = unsummed_text m ++ pair_text check_sum (string (calculate_checksum (unsummed_text m)))

-- The representation of every message that the program can build.
abbrev pub IsMessage : Message → Type 0
IsMessage m = IsUnique m.fields

abbrev pub Has : Message → FieldType → Type 0
Has m f = has_field m f ≡ true

pub get_field-set_field :
    (m : Message) (f g : FieldType) (v : Value)
    → get_field (set_field m f v) g ≡ (if f == g then v else get_field m g)
unfolding get_field set_field
get_field-set_field m f g v = ground (arith, get-set m.fields f g v)

pub has_field-set_field :
    (m : Message) (f g : FieldType) (v : Value)
    → has_field (set_field m f v) g ≡ (if f == g then true else has_field m g)
unfolding has_field set_field
has_field-set_field m f g v = has-set m.fields f g v

pub get_field-remove_field :
    (m : Message) (f g : FieldType)
    → get_field (remove_field m f) g ≡ (if f == g then undefined else get_field m g)
unfolding get_field remove_field
get_field-remove_field m f g = ground (arith, get-delete m.fields f g)

pub has_field-remove_field :
    (m : Message) (f g : FieldType)
    → has_field (remove_field m f) g ≡ (if f == g then false else has_field m g)
unfolding has_field remove_field
has_field-remove_field m f g = has-delete m.fields f g

pub ruleset field_laws =
    (get_field-set_field, has_field-set_field, get_field-remove_field, has_field-remove_field)

pub set_field-IsMessage :
    (m : Message) (f : FieldType) (v : Value) → IsMessage m → IsMessage (set_field m f v)
unfolding set_field
set_field-IsMessage m f v h = set-IsUnique m.fields f v h

pub set_fields-IsMessage :
    (m : Message) (fs : List Field) → IsMessage m → IsMessage (set_fields m fs)
unfolding set_fields
set_fields-IsMessage m [] h = h
set_fields-IsMessage m (f ∷ fs) h =
    set_fields-IsMessage (set_field m f.tag f.value) fs (set_field-IsMessage m f.tag f.value h)

pub new_message-IsMessage : (fs : List Field) → IsMessage (new_message fs)
unfolding new_message
new_message-IsMessage fs = set_fields-IsMessage (record { fields = [] }) fs tt

pub remove_field-IsMessage :
    (m : Message) (f : FieldType) → IsMessage m → IsMessage (remove_field m f)
unfolding remove_field
remove_field-IsMessage m f h = delete-IsUnique m.fields f h

pub require_fields-eq-ok_iff :
    (fs : List FieldType) (m : Message) → (require_fields fs m ≡ ok tt) ↔ All (Has m) fs
unfolding require_fields
require_fields-eq-ok_iff [] m = ground arith
require_fields-eq-ok_iff (f ∷ fs) m = ground (arith, require_fields-eq-ok_iff fs m)

-- The outcome of the loop over required fields: it throws for the first that is missing.
pub require_fields_missing :
    (before : List FieldType) (f : FieldType) (after : List FieldType) (m : Message)
    → All (Has m) before
    → has_field m f ≡ false
    → require_fields (before ++ f ∷ after) m
      ≡ err (error (text "Missing required field: " ++ field_text f))
unfolding require_fields
require_fields_missing [] f after m h n = ground arith
require_fields_missing (g ∷ gs) f after m (hg, h) n =
    ground (arith, require_fields_missing gs f after m h n)

-- A message can be printed exactly when it has the six required fields.
pub to_string-eq-ok_iff :
    (m : Message) → ((s : Text) × (to_string m ≡ ok s)) ↔ All (Has m) required_fields
unfolding to_string validate_required_fields
to_string-eq-ok_iff m = (
  λ p. (require_fields-eq-ok_iff required_fields m).0 (printed p),
  λ h. (print m, ground (arith, (require_fields-eq-ok_iff required_fields m).1 h)),
)
  where
    printed : (s : Text) × (to_string m ≡ ok s) → require_fields required_fields m ≡ ok tt
    printed (s, e) = ground arith

pub to_string_lem : (m : Message) → All (Has m) required_fields → to_string m ≡ ok (print m)
unfolding to_string validate_required_fields
to_string_lem m h = ground (arith, (require_fields-eq-ok_iff required_fields m).1 h)

-- If some required field is missing, printing throws an error that names the first one missing.
pub to_string_missing :
    (m : Message) (before : List FieldType) (f : FieldType) (after : List FieldType)
    → required_fields ≡ before ++ f ∷ after
    → All (Has m) before
    → has_field m f ≡ false
    → to_string m ≡ err (error (text "Missing required field: " ++ field_text f))
unfolding to_string validate_required_fields
to_string_missing m before f after e h n =
    rw e (ground (arith, require_fields_missing before f after m h n))

pub to_string_ok : (m : Message) (s : Text) → to_string m ≡ ok s → s ≡ print m
unfolding to_string
to_string_ok m s e = ground arith

pub get_field_missing :
    (m : Message) (f : FieldType) → has_field m f ≡ false → get_field m f ≡ undefined
unfolding get_field has_field
get_field_missing m f h = ground (arith, has-eq-get m.fields f)
