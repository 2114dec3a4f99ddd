-- ===== src/Session/Completed.antt =====
-- A message completed by the defaults of its session.
use nest_quickfix.Prelude.{
  Bool, true, false, ◌≡◌, List, [], ◌∷◌, ◌==◌, eq_iff, arith, if◌then◌else◌,
}
use nest_quickfix.Fields.{FieldType, field_Eq}
use nest_quickfix.Message.{Message, Value, Field, undefined, get_field, has_field, set_field}
use nest_quickfix.Message.Laws.{
  IsMessage, get_field-set_field, has_field-set_field, set_field-IsMessage, get_field_missing,
}
use nest_quickfix.Session.Sending.{set_missing}

-- The value of a field among defaults.
abbrev pub default_of : List Field → FieldType → Value
default_of [] f = undefined
default_of (d ∷ ds) f = if d.tag == f then d.value else default_of ds f

-- A field of the message, or else its default.
abbrev pub given : Message → List Field → FieldType → Value
given m ds f = if has_field m f then get_field m f else default_of ds f

pub get_field-set_missing :
    (m : Message) (ds : List Field) (f : FieldType) → get_field (set_missing m ds) f ≡ given m ds f
unfolding set_missing
get_field-set_missing m [] f = ground (arith, get_field_missing m f)
get_field-set_missing m (d ∷ ds) f = ground (
  arith,
  get_field-set_missing m ds f,
  get_field-set_missing (set_field m d.tag d.value) ds f,
  get_field-set_field m d.tag f d.value,
  has_field-set_field m d.tag f d.value,
  eq_iff d.tag f,
)

set_missing-Keeps :
    (m : Message) (ds : List Field) (f : FieldType)
    → has_field m f ≡ true
    → has_field (set_missing m ds) f ≡ true
unfolding set_missing
set_missing-Keeps m [] f h = h
set_missing-Keeps m (d ∷ ds) f h = ground (
  arith,
  set_missing-Keeps m ds f,
  set_missing-Keeps (set_field m d.tag d.value) ds f,
  has_field-set_field m d.tag f d.value,
)

-- The key is among the defaults.
abbrev pub is_default : List Field → FieldType → Bool
is_default [] f = false
is_default (d ∷ ds) f = if d.tag == f then true else is_default ds f

pub has_field-set_missing :
    (m : Message) (ds : List Field) (f : FieldType)
    → has_field (set_missing m ds) f ≡ (if has_field m f then true else is_default ds f)
unfolding set_missing
has_field-set_missing m [] f = ground arith
has_field-set_missing m (d ∷ ds) f = ground (
  arith,
  has_field-set_missing m ds f,
  has_field-set_missing (set_field m d.tag d.value) ds f,
  has_field-set_field m d.tag f d.value,
  eq_iff d.tag f,
)

pub set_missing-IsMessage :
    (m : Message) (ds : List Field) → IsMessage m → IsMessage (set_missing m ds)
unfolding set_missing
set_missing-IsMessage m [] u = u
set_missing-IsMessage m (d ∷ ds) u =
    set_missing-IsMessage (if has_field m d.tag then m else set_field m d.tag d.value) ds
      (ground (arith, set_field-IsMessage m d.tag d.value u))
