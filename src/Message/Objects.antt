-- ===== src/Message/Objects.antt =====
-- src/message/message.ts: messages as plain objects, and back. A plain object of the language lists
-- its properties with the array indices first, from the least up, and then the others in the order in
-- which they came; `Number(text)`, which the language gives, is a parameter.
pub mod Indexed
pub mod Restored
use nest_quickfix.Prelude.{
  ℕ, Bool, true, false, ◌&&◌, Option, none, some, List, [], ◌∷◌, ◌++◌, ◌==◌, ltb, nat_eq, nat_Eq,
  if◌then◌else◌,
}
use nest_quickfix.Text.{Text, text, text_Eq}
use nest_quickfix.Text.Decimal.{to_decimal}
use nest_quickfix.Text.Integer.{Number, nat, neg, nan, parse_int}
use nest_quickfix.OrderedMap
use nest_quickfix.OrderedMap.{OrderedMap}
use nest_quickfix.Fields.{FieldType, number, field_text}
use nest_quickfix.Message.{Message, Value, new_message, set_field}

pub record PlainObject : Type 0 where
  pub indexed : OrderedMap ℕ Value
  pub named : OrderedMap Text Value

abbrev pub no_properties : PlainObject
no_properties = record { indexed = []; named = [] }

-- An array index is a number below 2 ^ 32 - 1, written in decimal.
abbrev pub index_of_number : Text → Number → Option ℕ
index_of_number key (nat n) = if to_decimal n == key && ltb n 4294967295 then some n else none
index_of_number key (neg n) = none
index_of_number key nan = none

unfoldable pub array_index : Text → Option ℕ
array_index key = index_of_number key (parse_int key)

unfoldable pub put_index : OrderedMap ℕ Value → ℕ → Value → OrderedMap ℕ Value
put_index [] n v = (n, v) ∷ []
put_index ((k, w) ∷ ps) n v =
    let rest = put_index ps n v in
    if nat_eq n k then (n, v) ∷ ps else if ltb n k then (n, v) ∷ ((k, w) ∷ ps) else (k, w) ∷ rest

-- `obj[key] = value`, for a value that is no object: as the prototype it is ignored.
abbrev pub put_at : Option ℕ → Text → Value → PlainObject → PlainObject
put_at (some n) key v o = record o { indexed = put_index o.indexed n v }
put_at none key v o =
    if key == text "__proto__" then o else record o { named = OrderedMap.set o.named key v }

unfoldable pub assign : Text → Value → PlainObject → PlainObject
unfolding array_index put_index
assign key v o = put_at (array_index key) key v o

unfoldable pub assign_each : OrderedMap FieldType Value → PlainObject → PlainObject
unfolding assign
assign_each [] o = o
assign_each ((tag, v) ∷ fields) o = assign_each fields (assign (field_text tag) v o)

-- `toObject()`
unfoldable pub to_object : Message → PlainObject
unfolding assign_each
to_object m = assign_each m.fields no_properties

-- `interface MessageJSON`
pub record MessageJson : Type 0 where
  pub fields : PlainObject

-- `toJSON()`
unfoldable pub to_json : Message → MessageJson
unfolding assign_each
to_json m = record { fields = assign_each m.fields no_properties }

abbrev pub index_entries : OrderedMap ℕ Value → List (Text × Value)
index_entries [] = []
index_entries ((n, v) ∷ ps) = (to_decimal n, v) ∷ index_entries ps

-- `Object.entries(obj)`
abbrev pub entries : PlainObject → List (Text × Value)
entries o = index_entries o.indexed ++ o.named

module _ (to_number : Text → Number) where
  unfoldable pub set_each : Message → List (Text × Value) → Message
  set_each m [] = m
  set_each m ((tag, v) ∷ rest) = set_each (set_field m (number (to_number tag)) v) rest

  -- `fromObject(obj)`
  unfoldable pub from_object : PlainObject → Message
  unfolding set_each
  from_object o = set_each (new_message []) (entries o)

  -- `fromJSON(json)`
  unfoldable pub from_json : MessageJson → Message
  unfolding set_each
  from_json json = set_each (new_message []) (entries json.fields)
