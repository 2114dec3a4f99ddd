-- ===== src/Message.antt =====
-- src/message/message.ts: the message, a map from fields to values, and its methods.
pub mod Laws
pub mod Copies
pub mod Wire
pub mod Sendable
pub mod Frame
pub mod Objects
pub mod Templates
use nest_quickfix.Prelude.{
  ℕ, ◌+◌, ◌%◌, ◌≡◌, refl, Bool, true, false, not, ◌&&◌, ◌||◌, Option, none, some, List, [], ◌∷◌,
  ◌++◌, length, ◌==◌, nat_eq, if◌then◌else◌,
}
use nest_quickfix.Text.{Text, text, soh, text_Eq}
use nest_quickfix.Text.Decimal.{to_decimal, pad_start}
use nest_quickfix.Text.Integer.{Number, nat, neg, nan, number_text}
use nest_quickfix.OrderedMap
use nest_quickfix.OrderedMap.{OrderedMap}
use nest_quickfix.Result.{Result, ok, err, error, ◌>>=◌, ◌>>◌}
use nest_quickfix.Fields.{
  FieldType, field_Eq, field_text, begin_string, body_length, check_sum, msg_type, msg_seq_num,
  sender_comp_id, sending_time, target_comp_id,
}

-- The values that the program stores in fields: `undefined` is what a missing field reads as.
pub data Value : Type 0 where
  string : Text → Value
  numeric : Number → Value
  undefined : Value

-- `a === b`
abbrev pub strict_equal : Value → Value → Bool
strict_equal (string a) (string b) = a == b
strict_equal (numeric (nat a)) (numeric (nat b)) = nat_eq a b
strict_equal (numeric (neg a)) (numeric (neg b)) = nat_eq a b
strict_equal undefined undefined = true
strict_equal _ _ = false

-- `${value}`
unfoldable pub value_text : Value → Text
value_text (string s) = s
value_text (numeric n) = number_text n
value_text undefined = text "undefined"

-- `if (value)`
abbrev pub truthy : Value → Bool
truthy (string []) = false
truthy (string (c ∷ s)) = true
truthy (numeric (nat n)) = not (nat_eq n 0)
truthy (numeric (neg n)) = true
truthy (numeric nan) = false
truthy undefined = false

-- `class Field`
pub record Field : Type 0 where
  pub tag : FieldType
  pub value : Value

-- `class Message`
pub record Message : Type 0 where
  pub fields : OrderedMap FieldType Value

unfoldable pub set_field : Message → FieldType → Value → Message
set_field m field value = record { fields = OrderedMap.set m.fields field value }

or_undefined : Option Value → Value
or_undefined none = undefined
or_undefined (some v) = v

unfoldable pub get_field : Message → FieldType → Value
unfolding or_undefined
get_field m field = or_undefined (OrderedMap.get m.fields field)

unfoldable pub has_field : Message → FieldType → Bool
has_field m field = OrderedMap.has m.fields field

unfoldable pub set_fields : Message → List Field → Message
unfolding set_field
set_fields m [] = m
set_fields m (f ∷ fs) = set_fields (set_field m f.tag f.value) fs

-- `new Message(...fields)`
unfoldable pub new_message : List Field → Message
unfolding set_fields
new_message fs = set_fields (record { fields = [] }) fs

unfoldable pub remove_field : Message → FieldType → Message
remove_field m field = record { fields = OrderedMap.delete m.fields field }

unfoldable pub clear : Message → Message
clear m = record { fields = [] }

unfoldable pub count_fields : Message → ℕ
count_fields m = OrderedMap.size m.fields

unfoldable pub is_empty : Message → Bool
is_empty m = nat_eq (OrderedMap.size m.fields) 0

-- The loop `this.fields.forEach((value, tag) => target.setField(tag, value))`.
unfoldable pub copy_fields : Message → OrderedMap FieldType Value → Message
unfolding set_field
copy_fields target [] = target
copy_fields target ((k, v) ∷ rest) = copy_fields (set_field target k v) rest

unfoldable pub clone : Message → Message
unfolding new_message copy_fields
clone m = copy_fields (new_message []) m.fields

unfoldable pub create_reverse : Message → Message
unfolding new_message copy_fields set_field get_field
create_reverse m =
    let reversed = copy_fields (new_message []) m.fields in
    let original_sender = get_field m sender_comp_id in
    let original_target = get_field m target_comp_id in
    set_field (set_field reversed sender_comp_id original_target) target_comp_id original_sender

-- The loop over required fields: it throws at the first that is missing.
unfoldable pub require_fields : List FieldType → Message → Result (Unit {0})
require_fields [] m = ok tt
require_fields (f ∷ fs) m =
    let rest = require_fields fs m in
    if has_field m f then rest else err (error (text "Missing required field: " ++ field_text f))

abbrev pub required_fields : List FieldType
required_fields =
    begin_string ∷ msg_type ∷ sender_comp_id ∷ target_comp_id ∷ msg_seq_num ∷ sending_time ∷ []

unfoldable pub validate_required_fields : Message → Result (Unit {0})
validate_required_fields m = require_fields required_fields m

-- `${field}=${value}${SOH}`
unfoldable pub pair_text : FieldType → Value → Text
pair_text field value = field_text field ++ (61 ∷ (value_text value ++ soh ∷ []))

abbrev pub ordered_fields : List FieldType
ordered_fields = sender_comp_id ∷ target_comp_id ∷ msg_seq_num ∷ sending_time ∷ []

-- `orderedFields.includes(tag)`
unfoldable pub includes : List FieldType → FieldType → Bool
includes [] f = false
includes (g ∷ gs) f = g == f || includes gs f

unfoldable pub ordered_text : List FieldType → Message → Text
ordered_text [] m = []
ordered_text (f ∷ fs) m =
    (if has_field m f then pair_text f (get_field m f) else []) ++ ordered_text fs m

-- The fields that the last loop of `toString` prints.
unfoldable pub is_rest : FieldType → Bool
unfolding includes
is_rest f =
    not (f == begin_string)
    && not (f == body_length)
    && not (f == check_sum)
    && not (f == msg_type)
    && not (includes ordered_fields f)

unfoldable pub rest_text : OrderedMap FieldType Value → Text
rest_text [] = []
rest_text ((k, v) ∷ m) = (if is_rest k then pair_text k v else []) ++ rest_text m

unfoldable pub code_sum : Text → ℕ
code_sum [] = 0
code_sum (c ∷ s) = c + code_sum s

unfoldable pub calculate_checksum : Text → Text
unfolding code_sum to_decimal pad_start
calculate_checksum s = pad_start 3 (to_decimal (code_sum s % 256))

unfoldable pub body_text : Message → Text
body_text m =
    pair_text msg_type (get_field m msg_type)
    ++ (ordered_text ordered_fields m ++ rest_text m.fields)

-- `toString()` after its validation: all but the checksum.
unfoldable pub unsummed_text : Message → Text
unsummed_text m =
    pair_text begin_string (get_field m begin_string)
    ++ (pair_text body_length (numeric (nat (length (body_text m)))) ++ body_text m)

unfoldable pub to_string : Message → Result Text
to_string m = do
  validate_required_fields m
  let fix_string = unsummed_text m
  ok (fix_string ++ pair_text check_sum (string (calculate_checksum fix_string)))
