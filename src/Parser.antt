-- ===== src/Parser.antt =====
-- src/message/fix.message.parser.ts: the parser that the acceptor uses.
-- The decoding of a `Buffer` is the runtime's: `process_data` takes the text of `data.toString()`.
pub mod Fields
pub mod RoundTrip
pub mod Received
use nest_quickfix.Prelude.{
  ℕ, Bool, true, false, not, ◌&&◌, List, [], ◌∷◌, ◌++◌, Option, none, some, ◌==◌, ◌≡◌, refl,
  if◌then◌else◌,
}
use nest_quickfix.Text.{Text, text, soh, split, starts_with, text_Eq}
use nest_quickfix.Text.Integer.{Number, parse_int}
use nest_quickfix.OrderedMap
use nest_quickfix.OrderedMap.{OrderedMap}
use nest_quickfix.Fields.{FieldType, number, field_Eq, begin_string, msg_type}
use nest_quickfix.Message.{
  Message, Value, string, undefined, new_message, set_field, has_field, copy_fields,
}

-- `s.split(this.SOH)`
abbrev pub split_soh : Text → List Text
split_soh s = split (soh ∷ []) s

-- What `const [tag, value] = field.split('=')` binds; `none` is `undefined`.
unfoldable pub tag_and_value : List Text → Text × Option Text
tag_and_value [] = ([], none)
tag_and_value (tag ∷ []) = (tag, none)
tag_and_value (tag ∷ value ∷ rest) = (tag, some value)

-- The body of `fields.forEach` in `processData`; a text is truthy if it is not empty.
unfoldable pub store_field : Message → Text → Option Text → Message
store_field m tag none = m
store_field m [] (some value) = m
store_field m tag (some []) = m
store_field m tag (some value) =
    if tag == text "8"
    then set_field m begin_string (string value)
    else set_field m (number (parse_int tag)) (string value)

unfoldable pub read_field : Message → Text → Message
unfolding tag_and_value store_field
read_field m [] = m
read_field m (c ∷ field) =
    let (tag, value) = tag_and_value (split (text "=") (c ∷ field)) in store_field m tag value

unfoldable pub read_fields : Message → List Text → Message
unfolding read_field
read_fields m [] = m
read_fields m (field ∷ fields) = read_fields (read_field m field) fields

-- The text that is read for a piece of the chunk.
unfoldable pub restore_start : Text → Text
restore_start raw = if starts_with raw (text "8=") then raw else text "8=" ++ raw

-- One round of the loop over the pieces: an error is logged and the piece dropped.
unfoldable pub read_piece : Text → List Message
unfolding restore_start read_fields
read_piece [] = []
read_piece (c ∷ raw) =
    let m = read_fields (new_message []) (split_soh (restore_start (c ∷ raw))) in
    if has_field m begin_string && has_field m msg_type then m ∷ [] else []

unfoldable pub read_pieces : List Text → List Message
unfolding read_piece
read_pieces [] = []
read_pieces (piece ∷ pieces) = read_piece piece ++ read_pieces pieces

unfoldable pub process_data : Text → List Message
unfolding read_pieces
process_data raw_data = read_pieces (split (soh ∷ text "8=") raw_data)

-- `parseFields`: here a value may be missing, and an empty tag is read as `NaN`.
unfoldable pub parse_fields : List Text → OrderedMap FieldType Value → OrderedMap FieldType Value
unfolding tag_and_value
parse_fields [] fields = fields
parse_fields ([] ∷ pairs) fields = parse_fields pairs fields
parse_fields ((c ∷ pair) ∷ pairs) fields =
    let (tag, value) = tag_and_value (split (text "=") (c ∷ pair)) in
    let v : Value = elim value [ none ↦ undefined | some t ↦ string t ] in
    parse_fields pairs (OrderedMap.set fields (number (parse_int tag)) v)

-- `parse` throws nothing: `parseFields` accepts every text.
unfoldable pub parse : Text → Message
unfolding parse_fields copy_fields
parse raw_message = copy_fields (new_message []) (parse_fields (split_soh raw_message) [])
