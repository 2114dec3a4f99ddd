-- ===== src/Protocol/Parser.antt =====
-- src/protocol/parser/message.parser.ts, `class FIXMessageParser`: a parser that keeps a buffer.
pub mod Silent
use nest_quickfix.Prelude.{
  ℕ, zero, suc, ◌+◌, ◌-◌, Bool, true, false, not, ◌&&◌, ◌||◌, Option, none, some, List, [], ◌∷◌,
  ◌++◌, length, leb, nat_eq, if◌then◌else◌,
}
use nest_quickfix.Text.{Text, text, soh, split, starts_with, index_of}
use nest_quickfix.Text.Integer.{Number, nat, neg, parse_int}
use nest_quickfix.OrderedMap
use nest_quickfix.OrderedMap.{OrderedMap}
use nest_quickfix.Result.{Result, Error, ok, err, parser_error, message_of}
use nest_quickfix.Fields.{FieldType, number, field_Eq}
use nest_quickfix.Message.{
  Message, Value, string, numeric, undefined, strict_equal, new_message, copy_fields,
}
use nest_quickfix.Parser.{tag_and_value}
use nest_quickfix.Protocol.Checksum.{validate}

abbrev is_digit : ℕ → Bool
is_digit c = leb 48 c && leb c 57

-- `(\d+)\x01` at the front of a text, where no digit is missed if `\d+` may be empty
digits_to_soh : Text → Option Text
digits_to_soh [] = none
digits_to_soh (c ∷ s) =
    let rest = digits_to_soh s in
    if nat_eq c soh
    then some []
    else if is_digit c
    then elim rest [ none ↦ none | some d ↦ some (c ∷ d) ]
    else none

some_digits : Option Text → Option Text
some_digits none = none
some_digits (some []) = none
some_digits (some (c ∷ d)) = some (c ∷ d)

-- `/9=(\d+)\x01/` at the front of a text
match_here : Text → Option Text
unfolding digits_to_soh some_digits
match_here [] = none
match_here (c ∷ []) = none
match_here (c ∷ d ∷ s) = if nat_eq c 57 && nat_eq d 61 then some_digits (digits_to_soh s) else none

-- `message.match(/9=(\d+)\x01/)`, its group: the first place that matches
unfoldable pub match_body_length : Text → Option Text
unfolding match_here
match_body_length [] = none
match_body_length (c ∷ s) =
    let later = match_body_length s in elim (match_here (c ∷ s)) [ none ↦ later | some d ↦ some d ]

-- `message.indexOf('9=')`
index_of_length : Text → Option ℕ
unfolding starts_with
index_of_length [] = none
index_of_length (c ∷ s) =
    let rest = index_of_length s in
    if starts_with (c ∷ s) (text "9=")
    then some 0
    else elim rest [ none ↦ none | some i ↦ some (suc i) ]

-- `message.lastIndexOf(SOH)`
last_index_of : ℕ → Text → Option ℕ
last_index_of c [] = none
last_index_of c (d ∷ s) = elim (last_index_of c s) [
  | none ↦ if nat_eq d c then some 0 else none
  | some i ↦ some (suc i)
]

-- `a - b`
abbrev difference : ℕ → ℕ → Number
difference a b = if leb b a then nat (a - b) else neg (b - a - 1)

-- One more than an index, which is -1 where nothing was found.
abbrev after : Option ℕ → ℕ
after none = 0
after (some i) = i + 1

-- `calculateBodyLength(message)`: `start` is `indexOf + 2`, and `end - start` is taken one higher.
unfoldable pub calculate_body_length : Text → Number
unfolding index_of_length last_index_of
calculate_body_length s = difference (after (last_index_of soh s)) (after (index_of_length s) + 2)

declares : Option Text → Number → Bool
declares none actual = false
declares (some digits) actual = strict_equal (numeric (parse_int digits)) (numeric actual)

-- `isValidMessageFormat(message)`
unfoldable pub is_valid_message_format : Text → Bool
unfolding match_body_length calculate_body_length declares
is_valid_message_format s =
    starts_with s (text "8=FIX") && declares (match_body_length s) (calculate_body_length s)

-- `parseFields(message)`, on the parts of the text
unfoldable pub parse_fields : List Text → OrderedMap FieldType Value → OrderedMap FieldType Value
unfolding tag_and_value
parse_fields [] fields = fields
parse_fields ([] ∷ pairs) fields = parse_fields pairs fields
parse_fields ((c ∷ pair) ∷ pairs) fields =
    let (tag, value) = tag_and_value (split (text "=") (c ∷ pair)) in
    let v : Value = elim value [ none ↦ undefined | some t ↦ string t ] in
    parse_fields pairs (OrderedMap.set fields (number (parse_int tag)) v)

-- The message of the fields.
unfoldable pub build : Text → Message
unfolding parse_fields copy_fields
build s = copy_fields (new_message []) (parse_fields (split (soh ∷ []) s) [])

-- The `try` of `parse`
unfoldable pub checked : Text → Result Message
unfolding is_valid_message_format build
checked s =
    if is_valid_message_format s
    then if validate (build s) then ok (build s) else err (parser_error (text "Invalid checksum"))
    else err (parser_error (text "Invalid message format"))

rethrow : Result Message → Result Message
rethrow (ok m) = ok m
rethrow (err e) = err (parser_error (text "Failed to parse message: " ++ message_of e))

-- `parse(rawMessage)`
unfoldable pub parse : Text → Result Message
unfolding checked rethrow
parse s = rethrow (checked s)

-- `indexOf(SOH)`, and the text cut behind it
unfoldable pub cut_at_soh : Text → Option (Text × Text)
cut_at_soh [] = none
cut_at_soh (c ∷ s) =
    let rest = cut_at_soh s in
    if nat_eq c soh
    then some (c ∷ [], s)
    else elim rest [ none ↦ none | some (raw, left) ↦ some (c ∷ raw, left) ]

-- `messages.push(message)`, unless parsing threw
unfoldable pub push : Result Message → List Message × Text → List Message × Text
push (ok m) (ms, buffer) = (m ∷ ms, buffer)
push (err e) (ms, buffer) = (ms, buffer)

-- The `while` of `processData`; each round takes a character at least, so that the length of the
-- buffer is fuel enough.
unfoldable pub read_buffer : ℕ → Text → List Message × Text
unfolding cut_at_soh push
read_buffer zero buffer = ([], buffer)
read_buffer (suc fuel) buffer = elim (cut_at_soh buffer) [
  | none ↦ ([], buffer)
  | some (raw, left) ↦ push (parse raw) (read_buffer fuel left)
]

-- `processData(data)`: the messages, and the buffer that is left
unfoldable pub process_data : Text → Text → List Message × Text
unfolding read_buffer
process_data buffer data' = read_buffer (length (buffer ++ data')) (buffer ++ data')
