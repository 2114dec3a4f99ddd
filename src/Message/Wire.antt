-- ===== src/Message/Wire.antt =====
-- The text of a message as a list of fields: what `to_string` prints, field by field.
use nest_quickfix.Prelude.{
  ◌≡◌, refl, sym, ap, ap₂, ◌∙◌, List, [], ◌∷◌, ◌++◌, All, length, append_assoc, Bool-cases, inl,
  inr, if◌then◌else◌,
}
use nest_quickfix.Text.{Text, soh}
use nest_quickfix.Text.Integer.{nat}
use nest_quickfix.Text.Splitting.{terminated}
use nest_quickfix.OrderedMap.{OrderedMap}
use nest_quickfix.Fields.{
  FieldType, field_Eq, field_text, begin_string, body_length, check_sum, msg_type, msg_seq_num,
  sender_comp_id, sending_time, target_comp_id,
}
use nest_quickfix.Message.{
  Message, Value, string, numeric, value_text, get_field, pair_text, rest_text, is_rest, body_text,
  unsummed_text, calculate_checksum, ordered_text, required_fields,
}
use nest_quickfix.Message.Laws.{Has, print}

abbrev pub Pairs : Type 0
Pairs = OrderedMap FieldType Value

-- A field without its separator.
abbrev pub line : FieldType → Value → Text
line k v = field_text k ++ 61 ∷ value_text v

abbrev pub lines : Pairs → List Text
lines [] = []
lines ((k, v) ∷ ps) = line k v ∷ lines ps

abbrev pub rest_pairs : Pairs → Pairs
rest_pairs [] = []
rest_pairs ((k, v) ∷ m) = if is_rest k then (k, v) ∷ rest_pairs m else rest_pairs m

-- The fields between the length and the checksum, if the required ones are there.
abbrev pub body_pairs : Message → Pairs
body_pairs m =
    (msg_type, get_field m msg_type)
    ∷ (sender_comp_id, get_field m sender_comp_id)
    ∷ (target_comp_id, get_field m target_comp_id)
    ∷ (msg_seq_num, get_field m msg_seq_num)
    ∷ (sending_time, get_field m sending_time)
    ∷ rest_pairs m.fields

abbrev pub checksum_pair : Message → FieldType × Value
checksum_pair m = (check_sum, string (calculate_checksum (unsummed_text m)))

abbrev pub length_pair : Message → FieldType × Value
length_pair m = (body_length, numeric (nat (length (body_text m))))

abbrev pub unsummed_pairs : Message → Pairs
unsummed_pairs m = (begin_string, get_field m begin_string) ∷ length_pair m ∷ body_pairs m

-- The fields of the text, in their order.
abbrev pub wire_pairs : Message → Pairs
wire_pairs m = unsummed_pairs m ++ checksum_pair m ∷ []

pair_text-line : (k : FieldType) (v : Value) → pair_text k v ≡ line k v ++ soh ∷ []
unfolding pair_text
pair_text-line k v = rw append_assoc

pub pair_text-append :
    (k : FieldType) (v : Value) (s : Text) → pair_text k v ++ s ≡ line k v ++ soh ∷ s
pair_text-append k v s = rw (pair_text-line k v, append_assoc (line k v) (soh ∷ []) s)

rest_text-terminated : (ps : Pairs) → rest_text ps ≡ terminated (lines (rest_pairs ps))
unfolding rest_text
rest_text-terminated [] = refl
rest_text-terminated ((k, v) ∷ ps) = elim (Bool-cases (is_rest k)) [
  | inl p ↦ rw p (
      pair_text-append k v (rest_text ps) ∙ ap (λ t. line k v ++ soh ∷ t) (rest_text-terminated ps))
  | inr p ↦ rw p (rest_text-terminated ps)
]

-- The body is the text of its fields.
pub body_text-terminated :
    (m : Message) → All (Has m) required_fields → body_text m ≡ terminated (lines (body_pairs m))
unfolding body_text ordered_text pair_text
body_text-terminated m (_, (_, (h49, (h56, (h34, (h52, _)))))) =
    rw (h49, h56, h34, h52, rest_text-terminated m.fields) (simp append_assoc)

terminated-append : (ks ls : List Text) → terminated (ks ++ ls) ≡ terminated ks ++ terminated ls
terminated-append [] ls = refl
terminated-append (k ∷ ks) ls = rw (terminated-append ks ls, append_assoc)

lines-append : (ps qs : Pairs) → lines (ps ++ qs) ≡ lines ps ++ lines qs
lines-append [] qs = refl
lines-append ((k, v) ∷ ps) qs = ap (λ ls. line k v ∷ ls) (lines-append ps qs)

pub unsummed_text-terminated :
    (m : Message)
    → All (Has m) required_fields
    → unsummed_text m ≡ terminated (lines (unsummed_pairs m))
unfolding unsummed_text
unsummed_text-terminated m h =
    pair_text-append begin_string _ _
    ∙ ap (λ t. line begin_string (get_field m begin_string) ++ soh ∷ t)
        (pair_text-append body_length _ _
          ∙ ap (λ t. line body_length (length_pair m).1 ++ soh ∷ t) (body_text-terminated m h))

-- What is printed is the text of the fields on the wire.
pub print-terminated :
    (m : Message) → All (Has m) required_fields → print m ≡ terminated (lines (wire_pairs m))
print-terminated m h =
    ap₂ (λ a b. a ++ b) (unsummed_text-terminated m h) (pair_text-line check_sum _)
    ∙ sym (
        ap terminated (lines-append (unsummed_pairs m) (checksum_pair m ∷ []))
        ∙ terminated-append (lines (unsummed_pairs m)) (lines (checksum_pair m ∷ [])))
