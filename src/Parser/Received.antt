-- ===== src/Parser/Received.antt =====
-- What the message that is read back says of the message that was sent.
use nest_quickfix.Prelude.{
  ◌≡◌, ◌≢◌, sym, ap, ◌∙◌, true, [], ◌∷◌, ◌++◌, arith, eq_iff, eq_false, ◌==◌, Bool-cases, inl, inr,
  some,
}
use nest_quickfix.OrderedMap.{get}
use nest_quickfix.Fields.{
  FieldType, field_Eq, begin_string, body_length, check_sum, msg_type, sender_comp_id,
  target_comp_id, msg_seq_num, sending_time,
}
use nest_quickfix.Message.{Message, Value, string, value_text, get_field, has_field, is_rest}
use nest_quickfix.OrderedMap.Laws.{has-eq-get}
use nest_quickfix.Message.Laws.{Has}
use nest_quickfix.Message.Copies.{get_of_Has}
use nest_quickfix.Message.Wire.{Pairs, checksum_pair, wire_pairs, rest_pairs}
use nest_quickfix.Parser.Fields.{texts}
use nest_quickfix.Parser.RoundTrip.{received}

get-texts :
    (ps : Pairs) (f : FieldType) (v : Value)
    → get ps f ≡ some v
    → get (texts ps) f ≡ some (string (value_text v))
unfolding get
get-texts [] f v h = cc
get-texts ((k, w) ∷ ps) f v h = ground (arith, get-texts ps f v)

get-rest_pairs :
    (ps : Pairs) (f : FieldType) (v : Value) (t : FieldType × Value)
    → is_rest f ≡ true
    → get ps f ≡ some v
    → get (rest_pairs ps ++ t ∷ []) f ≡ some v
unfolding get
get-rest_pairs [] f v t r h = cc
get-rest_pairs ((k, w) ∷ ps) f v t r h = ground (arith, get-rest_pairs ps f v t, eq_iff k f)

-- One field of the wire, looked up: either it is the one, or the rest decides.
get_step :
    (m : Message) (k f : FieldType) (ps : Pairs)
    → (k ≢ f → get ps f ≡ some (get_field m f))
    → get ((k, get_field m k) ∷ ps) f ≡ some (get_field m f)
unfolding get
get_step m k f ps h = elim (Bool-cases (k == f)) [
  | inl e ↦ rw e (ap (λ x. some (get_field m x)) ((eq_iff k f).0 e))
  | inr e ↦ rw e (h (λ p. cc ((eq_iff k f).1 p, e)))
]

get_skip : (k f : FieldType) (v : Value) (ps : Pairs) → k ≢ f → get ((k, v) ∷ ps) f ≡ get ps f
unfolding get
get_skip k f v ps h = rw (eq_false k f h)

is_rest_of_ne :
    (f : FieldType)
    → begin_string ≢ f
    → body_length ≢ f
    → check_sum ≢ f
    → msg_type ≢ f
    → sender_comp_id ≢ f
    → target_comp_id ≢ f
    → msg_seq_num ≢ f
    → sending_time ≢ f
    → is_rest f ≡ true
unfolding is_rest
is_rest_of_ne f a b c d g h i j = rw (
  eq_false f begin_string (λ e. a (sym e)),
  eq_false f body_length (λ e. b (sym e)),
  eq_false f check_sum (λ e. c (sym e)),
  eq_false f msg_type (λ e. d (sym e)),
  eq_false sender_comp_id f g,
  eq_false target_comp_id f h,
  eq_false msg_seq_num f i,
  eq_false sending_time f j,
)

get-wire_pairs :
    (m : Message) (f : FieldType)
    → Has m f
    → f ≢ body_length
    → f ≢ check_sum
    → get (wire_pairs m) f ≡ some (get_field m f)
get-wire_pairs m f h n9 n10 = get_step m begin_string f _ λ a.
    get_skip body_length f _ _ (λ e. n9 (sym e))
    ∙ get_step m msg_type f _ λ b. get_step m sender_comp_id f _ λ c.
      get_step m target_comp_id f _ λ d. get_step m msg_seq_num f _ λ g.
        get_step m sending_time f _ λ i.
          get-rest_pairs m.fields f (get_field m f) (checksum_pair m)
            (is_rest_of_ne f a (λ e. n9 (sym e)) (λ e. n10 (sym e)) b c d g i) (get_of_Has m f h)

-- A field that the message has, other than its length and its checksum, is read back as the text
-- of its value.
pub get_field-received :
    (m : Message) (f : FieldType)
    → Has m f
    → f ≢ body_length
    → f ≢ check_sum
    → get_field (received m) f ≡ string (value_text (get_field m f))
unfolding get_field
get_field-received m f h n9 n10 =
    ground (arith, get-texts (wire_pairs m) f (get_field m f) (get-wire_pairs m f h n9 n10))

pub has_field-received :
    (m : Message) (f : FieldType) → Has m f → f ≢ body_length → f ≢ check_sum → Has (received m) f
unfolding has_field
has_field-received m f h n9 n10 = ground (
  arith,
  has-eq-get (texts (wire_pairs m)) f,
  get-texts (wire_pairs m) f (get_field m f) (get-wire_pairs m f h n9 n10),
)
