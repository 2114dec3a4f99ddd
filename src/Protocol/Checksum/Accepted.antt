-- ===== src/Protocol/Checksum/Accepted.antt =====
-- The validator accepts what `to_string` prints and `processData` reads.
use nest_quickfix.Prelude.{
  Bool, ◌≡◌, refl, ◌∙◌, true, false, some, [], ◌∷◌, ◌++◌, ◌==◌, arith, eq_iff, eq_refl,
  if◌then◌else◌,
}
use nest_quickfix.Text.{Text, text_Eq}
use nest_quickfix.Text.Splitting.{terminated}
use nest_quickfix.OrderedMap.{has, get}
use nest_quickfix.OrderedMap.Unique.{IsUnique}
use nest_quickfix.Fields.{FieldType, field_Eq, check_sum}
use nest_quickfix.Message.{
  Value, Message, string, value_text, get_field, calculate_checksum, unsummed_text,
}
use nest_quickfix.Message.Wire.{
  Pairs, lines, unsummed_pairs, checksum_pair, unsummed_text-terminated, pair_text-append,
}
use nest_quickfix.Message.Sendable.{IsSendable, wire_pairs-IsUnique}
use nest_quickfix.Parser.Fields.{texts}
use nest_quickfix.Parser.RoundTrip.{received}
use nest_quickfix.Protocol.Checksum.{fields_text, checksum_of, validate}

last_differs :
    (ps : Pairs) (j k : FieldType) (v : Value)
    → has (ps ++ (k, v) ∷ []) j ≡ false
    → (j == k) ≡ false
unfolding has
last_differs [] j k v n = ground (arith, eq_iff j k, eq_iff k j)
last_differs ((i, w) ∷ ps) j k v n = last_differs ps j k v (ground arith)

-- The last of several fields is not among those before it.
has_last :
    (ps : Pairs) (k : FieldType) (v : Value) → IsUnique (ps ++ (k, v) ∷ []) → has ps k ≡ false
unfolding has
has_last [] k v u = refl
has_last ((j, w) ∷ ps) k v (n, u) = ground (arith, last_differs ps j k v n, has_last ps k v u)

not_either : (a b : Bool) → (if a then true else b) ≡ false → (a ≡ false) × (b ≡ false)
not_either true b h = absurd (cc)
not_either false b h = (refl, h)

fields_text-last :
    (ps : Pairs) (v : Value)
    → has ps check_sum ≡ false
    → fields_text (texts (ps ++ (check_sum, v) ∷ [])) ≡ terminated (lines ps)
unfolding fields_text has
fields_text-last [] v n = refl
fields_text-last ((k, w) ∷ ps) v n =
    rw
      (
        (not_either (k == check_sum) (has ps check_sum) n).0,
        fields_text-last ps v (not_either (k == check_sum) (has ps check_sum) n).1,
      )
      (pair_text-append k (string (value_text w)) (terminated (lines ps))
        ∙ (unfold value_text in refl))

get-last :
    (ps : Pairs) (v : Value)
    → has ps check_sum ≡ false
    → get (texts (ps ++ (check_sum, v) ∷ [])) check_sum ≡ some (string (value_text v))
unfolding get has
get-last [] v n = refl
get-last ((k, w) ∷ ps) v n = ground (arith, get-last ps v)

checksum_of_lem : (m : Message) → checksum_of m ≡ calculate_checksum (fields_text m.fields)
unfolding checksum_of calculate_checksum
checksum_of_lem m = refl

value_text-string : (t : Text) → value_text (string t) ≡ t
unfolding value_text
value_text-string t = refl

-- A message that was printed by `to_string` and read back by the parser of the acceptor has the
-- checksum that the validator of the protocol asks for.
pub validate-received : (m : Message) → IsSendable m → validate (received m) ≡ true
unfolding validate get_field
validate-received m s =
    let n =
      has_last (unsummed_pairs m) check_sum (checksum_pair m).1 (wire_pairs-IsUnique m s.unique) in
    rw
      (
        checksum_of_lem (received m),
        get-last (unsummed_pairs m) (checksum_pair m).1 n,
        fields_text-last (unsummed_pairs m) (checksum_pair m).1 n,
        ← unsummed_text-terminated m s.required,
        value_text-string,
      )
      (eq_refl (calculate_checksum (unsummed_text m)))
