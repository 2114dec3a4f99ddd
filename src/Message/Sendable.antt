-- ===== src/Message/Sendable.antt =====
-- The messages whose text can be read back: numeric tags, and values that are not empty and hold
-- neither the separator nor `=`.
use nest_quickfix.Prelude.{
  ℕ, ◌%◌, ◌≤◌, ◌≡◌, ◌≢◌, refl, ap, true, false, [], ◌∷◌, ◌++◌, All, All-append, length, arith, ◌==◌,
  eq_iff, some, Bool-cases, inl, inr, ◌⊎◌, if◌then◌else◌,
}
use nest_quickfix.Text.{Text, soh, Lacks}
use nest_quickfix.Text.Decimal.{
  to_decimal, Digit, to_decimal-Digit, length-to_decimal, pad_start-Digit, length-le-pad_start,
}
use nest_quickfix.Text.Integer.{nat, number_text}
use nest_quickfix.OrderedMap.{get, has}
use nest_quickfix.OrderedMap.Unique.{IsUnique}
use nest_quickfix.Fields.{
  FieldType, tag, field_Eq, begin_string, body_length, check_sum, msg_type, msg_seq_num,
  sender_comp_id, sending_time, target_comp_id,
}
use nest_quickfix.Message.{
  Message, Value, numeric, value_text, get_field, is_rest, calculate_checksum, code_sum, body_text,
  unsummed_text, required_fields,
}
use nest_quickfix.Message.Laws.{IsMessage, Has}
use nest_quickfix.Message.Copies.{get_of_Has}
use nest_quickfix.Message.Wire.{Pairs, rest_pairs, checksum_pair, unsummed_pairs, wire_pairs}

abbrev pub IsPlain : Text → Type 0
IsPlain t = (t ≢ []) × Lacks soh t × Lacks 61 t

abbrev pub IsTag : FieldType → Type 0
IsTag k = (n : ℕ) × (k ≡ tag n)

abbrev pub IsClean : FieldType × Value → Type 0
IsClean p = IsTag p.0 × IsPlain (value_text p.1)

pub record IsSendable (m : Message) : Type 0 where
  pub unique : IsMessage m
  pub required : All (Has m) required_fields
  pub clean : All IsClean m.fields

-- Digits are plain.
pub Digit-Lacks : (c : ℕ) (t : Text) → (c ≤ 47) ⊎ (58 ≤ c) → All Digit t → Lacks c t
Digit-Lacks c [] h d = tt
Digit-Lacks c (e ∷ t) h (d, ds) = (ground arith, Digit-Lacks c t h ds)

Digit-IsPlain : (t : Text) → 1 ≤ length t → All Digit t → IsPlain t
Digit-IsPlain t l d = (
  λ e. absurd (omega (arith, ap length e)),
  Digit-Lacks soh t (inl (omega arith)) d,
  Digit-Lacks 61 t (inr (omega arith)) d,
)

pub IsPlain-number : (n : ℕ) → IsPlain (value_text (numeric (nat n)))
unfolding value_text number_text
IsPlain-number n = Digit-IsPlain (to_decimal n) (length-to_decimal n) (to_decimal-Digit n)

pub calculate_checksum-Digit : (s : Text) → All Digit (calculate_checksum s)
unfolding calculate_checksum
calculate_checksum-Digit s =
    pad_start-Digit 3 (to_decimal (code_sum s % 256)) (to_decimal-Digit (code_sum s % 256))

calculate_checksum-pos : (s : Text) → 1 ≤ length (calculate_checksum s)
unfolding calculate_checksum
calculate_checksum-pos s = omega (
  arith,
  length-to_decimal (code_sum s % 256),
  length-le-pad_start 3 (to_decimal (code_sum s % 256)),
)

pub IsPlain-checksum : (s : Text) → IsPlain (calculate_checksum s)
IsPlain-checksum s =
    Digit-IsPlain (calculate_checksum s) (calculate_checksum-pos s) (calculate_checksum-Digit s)

-- What holds of all entries holds of one that is found.
clean_value :
    (ps : Pairs) (f : FieldType) (v : Value)
    → All IsClean ps
    → get ps f ≡ some v
    → IsPlain (value_text v)
unfolding get
clean_value [] f v c h = cc
clean_value ((k, w) ∷ ps) f v ((_, p), c) h = elim (Bool-cases (k == f)) [
  | inl e ↦ let same : w ≡ v = ground arith in rw (← same) p
  | inr e ↦ clean_value ps f v c (ground arith)
]

pub get_field-IsPlain :
    (m : Message) (f : FieldType)
    → All IsClean m.fields
    → Has m f
    → IsPlain (value_text (get_field m f))
get_field-IsPlain m f c h = clean_value m.fields f (get_field m f) c (unfold get_field in found)
  where
    found : get m.fields f ≡ some (get_field m f)
    found = get_of_Has m f h

rest_pairs-IsClean : (ps : Pairs) → All IsClean ps → All IsClean (rest_pairs ps)
rest_pairs-IsClean [] c = tt
rest_pairs-IsClean ((k, v) ∷ ps) (p, c) = elim (Bool-cases (is_rest k)) [
  | inl e ↦ rw e (p, rest_pairs-IsClean ps c)
  | inr e ↦ rw e (rest_pairs-IsClean ps c)
]

pub wire_pairs-IsClean : (m : Message) → IsSendable m → All IsClean (wire_pairs m)
unfolding value_text
wire_pairs-IsClean m s =
    let (h8, (h35, (h49, (h56, (h34, (h52, _)))))) = s.required in
    (
      ((8, refl), get_field-IsPlain m begin_string s.clean h8),
      (
        ((9, refl), IsPlain-number (length (body_text m))),
        (
          ((35, refl), get_field-IsPlain m msg_type s.clean h35),
          (
            ((49, refl), get_field-IsPlain m sender_comp_id s.clean h49),
            (
              ((56, refl), get_field-IsPlain m target_comp_id s.clean h56),
              (
                ((34, refl), get_field-IsPlain m msg_seq_num s.clean h34),
                (
                  ((52, refl), get_field-IsPlain m sending_time s.clean h52),
                  All-append IsClean (rest_pairs m.fields) (checksum_pair m ∷ [])
                      (rest_pairs-IsClean m.fields s.clean)
                      (((10, refl), IsPlain-checksum (unsummed_text m)), tt),
                ),
              ),
            ),
          ),
        ),
      ),
    )

-- The keys of the wire are different.
has-rest_pairs : (ps : Pairs) (f : FieldType) → is_rest f ≡ false → has (rest_pairs ps) f ≡ false
unfolding has
has-rest_pairs [] f n = refl
has-rest_pairs ((k, v) ∷ ps) f n = ground (arith, has-rest_pairs ps f, eq_iff k f)

has-append_one :
    (ps : Pairs) (k f : FieldType) (v : Value)
    → has (ps ++ (k, v) ∷ []) f ≡ (if has ps f then true else k == f)
unfolding has
has-append_one [] k f v = ground arith
has-append_one ((j, w) ∷ ps) k f v = ground (arith, has-append_one ps k f v)

has-rest_pairs_missing :
    (ps : Pairs) (f : FieldType) → has ps f ≡ false → has (rest_pairs ps) f ≡ false
unfolding has
has-rest_pairs_missing [] f n = refl
has-rest_pairs_missing ((k, v) ∷ ps) f n = ground (arith, has-rest_pairs_missing ps f)

rest_pairs-IsUnique : (ps : Pairs) → IsUnique ps → IsUnique (rest_pairs ps)
rest_pairs-IsUnique [] u = tt
rest_pairs-IsUnique ((k, v) ∷ ps) (n, u) =
    ground (arith, rest_pairs-IsUnique ps u, has-rest_pairs_missing ps k n)

append_one-IsUnique :
    (ps : Pairs) (k : FieldType) (v : Value)
    → has ps k ≡ false
    → IsUnique ps
    → IsUnique (ps ++ (k, v) ∷ [])
unfolding has
append_one-IsUnique [] k v n u = (refl, tt)
append_one-IsUnique ((j, w) ∷ ps) k v n (m, u) =
    ground (arith, append_one-IsUnique ps k v, has-append_one ps k j v, eq_iff j k, eq_iff k j)

pub wire_pairs-IsUnique : (m : Message) → IsMessage m → IsUnique (wire_pairs m)
unfolding has is_rest
wire_pairs-IsUnique m u =
    append_one-IsUnique (unsummed_pairs m) check_sum _ (absent check_sum refl) (
      absent begin_string refl,
      (
        absent body_length refl,
        (
          absent msg_type refl,
          (
            absent sender_comp_id refl,
            (
              absent target_comp_id refl,
              (absent msg_seq_num refl, (absent sending_time refl, rest_pairs-IsUnique m.fields u)),
            ),
          ),
        ),
      ),
    )
  where
    absent : (f : FieldType) → is_rest f ≡ false → has (rest_pairs m.fields) f ≡ false
    absent f e = has-rest_pairs m.fields f e
