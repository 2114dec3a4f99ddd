-- ===== src/Parser/Fields.antt =====
-- Reading the lines of a message that was printed.
use nest_quickfix.Prelude.{
  ℕ, ◌≤◌, ◌≡◌, ◌≢◌, refl, ap, ◌∙◌, false, List, [], ◌∷◌, ◌++◌, All, length, length-append, arith,
  append_assoc, nat_Eq, inl, inr, some, list_eq_iff,
}
use nest_quickfix.Text.{Text, text, soh, Lacks, starts_with, split, text_Eq}
use nest_quickfix.Text.Decimal.{
  to_decimal, Digit, to_decimal-Digit, length-to_decimal, digits_value, digits_value-to_decimal,
}
use nest_quickfix.Text.Integer.{nat, number_text, parse_int, parse_int-to_decimal}
use nest_quickfix.Text.Splitting.{start, Inner, split-cons, split_last}
use nest_quickfix.Fields.{FieldType, tag, field_Eq, field_text}
use nest_quickfix.Message.{Message, Value, string, value_text, set_field, copy_fields}
use nest_quickfix.Message.Wire.{Pairs, line, lines}
use nest_quickfix.Message.Sendable.{IsClean, Digit-Lacks}
use nest_quickfix.Parser.{store_field, read_field, read_fields}

-- The fields as they are read: every value is its text.
abbrev pub texts : Pairs → Pairs
texts [] = []
texts ((k, v) ∷ ps) = (k, string (value_text v)) ∷ texts ps

Lacks-append : (c : ℕ) (s t : Text) → Lacks c s → Lacks c t → Lacks c (s ++ t)
Lacks-append c [] t hs ht = ht
Lacks-append c (d ∷ s) t (n, hs) ht = (n, Lacks-append c s t hs ht)

pub line-Lacks-soh : (k : FieldType) (v : Value) → IsClean (k, v) → Lacks soh (line k v)
unfolding field_text number_text
line-Lacks-soh k v ((n, e), (_, h, _)) = rw e (
    Lacks-append soh (to_decimal n) (61 ∷ value_text v)
      (Digit-Lacks soh (to_decimal n) (inl (omega arith)) (to_decimal-Digit n)) (refl, h))

-- Digits and `=` are the start of a message only for the tag 8.
starts_digits :
    (t s : Text)
    → All Digit t
    → 1 ≤ length t
    → digits_value 0 t ≢ 8
    → starts_with (t ++ 61 ∷ s) start ≡ false
unfolding starts_with digits_value
starts_digits [] s d l n = elim l [ ]
starts_digits (c ∷ []) s d l n = ground arith
starts_digits (c ∷ e ∷ t) s d l n = ground arith

pub line-Inner : (n : ℕ) (v : Value) → n ≢ 8 → Inner (line (tag n) v)
unfolding field_text number_text
line-Inner n v h s = rw (append_assoc (to_decimal n) (61 ∷ value_text v) (soh ∷ s)) (
    starts_digits (to_decimal n) (value_text v ++ soh ∷ s) (to_decimal-Digit n)
      (length-to_decimal n) (rw digits_value-to_decimal h))

split-line :
    (n : ℕ) (t : Text)
    → Lacks 61 t
    → split (text "=") (to_decimal n ++ 61 ∷ t) ≡ to_decimal n ∷ t ∷ []
split-line n t h =
    split-cons 61 (to_decimal n) t
      (Digit-Lacks 61 (to_decimal n) (inr (omega arith)) (to_decimal-Digit n))
    ∙ ap (λ ts. to_decimal n ∷ ts) (split_last 61 t h)

parse_int-eight : parse_int (text "8") ≡ nat 8
unfolding parse_int
parse_int-eight = refl

-- The test for the tag 8 changes nothing: it is the number that the text reads as.
store_field-number :
    (m : Message) (d t : Text) (n : ℕ)
    → 1 ≤ length d
    → parse_int d ≡ nat n
    → t ≢ []
    → store_field m d (some t) ≡ set_field m (tag n) (string t)
unfolding store_field
store_field-number m [] t n l e h = elim l [ ]
store_field-number m (c ∷ d) [] n l e h = absurd (h refl)
store_field-number m (c ∷ d) (x ∷ t) n l e h =
    ground (arith, list_eq_iff (c ∷ d) (text "8"), parse_int-eight)

read_field_lem :
    (m : Message) (l d t : Text)
    → 1 ≤ length l
    → split (text "=") l ≡ d ∷ t ∷ []
    → read_field m l ≡ store_field m d (some t)
unfolding read_field
read_field_lem m [] d t h e = elim h [ ]
read_field_lem m (c ∷ l) d t h e = rw e

-- A printed line is read as its field.
pub read_field-line :
    (m : Message) (k : FieldType) (v : Value)
    → IsClean (k, v)
    → read_field m (line k v) ≡ set_field m k (string (value_text v))
unfolding field_text number_text
read_field-line m k v ((n, e), (h, _, g)) = rw e (
    read_field_lem m (line (tag n) v) (to_decimal n) (value_text v)
      (rw length-append (omega (arith, length-to_decimal n))) (split-line n (value_text v) g)
    ∙ store_field-number m (to_decimal n) (value_text v) n (length-to_decimal n)
        (parse_int-to_decimal n) h)

pub read_fields-lines :
    (m : Message) (ps : Pairs)
    → All IsClean ps
    → read_fields m (lines ps) ≡ copy_fields m (texts ps)
unfolding read_fields copy_fields
read_fields-lines m [] c = refl
read_fields-lines m ((k, v) ∷ ps) (p, c) =
    ap (λ x. read_fields x (lines ps)) (read_field-line m k v p)
    ∙ (read_fields-lines (set_field m k (string (value_text v))) ps c)

pub read_fields-append :
    (m : Message) (ls ks : List Text) → read_fields m (ls ++ ks) ≡ read_fields (read_fields m ls) ks
unfolding read_fields
read_fields-append m [] ks = refl
read_fields-append m (l ∷ ls) ks = read_fields-append (read_field m l) ls ks
