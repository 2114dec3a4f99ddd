-- ===== src/Message/Objects/Restored.antt =====
-- What is left of a message that was turned into an object and back.
use nest_quickfix.Prelude.{
  ℕ, ◌≡◌, ◌≢◌, ◌++◌, refl, ap, ◌∙◌, false, Option, none, some, List, [], ◌∷◌, arith, All, eq_iff,
  eq_false, nat_Eq, if◌then◌else◌, append-nil,
}
use nest_quickfix.Text.{Text, text_Eq}
use nest_quickfix.Text.Decimal.{to_decimal}
use nest_quickfix.Text.Integer.{Number, nat, neg, nan}
use nest_quickfix.OrderedMap.{OrderedMap, get, has}
use nest_quickfix.OrderedMap.Laws.{has-eq-get}
use nest_quickfix.Fields.{FieldType, tag, number, name, field_Eq}
use nest_quickfix.Message.{Message, Value, set_field, get_field, new_message}
use nest_quickfix.Message.Laws.{IsMessage, get_field-set_field}
use nest_quickfix.Message.Objects.{
  no_properties, assign_each, to_object, index_entries, set_each, from_object, to_json, from_json,
}
use nest_quickfix.Message.Objects.Indexed.{
  HasIndex, IsBefore, IsAscending, IsMadeOf, assign_each-IsMadeOf,
}

-- `Number(text)` of the decimal text of a number is the number.
abbrev pub ReadsDecimals : (Text → Number) → Type 0
ReadsDecimals to_number = (n : ℕ) → to_number (to_decimal n) ≡ nat n

has-IsBefore : (ps : OrderedMap ℕ Value) (k : ℕ) → IsBefore k ps → has ps k ≡ false
unfolding has
has-IsBefore [] k b = refl
has-IsBefore ((i, w) ∷ ps) k (h, b) = ground (arith, has-IsBefore ps k b)

-- What the message is read from: the index, or else what was there before.
abbrev index_value : Option Value → Value → Value
index_value (some v) old = v
index_value none old = old

module _ (to_number : Text → Number) (reads : ReadsDecimals to_number) where
  set_each_index :
      (m : Message) (n : ℕ) (v : Value) (rest : List (Text × Value))
      → set_each to_number m ((to_decimal n, v) ∷ rest)
        ≡ set_each to_number (set_field m (tag n) v) rest
  unfolding set_each
  set_each_index m n v rest = ap (λ x. set_each to_number (set_field m (number x) v) rest) (reads n)

  get_field-set_each :
      (ps : OrderedMap ℕ Value) (m : Message) (j : ℕ)
      → IsAscending ps
      → get_field (set_each to_number m (index_entries ps)) (tag j)
        ≡ index_value (get ps j) (get_field m (tag j))
  unfolding set_each get
  get_field-set_each [] m j a = refl
  get_field-set_each ((n, v) ∷ ps) m j (b, a) =
      ap (λ x. get_field x (tag j)) (set_each_index m n v (index_entries ps))
      ∙ get_field-set_each ps (set_field m (tag n) v) j a
      ∙ ap (index_value (get ps j)) (get_field-set_field m (tag n) (tag j) v)
      ∙ ground (arith, has-IsBefore ps n b, has-eq-get ps n, eq_iff n j)

  -- A key that is no tag is not written.
  get_field_other :
      (ps : OrderedMap ℕ Value) (m : Message) (f : FieldType)
      → ((n : ℕ) → tag n ≢ f)
      → get_field (set_each to_number m (index_entries ps)) f ≡ get_field m f
  unfolding set_each
  get_field_other [] m f h = refl
  get_field_other ((n, v) ∷ ps) m f h =
      ap (λ x. get_field x f) (set_each_index m n v (index_entries ps))
      ∙ get_field_other ps (set_field m (tag n) v) f h
      ∙ ground (arith, get_field-set_field m (tag n) f v, eq_false (tag n) f (h n))

missing_other :
    (fields : OrderedMap FieldType Value) (f : FieldType)
    → All HasIndex fields
    → ((n : ℕ) → tag n ≢ f)
    → get fields f ≡ none
unfolding get
missing_other [] f h n = refl
missing_other ((k, v) ∷ fields) f ((i, e, l), h) n =
    ground (arith, missing_other fields f h n, eq_false (tag i) f (n i), e)

value_found :
    (m : Message) (j : ℕ)
    → index_value
        (if has m.fields (tag j) then get m.fields (tag j) else get no_properties.indexed j)
        (get_field (new_message []) (tag j))
      ≡ get_field m (tag j)
unfolding get_field new_message get
value_found m j = ground (arith, has-eq-get m.fields (tag j))

restored :
    (to_number : Text → Number) (m : Message)
    → IsMessage m
    → All HasIndex m.fields
    → ReadsDecimals to_number
    → from_object to_number (to_object m)
      ≡ set_each to_number (new_message []) (index_entries (to_object m).indexed)
unfolding from_object to_object
restored to_number m u h reads =
    ap
      (λ ps.
        set_each to_number (new_message [])
          (index_entries (assign_each m.fields no_properties).indexed ++ ps))
      (assign_each-IsMadeOf m.fields no_properties u h tt).named
    ∙ ap (set_each to_number (new_message []))
        (append-nil (index_entries (assign_each m.fields no_properties).indexed))

object_made :
    (m : Message)
    → IsMessage m
    → All HasIndex m.fields
    → IsMadeOf m.fields no_properties (to_object m)
unfolding to_object
object_made m u h = assign_each-IsMadeOf m.fields no_properties u h tt

undefined_other :
    (m : Message) (f : FieldType)
    → All HasIndex m.fields
    → ((n : ℕ) → tag n ≢ f)
    → get_field (new_message []) f ≡ get_field m f
unfolding get_field new_message get
undefined_other m f h n = ground (arith, missing_other m.fields f h n)

other_restored :
    (to_number : Text → Number) (m : Message) (f : FieldType)
    → IsMessage m
    → All HasIndex m.fields
    → ReadsDecimals to_number
    → ((n : ℕ) → tag n ≢ f)
    → get_field (from_object to_number (to_object m)) f ≡ get_field m f
other_restored to_number m f u h reads n =
    ap (λ x. get_field x f) (restored to_number m u h reads)
    ∙ get_field_other to_number reads (to_object m).indexed (new_message []) f n
    ∙ undefined_other m f h n

read_back :
    (to_number : Text → Number) (m : Message) (f : FieldType)
    → IsMessage m
    → All HasIndex m.fields
    → ReadsDecimals to_number
    → get_field (from_object to_number (to_object m)) f ≡ get_field m f
read_back to_number m (number (nat j)) u h reads =
    let made = object_made m u h in
    ap (λ x. get_field x (tag j)) (restored to_number m u h reads)
    ∙ get_field-set_each to_number reads (to_object m).indexed (new_message []) j made.ascending
    ∙ ap (λ x. index_value x (get_field (new_message []) (tag j))) (made.found j)
    ∙ value_found m j
read_back to_number m (number (neg j)) u h reads =
    other_restored to_number m (number (neg j)) u h reads (λ n e. cc)
read_back to_number m (number nan) u h reads =
    other_restored to_number m (number nan) u h reads (λ n e. cc)
read_back to_number m (name s) u h reads = other_restored to_number m (name s) u h reads (λ n e. cc)

same_json :
    (to_number : Text → Number) (m : Message)
    → from_json to_number (to_json m) ≡ from_object to_number (to_object m)
unfolding from_json to_json from_object to_object
same_json to_number m = refl

-- If `Number` reads the decimal text of a number as that number, a message that has each field once,
-- with tags below 2 ^ 32 - 1 for its keys, and that is turned into an object and back, reads the same
-- for every key; `toJSON` and `fromJSON` give the same message.
pub from_object-to_object :
    (to_number : Text → Number) (m : Message) (f : FieldType)
    → IsMessage m
    → All HasIndex m.fields
    → ReadsDecimals to_number
    → (get_field (from_object to_number (to_object m)) f ≡ get_field m f)
      × (from_json to_number (to_json m) ≡ from_object to_number (to_object m))
from_object-to_object to_number m f u h reads =
    (read_back to_number m f u h reads, same_json to_number m)
