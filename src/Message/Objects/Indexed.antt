-- ===== src/Message/Objects/Indexed.antt =====
-- The object that a message with tags for keys is turned into.
use nest_quickfix.Prelude.{
  ℕ, ◌<◌, ◌≡◌, refl, ap, ◌∙◌, false, some, [], ◌∷◌, arith, All, eq_iff, eq_refl, nat_eq, nat_Eq,
  ltb, if◌then◌else◌, Bool-cases, inl, inr,
}
use nest_quickfix.Text.{text_Eq}
use nest_quickfix.Text.Decimal.{to_decimal}
use nest_quickfix.Text.Integer.{number_text, parse_int-to_decimal}
use nest_quickfix.OrderedMap.{OrderedMap, get, has}
use nest_quickfix.OrderedMap.Unique.{IsUnique}
use nest_quickfix.Fields.{FieldType, tag, field_Eq, field_text}
use nest_quickfix.Message.{Value}
use nest_quickfix.Message.Objects.{PlainObject, array_index, put_index, assign, assign_each}

-- A field whose tag is an array index.
abbrev pub HasIndex : FieldType × Value → Type 0
HasIndex p = (n : ℕ) × (p.0 ≡ tag n) × (n < 4294967295)

abbrev pub IsBefore : ℕ → OrderedMap ℕ Value → Type 0
IsBefore k ps = All (λ p. k < p.0) ps

-- The least first.
abbrev pub IsAscending : OrderedMap ℕ Value → Type 0
IsAscending [] = Unit
IsAscending ((k, v) ∷ ps) = IsBefore k ps × IsAscending ps

get-put_index :
    (ps : OrderedMap ℕ Value) (n j : ℕ) (v : Value)
    → get (put_index ps n v) j ≡ (if nat_eq n j then some v else get ps j)
unfolding get put_index
get-put_index [] n j v = refl
get-put_index ((k, w) ∷ ps) n j v = ground (arith, get-put_index ps n j v)

put_index-IsBefore :
    (ps : OrderedMap ℕ Value) (k n : ℕ) (v : Value)
    → k < n
    → IsBefore k ps
    → IsBefore k (put_index ps n v)
unfolding put_index
put_index-IsBefore [] k n v h b = (h, tt)
put_index-IsBefore ((i, w) ∷ ps) k n v h (c, b) = ground (arith, put_index-IsBefore ps k n v h b)

IsBefore-trans : (ps : OrderedMap ℕ Value) (n k : ℕ) → n < k → IsBefore k ps → IsBefore n ps
IsBefore-trans [] n k h b = tt
IsBefore-trans ((i, w) ∷ ps) n k h (c, b) = (omega arith, IsBefore-trans ps n k h b)

put_index-IsAscending :
    (ps : OrderedMap ℕ Value) (n : ℕ) (v : Value) → IsAscending ps → IsAscending (put_index ps n v)
unfolding put_index
put_index-IsAscending [] n v a = (tt, tt)
put_index-IsAscending ((k, w) ∷ ps) n v (b, a) = elim (Bool-cases (nat_eq n k)) [
  | inl e ↦ let same : n ≡ k = ground arith in rw (e, same) (b, a)
  | inr e ↦ rw e (elim (Bool-cases (ltb n k)) [
    | inl l ↦ rw l ((ground arith, IsBefore-trans ps n k (ground arith) b), (b, a))
    | inr l ↦ rw l (put_index-IsBefore ps k n v (ground arith) b, put_index-IsAscending ps n v a)
  ])
]

array_index-tag : (n : ℕ) → n < 4294967295 → array_index (field_text (tag n)) ≡ some n
unfolding array_index field_text number_text
array_index-tag n h = rw (parse_int-to_decimal n) (ground (arith, eq_refl (to_decimal n)))

-- An object that has the indices of an ascending map, and nothing else.
assign_index :
    (n : ℕ) (v : Value) (o : PlainObject)
    → n < 4294967295
    → assign (field_text (tag n)) v o ≡ record o { indexed = put_index o.indexed n v }
unfolding assign
assign_index n v o h = rw (array_index-tag n h) refl

-- The object that is made of fields with indices.
pub record IsMadeOf (fields : OrderedMap FieldType Value) (o u : PlainObject) : Type 0 where
  pub ascending : IsAscending u.indexed
  pub named : u.named ≡ o.named
  pub found :
      (j : ℕ)
      → get u.indexed j ≡ (if has fields (tag j) then get fields (tag j) else get o.indexed j)

IsMadeOf-step :
    (k : FieldType) (n : ℕ) (v : Value) (fields : OrderedMap FieldType Value) (o u : PlainObject)
    → k ≡ tag n
    → has fields k ≡ false
    → IsMadeOf fields (record o { indexed = put_index o.indexed n v }) u
    → IsMadeOf ((k, v) ∷ fields) o u
unfolding get has
IsMadeOf-step k n v fields o u e fresh made = record {
  ascending = made.ascending;
  named = made.named;
  found = λ j.
      ground (arith, made.found j, get-put_index o.indexed n j v, eq_iff (tag n) (tag j), e, fresh);
}

pub assign_each-IsMadeOf :
    (fields : OrderedMap FieldType Value) (o : PlainObject)
    → IsUnique fields
    → All HasIndex fields
    → IsAscending o.indexed
    → IsMadeOf fields o (assign_each fields o)
unfolding assign_each has
assign_each-IsMadeOf [] o u h a = record { ascending = a; named = refl; found = λ j. refl }
assign_each-IsMadeOf ((k, v) ∷ fields) o (fresh, u) ((n, e, l), h) a =
    let next = record o { indexed = put_index o.indexed n v } in
    let same : assign (field_text k) v o ≡ next =
      ap (λ (f : FieldType). assign (field_text f) v o) e ∙ assign_index n v o l in
    rw same (
      IsMadeOf-step k n v fields o (assign_each fields next) e fresh
        (assign_each-IsMadeOf fields next u h (put_index-IsAscending o.indexed n v a)))
