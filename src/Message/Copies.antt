-- ===== src/Message/Copies.antt =====
-- Cloning a message, and reversing its parties.
use nest_quickfix.Prelude.{
  ◌≡◌, refl, ap, ◌++◌, true, false, [], ◌∷◌, arith, ◌==◌, append-nil, append_assoc, eq_iff, some,
  if◌then◌else◌,
}
use nest_quickfix.OrderedMap
use nest_quickfix.OrderedMap.{OrderedMap, has, set}
use nest_quickfix.OrderedMap.Laws.{set_new, has-eq-get, set_exchange}
use nest_quickfix.OrderedMap.Unique.{IsUnique}
use nest_quickfix.Fields.{FieldType, field_Eq, sender_comp_id, target_comp_id}
use nest_quickfix.Message.{
  Message, Value, set_field, get_field, has_field, new_message, copy_fields, clone, create_reverse,
}
use nest_quickfix.Message.Laws.{
  IsMessage, Has, get_field-set_field, has_field-set_field, set_field-IsMessage,
}

-- No key of `rest` is in `m`.
abbrev pub Fresh : OrderedMap FieldType Value → OrderedMap FieldType Value → Type 0
Fresh m [] = Unit
Fresh m ((k, v) ∷ rest) = (has m k ≡ false) × Fresh m rest

has-snoc :
    (m : OrderedMap FieldType Value) (k j : FieldType) (v : Value)
    → has (m ++ (k, v) ∷ []) j ≡ (if k == j then true else has m j)
unfolding has
has-snoc [] k j v = refl
has-snoc ((i, w) ∷ m) k j v = ground (arith, has-snoc m k j v)

Fresh-snoc :
    (m rest : OrderedMap FieldType Value) (k : FieldType) (v : Value)
    → Fresh m rest
    → has rest k ≡ false
    → Fresh (m ++ (k, v) ∷ []) rest
unfolding has
Fresh-snoc m [] k v f n = tt
Fresh-snoc m ((j, w) ∷ rest) k v (g, f) n =
    ground (arith, Fresh-snoc m rest k v f, has-snoc m k j v, eq_iff k j, eq_iff j k)

pub Fresh-nil : (rest : OrderedMap FieldType Value) → Fresh [] rest
unfolding has
Fresh-nil [] = tt
Fresh-nil ((k, v) ∷ rest) = (refl, Fresh-nil rest)

pub copy_fields-append :
    (m rest : OrderedMap FieldType Value)
    → Fresh m rest
    → IsUnique rest
    → copy_fields (record { fields = m }) rest ≡ record { fields = m ++ rest }
unfolding copy_fields set_field
copy_fields-append m [] f u = rw append-nil
copy_fields-append m ((k, v) ∷ rest) (n, f) (k_new, u) = rw (
  set_new m k v n,
  copy_fields-append (m ++ (k, v) ∷ []) rest (Fresh-snoc m rest k v f k_new) u,
  append_assoc,
)

-- A clone of a message that has each field once is the same message, its fields in the same order.
pub clone_lem : (m : Message) → IsMessage m → clone m ≡ m
unfolding clone new_message
clone_lem m u = copy_fields-append [] m.fields (Fresh-nil m.fields) u

-- Reversing a message is two writes: the parties, swapped.
pub create_reverse_lem :
    (m : Message)
    → IsMessage m
    → create_reverse m
      ≡ set_field
          (set_field m sender_comp_id (get_field m target_comp_id))
          target_comp_id
          (get_field m sender_comp_id)
unfolding create_reverse new_message
create_reverse_lem m u = rw (copy_fields-append [] m.fields (Fresh-nil m.fields) u)

-- The reversed message has the parties swapped and every other field as it was.
pub get_field-create_reverse :
    (m : Message) (f : FieldType)
    → IsMessage m
    → get_field (create_reverse m) f ≡ (
        if sender_comp_id == f
        then get_field m target_comp_id
        else if target_comp_id == f
        then get_field m sender_comp_id
        else get_field m f)
get_field-create_reverse m f u =
    rw (create_reverse_lem m u, get_field-set_field, get_field-set_field)
      (ground (arith, eq_iff sender_comp_id f, eq_iff target_comp_id f))

pub has_field-create_reverse :
    (m : Message) (f : FieldType) → IsMessage m → Has m f → Has (create_reverse m) f
has_field-create_reverse m f u h =
    rw (create_reverse_lem m u, has_field-set_field, has_field-set_field) (ground arith)

-- A field that is there is read as the value that the map holds.
pub get_of_Has :
    (m : Message) (f : FieldType) → Has m f → OrderedMap.get m.fields f ≡ some (get_field m f)
unfolding get_field has_field
get_of_Has m f h = ground (arith, has-eq-get m.fields f)

create_reverse-IsMessage : (m : Message) → IsMessage m → IsMessage (create_reverse m)
create_reverse-IsMessage m u = rw (create_reverse_lem m u) (
    set_field-IsMessage _ _ _ (set_field-IsMessage m sender_comp_id (get_field m target_comp_id) u))

sender-ne-target : (sender_comp_id == target_comp_id) ≡ false
sender-ne-target = refl

-- The parties of the reversed message.
reversed_parties :
    (m : Message)
    → IsMessage m
    → (get_field (create_reverse m) sender_comp_id ≡ get_field m target_comp_id)
      × (get_field (create_reverse m) target_comp_id ≡ get_field m sender_comp_id)
reversed_parties m u =
    (get_field-create_reverse m sender_comp_id u, get_field-create_reverse m target_comp_id u)

reverse_twice :
    (m : Message)
    → IsMessage m
    → Has m sender_comp_id
    → Has m target_comp_id
    → create_reverse (create_reverse m) ≡ m
reverse_twice m u hs ht =
    rw
      (
        create_reverse_lem (create_reverse m) (create_reverse-IsMessage m u),
        (reversed_parties m u).0,
        (reversed_parties m u).1,
        create_reverse_lem m u,
      )
      (unfold set_field in
        ap (λ (fs : OrderedMap FieldType Value). record { fields = fs })
          (set_exchange m.fields sender_comp_id target_comp_id _ _ (get_of_Has m sender_comp_id hs)
            (get_of_Has m target_comp_id ht) sender-ne-target))

-- If a message has a sender and a target and has each field once, its reversed message has the
-- target as sender, the sender as target, and every other field as it was; reversing twice gives
-- the message back, the order of its fields included.
pub create_reverse_involutive :
    (m : Message)
    → IsMessage m
    → Has m sender_comp_id
    → Has m target_comp_id
    → ((f : FieldType)
        → get_field (create_reverse m) f ≡ (
            if sender_comp_id == f
            then get_field m target_comp_id
            else if target_comp_id == f
            then get_field m sender_comp_id
            else get_field m f))
      × (create_reverse (create_reverse m) ≡ m)
create_reverse_involutive m u hs ht = (λ f. get_field-create_reverse m f u, reverse_twice m u hs ht)
