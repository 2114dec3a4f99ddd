-- ===== src/Parser/RoundTrip.antt =====
-- A stream of printed messages is read back as those messages.
use nest_quickfix.Prelude.{
  ◌≤◌, ◌≡◌, refl, sym, ap, ◌∙◌, false, ◌&&◌, List, [], ◌∷◌, ◌++◌, All, length, length-append, arith,
  append_assoc, append-nil, eq_iff, map, if◌then◌else◌,
}
use nest_quickfix.Text.{Text, soh, Lacks, starts_with, split, push_head}
use nest_quickfix.Text.Decimal.{to_decimal}
use nest_quickfix.Text.Integer.{number_text}
use nest_quickfix.Text.Splitting.{
  terminated, joined, start, boundary, Inner, split-terminated, split-joined, split-next, split-end,
}
use nest_quickfix.OrderedMap.{has}
use nest_quickfix.OrderedMap.Unique.{IsUnique}
use nest_quickfix.Fields.{FieldType, tag, field_Eq, field_text, begin_string, body_length, msg_type}
use nest_quickfix.Message.{Message, Value, value_text, get_field, has_field, new_message}
use nest_quickfix.Message.Laws.{print}
use nest_quickfix.Message.Copies.{Fresh-nil, copy_fields-append}
use nest_quickfix.Message.Wire.{
  Pairs, line, lines, length_pair, body_pairs, checksum_pair, wire_pairs, print-terminated,
}
use nest_quickfix.Message.Sendable.{IsClean, IsSendable, wire_pairs-IsClean, wire_pairs-IsUnique}
use nest_quickfix.Parser.{
  split_soh, read_field, read_fields, restore_start, read_piece, read_pieces, process_data,
}
use nest_quickfix.Parser.Fields.{
  texts, line-Lacks-soh, line-Inner, read_fields-lines, read_fields-append,
}

-- The message that is read back: the fields on the wire, in their order, each as a text.
abbrev pub received : Message → Message
received m = record { fields = texts (wire_pairs m) }

-- The texts of several messages, one behind the other.
abbrev pub stream : List Message → Text
stream [] = []
stream (m ∷ ms) = print m ++ stream ms

abbrev begin_text : Message → Text
begin_text m = value_text (get_field m begin_string)

abbrev tail_pairs : Message → Pairs
tail_pairs m = length_pair m ∷ (body_pairs m ++ checksum_pair m ∷ [])

abbrev tail_lines : Message → List Text
tail_lines m = lines (tail_pairs m)

has-texts : (ps : Pairs) (f : FieldType) → has (texts ps) f ≡ has ps f
unfolding has
has-texts [] f = refl
has-texts ((k, v) ∷ ps) f = ground (arith, has-texts ps f)

texts-IsUnique : (ps : Pairs) → IsUnique ps → IsUnique (texts ps)
texts-IsUnique [] u = tt
texts-IsUnique ((k, v) ∷ ps) (n, u) = (has-texts ps k ∙ n, texts-IsUnique ps u)

lines-Lacks : (ps : Pairs) → All IsClean ps → All (Lacks soh) (lines ps)
lines-Lacks [] c = tt
lines-Lacks ((k, v) ∷ ps) (p, c) = (line-Lacks-soh k v p, lines-Lacks ps c)

-- What `processData` makes of one restored piece.
abbrev whole : Text → List Message
whole q =
    let m = read_fields (new_message []) (split_soh q) in
    if has_field m begin_string && has_field m msg_type then m ∷ [] else []

module _ (m : Message) (s : IsSendable m) where
  read_wire : read_fields (new_message []) (lines (wire_pairs m)) ≡ received m
  unfolding new_message
  read_wire =
      read_fields-lines (new_message []) (wire_pairs m) (wire_pairs-IsClean m s)
      ∙ copy_fields-append [] (texts (wire_pairs m)) (Fresh-nil (texts (wire_pairs m)))
          (texts-IsUnique (wire_pairs m) (wire_pairs-IsUnique m s.unique))

  accepted :
      (if has_field (received m) begin_string && has_field (received m) msg_type
        then received m ∷ []
        else [])
      ≡ received m ∷ []
  unfolding has_field has
  accepted = refl

  whole-joined :
      whole (joined (line begin_string (get_field m begin_string)) (tail_lines m)) ≡ received m ∷ []
  whole-joined =
      let c = wire_pairs-IsClean m s in
      rw
        (
          split-joined (line begin_string (get_field m begin_string)) (tail_lines m)
              (lines-Lacks (wire_pairs m) c).0 (lines-Lacks (wire_pairs m) c).1,
          read_wire,
        )
        accepted

  whole-terminated : whole (terminated (lines (wire_pairs m))) ≡ received m ∷ []
  unfolding read_fields read_field
  whole-terminated =
      rw
        (
          split-terminated (lines (wire_pairs m))
              (lines-Lacks (wire_pairs m) (wire_pairs-IsClean m s)),
          read_fields-append (new_message []) (lines (wire_pairs m)) ([] ∷ []),
          read_wire,
        )
        accepted

  line-begin : (v : Value) → line begin_string v ≡ start ++ value_text v
  unfolding field_text number_text to_decimal
  line-begin v = refl

-- A piece that begins a chunk is read as it stands; another gets its start back.
read_piece_lem : (p q : Text) → 1 ≤ length p → restore_start p ≡ q → read_piece p ≡ whole q
unfolding read_piece
read_piece_lem [] q l e = elim l [ ]
read_piece_lem (c ∷ p) q l e = rw e

restore_begun : (p : Text) → restore_start (start ++ p) ≡ start ++ p
unfolding restore_start starts_with
restore_begun p = refl

restore_cut : (p : Text) → starts_with p start ≡ false → restore_start p ≡ start ++ p
unfolding restore_start
restore_cut p h = rw h

-- A value without `=` is not taken for the start of a message.
value-Inner : (t : Text) → Lacks 61 t → Inner t
unfolding starts_with
value-Inner [] h s = refl
value-Inner (c ∷ []) h s = ground arith
value-Inner (c ∷ d ∷ t) (_, (n, _)) s = ground arith

not_begin :
    (k : FieldType) (v : Value) (ps : Pairs)
    → has ((k, v) ∷ ps) begin_string ≡ false
    → k ≡ begin_string
    → ⊥
unfolding has
not_begin k v ps n e = ground (arith, eq_iff k begin_string)

tail-Inner :
    (ps : Pairs)
    → All IsClean ps
    → has ps begin_string ≡ false
    → All (λ k. Lacks soh k × Inner k) (lines ps)
unfolding has
tail-Inner [] c n = tt
tail-Inner ((k, v) ∷ ps) (((t, e), p), c) n = (
  (
    line-Lacks-soh k v ((t, e), p),
    rw e (line-Inner t v (λ eight. not_begin k v ps n (e ∙ ap tag eight))),
  ),
  tail-Inner ps c (ground arith),
)

joined-append : (a l : Text) (ls : List Text) → joined (a ++ l) ls ≡ a ++ joined l ls
joined-append a l [] = refl
joined-append a l (k ∷ ls) = append_assoc a l (soh ∷ joined k ls)

read_cut :
    (t x : Text) {r : List Message}
    → Lacks 61 t
    → whole (start ++ (t ++ soh ∷ x)) ≡ r
    → read_piece (t ++ soh ∷ x) ≡ r
read_cut t x h e =
    read_piece_lem (t ++ soh ∷ x) (start ++ (t ++ soh ∷ x)) (rw length-append (omega arith))
      (restore_cut (t ++ soh ∷ x) (value-Inner t h x))
    ∙ e

read_begun : (p : Text) {r : List Message} → whole (start ++ p) ≡ r → read_piece (start ++ p) ≡ r
read_begun p e = read_piece_lem (start ++ p) (start ++ p) (omega arith) (restore_begun p) ∙ e

module _ (m : Message) (s : IsSendable m) where
  begin-Lacks : (Lacks soh (begin_text m)) × (Lacks 61 (begin_text m))
  begin-Lacks = let ((_, (_, a, b)), _) = wire_pairs-IsClean m s in (a, b)

  whole-joined-start : whole (start ++ joined (begin_text m) (tail_lines m)) ≡ received m ∷ []
  whole-joined-start =
      ap whole (
        sym (joined-append start (begin_text m) (tail_lines m))
        ∙ ap (λ l. joined l (tail_lines m)) (sym (line-begin m s (get_field m begin_string))))
      ∙ whole-joined m s

  whole-terminated-start :
      whole (start ++ terminated (begin_text m ∷ tail_lines m)) ≡ received m ∷ []
  whole-terminated-start =
      ap whole (
        ap (λ l. l ++ soh ∷ terminated (tail_lines m))
          (sym (line-begin m s (get_field m begin_string))))
      ∙ whole-terminated m s

  print-start : print m ≡ start ++ terminated (begin_text m ∷ tail_lines m)
  print-start =
      print-terminated m s.required
      ∙ ap (λ l. l ++ soh ∷ terminated (tail_lines m)) (line-begin m s (get_field m begin_string))

  inner : All (λ k. Lacks soh k × Inner k) (tail_lines m)
  inner = tail-Inner (tail_pairs m) (wire_pairs-IsClean m s).1 (wire_pairs-IsUnique m s.unique).0

-- The texts of the messages from `m` on, without the start of the first.
abbrev after_start : Message → List Message → Text
after_start m [] = terminated (begin_text m ∷ tail_lines m)
after_start m (n ∷ ms) =
    begin_text m ++ soh ∷ (terminated (tail_lines m) ++ (start ++ after_start n ms))

stream-start :
    (m : Message) (ms : List Message)
    → All IsSendable (m ∷ ms)
    → stream (m ∷ ms) ≡ start ++ after_start m ms
stream-start m [] (s, _) = append-nil (print m) ∙ print-start m s
stream-start m (n ∷ ms) (s, h) =
    rw (print-start m s, stream-start n ms h)
      (ap (λ t. start ++ t)
        (append_assoc (begin_text m) (soh ∷ terminated (tail_lines m)) (start ++ after_start n ms)))

-- The first piece, and the rest of the pieces.
abbrev first_piece : Message → List Message → Text
first_piece m [] = terminated (begin_text m ∷ tail_lines m)
first_piece m (n ∷ ms) = joined (begin_text m) (tail_lines m)

abbrev next_pieces : List Message → List Text
next_pieces [] = []
next_pieces (n ∷ ms) = first_piece n ms ∷ next_pieces ms

split-after_start :
    (m : Message) (ms : List Message)
    → All IsSendable (m ∷ ms)
    → split boundary (after_start m ms) ≡ first_piece m ms ∷ next_pieces ms
split-after_start m [] (s, _) =
    split-end (begin_text m) (tail_lines m) (begin-Lacks m s).0 (inner m s)
split-after_start m (n ∷ ms) (s, h) =
    split-next (begin_text m) (tail_lines m) (after_start n ms) (begin-Lacks m s).0 (inner m s)
    ∙ ap (λ ts. joined (begin_text m) (tail_lines m) ∷ ts) (split-after_start n ms h)

read_first_begun :
    (m : Message) (ms : List Message)
    → IsSendable m
    → read_piece (start ++ first_piece m ms) ≡ received m ∷ []
read_first_begun m [] s =
    read_begun (terminated (begin_text m ∷ tail_lines m)) (whole-terminated-start m s)
read_first_begun m (n ∷ ms) s =
    read_begun (joined (begin_text m) (tail_lines m)) (whole-joined-start m s)

read_first :
    (m : Message) (ms : List Message)
    → IsSendable m
    → read_piece (first_piece m ms) ≡ received m ∷ []
read_first m [] s =
    read_cut (begin_text m) (terminated (tail_lines m)) (begin-Lacks m s).1
      (whole-terminated-start m s)
read_first m (n ∷ ms) s =
    read_cut (begin_text m)
      (joined (line body_length (length_pair m).1) (lines (body_pairs m ++ checksum_pair m ∷ [])))
      (begin-Lacks m s).1 (whole-joined-start m s)

read_next : (ms : List Message) → All IsSendable ms → read_pieces (next_pieces ms) ≡ map received ms
unfolding read_pieces
read_next [] h = refl
read_next (m ∷ ms) (s, h) = rw (read_first m ms s, read_next ms h)

-- The parser reads a chunk that holds the texts of any number of sendable messages, one behind the
-- other, as those messages, in their order: each with its fields as they stand on the wire.
pub process_data-stream :
    (ms : List Message) → All IsSendable ms → process_data (stream ms) ≡ map received ms
unfolding process_data
process_data-stream [] h = unfold split read_piece in refl
process_data-stream (m ∷ ms) (s, h) =
    ap (λ t. read_pieces (split boundary t)) (stream-start m ms (s, h))
    ∙ ap read_pieces pieces
    ∙ rw (read_first_begun m ms s, read_next ms h)
  where
    pieces :
        split boundary (start ++ after_start m ms) ≡ (start ++ first_piece m ms) ∷ next_pieces ms
    pieces =
        unfold split in ap (λ ts. push_head 56 (push_head 61 ts)) (split-after_start m ms (s, h))
