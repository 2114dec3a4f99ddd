-- ===== src/Protocol/Parser/Silent.antt =====
-- What the parser of the protocol makes of its buffer.
use nest_quickfix.Prelude.{
  nat_eq, Bool, if◌then◌else◌, ℕ, zero, suc, ◌≤◌, ◌+◌, ◌≡◌, refl, sym, ap, ◌∙◌, ◌⊎◌, true, false,
  Option, none, some, List, [], ◌∷◌, ◌++◌, length, arith, length-append, Bool-cases, inl, inr,
  append_assoc,
}
use mathlib.Core.Path.{subst}
use nest_quickfix.OrderedMap
use nest_quickfix.Fields.{number, field_Eq}
use nest_quickfix.Parser.{tag_and_value}
use nest_quickfix.Text.{Text, text, soh, Lacks, split, split_from, starts_with}
use nest_quickfix.Text.Integer.{parse_int}
use nest_quickfix.Text.Splitting.{split-cons}
use nest_quickfix.Result.{Error, ok, err}
use nest_quickfix.Message.{
  Message, Value, copy_fields, new_message, set_fields, set_field, get_field,
}
use nest_quickfix.Protocol.Checksum.{validate}
use nest_quickfix.Protocol.Parser.{
  build, checked, parse, parse_fields, is_valid_message_format, cut_at_soh, read_buffer,
  process_data, push, rethrow,
}

-- A text that starts as a message does.
begun :
    (p : Text) → starts_with (p ++ soh ∷ []) (text "8=FIX") ≡ true → (q : Text) × (p ≡ 56 ∷ 61 ∷ q)
unfolding starts_with
begun [] h = absurd (cc)
begun (c ∷ []) h = absurd (ground arith)
begun (c ∷ d ∷ q) h = (q, ground arith)

tag_lem : (t : Text) (ts : List Text) → (tag_and_value (t ∷ ts)).0 ≡ t
unfolding tag_and_value
tag_lem t [] = refl
tag_lem t (u ∷ ts) = refl

tag_begun : (q : Text) → (tag_and_value (split (61 ∷ []) (56 ∷ 61 ∷ q))).0 ≡ 56 ∷ []
unfolding split split_from starts_with
tag_begun q = tag_lem (56 ∷ []) _

single :
    (v : Value)
    → validate (
        copy_fields
          (new_message [])
          (parse_fields (split (soh ∷ []) []) (OrderedMap.set [] (number (parse_int (56 ∷ []))) v)))
      ≡ false
unfolding validate parse_fields split split_from copy_fields new_message set_fields set_field
    get_field OrderedMap.set OrderedMap.get parse_int
single v = refl

-- Such a text, up to its first separator, is a message of the field 8 alone, which has no checksum.
build_begun : (q : Text) → Lacks soh q → validate (build (56 ∷ 61 ∷ (q ++ soh ∷ []))) ≡ false
unfolding build parse_fields
build_begun q h = rw (split-cons soh (56 ∷ 61 ∷ q) [] (refl, (refl, h))) (
    subst
      (λ t.
        (v : Value)
        → validate (
            copy_fields (new_message [])
              (parse_fields (split (soh ∷ []) []) (OrderedMap.set [] (number (parse_int t)) v)))
          ≡ false)
      (sym (tag_begun q)) single _)

valid_begun : (s : Text) → is_valid_message_format s ≡ true → starts_with s (text "8=FIX") ≡ true
unfolding is_valid_message_format
valid_begun s v = ground arith

validate-build :
    (p : Text)
    → Lacks soh p
    → is_valid_message_format (p ++ soh ∷ []) ≡ true
    → validate (build (p ++ soh ∷ [])) ≡ false
validate-build p h v =
    let (q, e) = begun p (valid_begun (p ++ soh ∷ []) v) in
    let (_, (_, lacks)) = subst (Lacks soh) e h in rw e (build_begun q lacks)

refused :
    (a b : Bool) (m : Message) (x y : Error)
    → (a ≡ true → b ≡ false)
    → (e : Error) × (rethrow (if a then if b then ok m else err x else err y) ≡ err e)
unfolding rethrow
refused true true m x y h = absurd (cc (h refl))
refused true false m x y h = (_, refl)
refused false b m x y h = (_, refl)

-- A text with one separator, at its end, is not accepted.
parse_single : (p : Text) → Lacks soh p → (e : Error) × (parse (p ++ soh ∷ []) ≡ err e)
unfolding parse checked
parse_single p h =
    refused (is_valid_message_format (p ++ soh ∷ [])) (validate (build (p ++ soh ∷ []))) _ _ _
      (validate-build p h)

-- What the search for a separator finds.
IsCut : Text → Option (Text × Text) → Type 0
IsCut s none = Lacks soh s
IsCut s (some (raw, left)) = (p : Text) × Lacks soh p × (raw ≡ p ++ soh ∷ []) × (s ≡ raw ++ left)

IsCut-step :
    (c : ℕ) (s : Text) (r : Option (Text × Text))
    → IsCut s r
    → nat_eq c soh ≡ false
    → IsCut (c ∷ s) (elim r [ none ↦ none | some (raw, left) ↦ some (c ∷ raw, left) ])
unfolding IsCut
IsCut-step c s none l n = (n, l)
IsCut-step c s (some (raw, left)) (p, l, e, f) n =
    (c ∷ p, (n, l), ap (λ t. c ∷ t) e, ap (λ t. c ∷ t) f)

cut_at_soh-IsCut : (s : Text) → IsCut s (cut_at_soh s)
unfolding cut_at_soh IsCut
cut_at_soh-IsCut [] = tt
cut_at_soh-IsCut (c ∷ s) = elim (Bool-cases (nat_eq c soh)) [
  | inl e ↦ rw e ([], tt, ap (λ d. d ∷ []) (ground arith), refl)
  | inr n ↦ rw n (IsCut-step c s (cut_at_soh s) (cut_at_soh-IsCut s) n)
]

-- What a round of the loop leaves, if every text that is cut off is refused.
read_round :
    (raw : Text) (rest : List Message × Text)
    → (p : Text) × Lacks soh p × (raw ≡ p ++ soh ∷ [])
    → push (parse raw) rest ≡ rest
unfolding push
read_round raw rest (p, l, e) = let (x, f) = parse_single p l in rw (e, f) refl

abbrev round : Text → ℕ → Option (Text × Text) → List Message × Text
round s n none = ([], s)
round s n (some (raw, left)) = push (parse raw) (read_buffer n left)

-- The buffer that is left: all that was there behind its last separator, or all that was there, if
-- it has no separator.
abbrev pub IsRest : Text → Text → Type 0
IsRest s left = Lacks soh left × ((s ≡ left) ⊎ ((p : Text) × (s ≡ p ++ soh ∷ left)))

-- What is behind a cut, and then behind the last separator of that.
behind :
    (p left rest : Text)
    → (left ≡ rest) ⊎ ((q : Text) × (left ≡ q ++ soh ∷ rest))
    → (q : Text) × (p ++ soh ∷ left ≡ q ++ soh ∷ rest)
behind p left rest (inl e) = (p, ap (λ t. p ++ soh ∷ t) e)
behind p left rest (inr (q, e)) =
    (p ++ soh ∷ q, ap (λ t. p ++ soh ∷ t) e ∙ sym (append_assoc p (soh ∷ q) (soh ∷ rest)))

-- The length of what is left behind a cut.
shorter :
    (s raw left p : Text) (n : ℕ)
    → raw ≡ p ++ soh ∷ []
    → s ≡ raw ++ left
    → length s ≤ n + 1
    → length left ≤ n
shorter s raw left p n e f l =
    omega (arith, l, ap length f ∙ length-append raw left, ap length e ∙ length-append p (soh ∷ []))

read_step :
    (s : Text) (n : ℕ) (r : Option (Text × Text))
    → IsCut s r
    → length s ≤ n + 1
    → ((left : Text)
        → length left ≤ n
        → ((read_buffer n left).0 ≡ []) × IsRest left (read_buffer n left).1)
    → ((round s n r).0 ≡ []) × IsRest s (round s n r).1
unfolding IsCut
read_step s n none h l next = (refl, (h, inl refl))
read_step s n (some (raw, left)) (p, h, e, f) l next =
    let (silent, (lacks, g)) = next left (shorter s raw left p n e f l) in
    let (q, i) = behind p left (read_buffer n left).1 g in
    rw (read_round raw (read_buffer n left) (p, h, e))
      (silent, (lacks, inr (q, f ∙ ap (λ t. t ++ left) e ∙ append_assoc p (soh ∷ []) left ∙ i)))

read_buffer-IsRest :
    (n : ℕ) (s : Text) → length s ≤ n → ((read_buffer n s).0 ≡ []) × IsRest s (read_buffer n s).1
unfolding read_buffer
read_buffer-IsRest zero [] l = (refl, (tt, inl refl))
read_buffer-IsRest zero (c ∷ s) l = absurd (omega (arith, l))
read_buffer-IsRest (suc n) s l =
    read_step s n (cut_at_soh s) (cut_at_soh-IsCut s) (omega (arith, l)) (read_buffer-IsRest n)

-- Whatever is in the buffer and whatever comes, `processData` returns no message at all, and keeps
-- exactly what stands behind the last separator of the two together, or all of it if there is no
-- separator: the length of the buffer is fuel enough for its loop.
pub process_data-IsRest :
    (buffer data' : Text)
    → ((process_data buffer data').0 ≡ []) × IsRest (buffer ++ data') (process_data buffer data').1
unfolding process_data
process_data-IsRest buffer data' =
    read_buffer-IsRest (length (buffer ++ data')) (buffer ++ data') (omega arith)
