-- ===== src/Examples.antt =====
-- The theorems at concrete messages.
mod Serving
mod Starting
mod Objects
mod Endings
mod Logons
mod Rooms
mod Sessions
mod Acceptance
mod Wire
mod Queues
mod Trading
use nest_quickfix.Prelude.{
  ℕ, Bool, not, ◌&&◌, nat_eq, ◌≡◌, refl, ◌↔◌, List, [], ◌∷◌, ◌++◌, map, All, true, some, arith,
  if◌then◌else◌, ◌==◌,
}
use nest_quickfix.Text.{Text, text, soh, Lacks}
use nest_quickfix.Text.Integer.{nat}
use nest_quickfix.Result.{ok, err, error}
use nest_quickfix.Fields.{
  FieldType, field_Eq, field_text, begin_string, msg_type, sender_comp_id, target_comp_id,
  msg_seq_num, sending_time, test_req_id,
}
use nest_quickfix.Message.{
  Message, Field, string, numeric, value_text, has_field, new_message, get_field, create_reverse,
  clone, to_string, required_fields,
}
use nest_quickfix.Message.Laws.{print, Has, to_string-eq-ok_iff, to_string_lem, to_string_missing}
use nest_quickfix.Message.Copies.{clone_lem, create_reverse_involutive, get_field-create_reverse}
use nest_quickfix.Message.Sendable.{IsSendable, IsPlain, IsPlain-number}
use nest_quickfix.Message.Frame.{IsFrame, to_string-IsFrame}
use nest_quickfix.Parser.{process_data}
use nest_quickfix.Parser.RoundTrip.{stream, received, process_data-stream}
use nest_quickfix.Parser.Received.{get_field-received}
use nest_quickfix.Fields.MsgType
use nest_quickfix.Fields.MsgType.{of_wire-wire}

abbrev pub beat : Message
beat = record {
  fields =
      (begin_string, string (text "FIX.4.4"))
      ∷ (test_req_id, string (text "T1"))
      ∷ (msg_type, string (text "0"))
      ∷ (sender_comp_id, string (text "A"))
      ∷ (target_comp_id, string (text "B"))
      ∷ (msg_seq_num, numeric (nat 7))
      ∷ (sending_time, string (text "20240102-03:04:05.006"))
      ∷ [];
}

-- A test for `IsPlain`.
abbrev lacks : ℕ → Text → Bool
lacks c [] = true
lacks c (d ∷ t) = not (nat_eq d c) && lacks c t

lacks-Lacks : (c : ℕ) (t : Text) → lacks c t ≡ true → Lacks c t
lacks-Lacks c [] h = tt
lacks-Lacks c (d ∷ t) h = ground (arith, lacks-Lacks c t)

pub plain :
    (c : ℕ) (t : Text) → lacks soh (c ∷ t) ≡ true → lacks 61 (c ∷ t) ≡ true → IsPlain (c ∷ t)
plain c t h k = (λ e. cc, lacks-Lacks soh (c ∷ t) h, lacks-Lacks 61 (c ∷ t) k)

pub beat-IsSendable : IsSendable beat
unfolding value_text nest_quickfix.OrderedMap.has has_field
beat-IsSendable = record {
  unique = (refl, (refl, (refl, (refl, (refl, (refl, (refl, tt)))))));
  required = (refl, (refl, (refl, (refl, (refl, (refl, tt))))));
  clean = (
    ((8, refl), plain _ _ refl refl),
    (
      ((112, refl), plain _ _ refl refl),
      (
        ((35, refl), plain _ _ refl refl),
        (
          ((49, refl), plain _ _ refl refl),
          (
            ((56, refl), plain _ _ refl refl),
            (((34, refl), IsPlain-number 7), (((52, refl), plain _ _ refl refl), tt)),
          ),
        ),
      ),
    ),
  );
}

process_data-stream_example :
    process_data (stream (beat ∷ beat ∷ [])) ≡ map received (beat ∷ beat ∷ [])
process_data-stream_example =
    process_data-stream (beat ∷ beat ∷ []) (beat-IsSendable, (beat-IsSendable, tt))

to_string-IsFrame_example : IsFrame (print beat)
to_string-IsFrame_example =
    to_string-IsFrame beat (print beat) (to_string_lem beat beat-IsSendable.required)

to_string-eq-ok_iff_example :
    ((s : Text) × (to_string beat ≡ ok s)) ↔ All (Has beat) required_fields
to_string-eq-ok_iff_example = to_string-eq-ok_iff beat

abbrev untyped : Message
untyped = record { fields = (begin_string, string (text "FIX.4.4")) ∷ [] }

to_string_missing_example :
    to_string untyped ≡ err (error (text "Missing required field: " ++ field_text msg_type))
unfolding has_field nest_quickfix.OrderedMap.has
to_string_missing_example =
    to_string_missing untyped (begin_string ∷ []) msg_type
      (sender_comp_id ∷ target_comp_id ∷ msg_seq_num ∷ sending_time ∷ []) refl (refl, tt) refl

create_reverse_involutive_example :
    ((f : FieldType)
      → get_field (create_reverse beat) f ≡ (
          if sender_comp_id == f
          then get_field beat target_comp_id
          else if target_comp_id == f
          then get_field beat sender_comp_id
          else get_field beat f))
    × (create_reverse (create_reverse beat) ≡ beat)
unfolding has_field nest_quickfix.OrderedMap.has
create_reverse_involutive_example = create_reverse_involutive beat beat-IsSendable.unique refl refl
