-- ===== src/Session/Success.antt =====
-- When `sendMessage` returns.
use nest_quickfix.Prelude.{
  ℕ, Bool, true, false, ◌≡◌, refl, ◌∙◌, ap, sym, List, [], ◌∷◌, Option, none, some, arith, All,
}
use mathlib.Core.Path.{subst}
use nest_quickfix.Text.{Text}
use nest_quickfix.Result.{ok, Error}
use nest_quickfix.Fields.{
  FieldType, field_Eq, begin_string, msg_type, msg_seq_num, sender_comp_id, sending_time,
  target_comp_id,
}
use nest_quickfix.Message.{Message, required_fields}
use nest_quickfix.Message.Laws.{IsMessage, Has, to_string_lem, print}
use nest_quickfix.Message.Copies.{has_field-create_reverse}
use nest_quickfix.World.{World}
use nest_quickfix.World.Exec.{continue}
use nest_quickfix.Session.Sending.{set_missing, answer, write, send_message}
use nest_quickfix.Session.Completed.{is_default, has_field-set_missing, set_missing-IsMessage}
use nest_quickfix.Session.Sent.{
  outgoing, numbered, defaults, send_message_lem, transmit_open, socket_of_numbered,
}

-- The socket takes the next text.
abbrev pub accepts : List (Option Error) → Bool
accepts [] = true
accepts (none ∷ answers) = true
accepts (some e ∷ answers) = false

answer-ok :
    (k : ℕ) (raw : Text) (answers : List (Option Error)) (w : World)
    → accepts answers ≡ true
    → (answer k raw answers w).0 ≡ ok tt
unfolding answer
answer-ok k raw [] w h = refl
answer-ok k raw (none ∷ answers) w h = refl
answer-ok k raw (some e ∷ answers) w h = cc

write-ok :
    (k : ℕ) (raw : Text) (w : World)
    → accepts (w.sockets k).answers ≡ true
    → (write k raw w).0 ≡ ok tt
unfolding write
write-ok k raw w h = answer-ok k raw (w.sockets k).answers w h

outgoing_required :
    (w : World) (r : ℕ) (m : Message)
    → IsMessage m
    → Has m msg_type
    → All (Has (outgoing w r m)) required_fields
outgoing_required w r m u h =
    let ds = defaults w r in
    let reverse = λ (f : FieldType) (p : Has (set_missing m ds) f).
      has_field-create_reverse (set_missing m ds) f (set_missing-IsMessage m ds u) p in
    (
      reverse begin_string (completed begin_string refl),
      (
        reverse msg_type (rw (has_field-set_missing m ds msg_type, h)),
        (
          reverse sender_comp_id (completed sender_comp_id refl),
          (
            reverse target_comp_id (completed target_comp_id refl),
            (
              reverse msg_seq_num (completed msg_seq_num refl),
              (reverse sending_time (completed sending_time refl), tt),
            ),
          ),
        ),
      ),
    )
  where
    completed :
        (f : FieldType) → is_default (defaults w r) f ≡ true → Has (set_missing m (defaults w r)) f
    completed f d = ground (arith, has_field-set_missing m (defaults w r) f)

-- `sendMessage` returns for every message that has a type and has each field once, if the socket
-- is writable and takes the text.
pub send_message_succeeds :
    (r : ℕ) (m : Message) (w : World)
    → IsMessage m
    → Has m msg_type
    → (w.sockets (w.objects r).socket).writable ≡ true
    → accepts (w.sockets (w.objects r).socket).answers ≡ true
    → (send_message r m w).0 ≡ ok tt
send_message_succeeds r m w u h open_socket taken =
    let k = ((numbered r w).objects r).socket in
    let open' : (w.sockets k).writable ≡ true =
      subst (λ j. (w.sockets j).writable ≡ true) (sym (socket_of_numbered r w)) open_socket in
    let taken' : accepts (w.sockets k).answers ≡ true =
      subst (λ j. accepts (w.sockets j).answers ≡ true) (sym (socket_of_numbered r w)) taken in
    ap (λ x. x.0)
      (send_message_lem r m w ∙ transmit_open r (set_missing m (defaults w r)) (numbered r w) open')
    ∙ ap (λ x. (continue (x, numbered r w) (write k)).0)
        (to_string_lem (outgoing w r m) (outgoing_required w r m u h))
    ∙ write-ok k (print (outgoing w r m)) (numbered r w) taken'
