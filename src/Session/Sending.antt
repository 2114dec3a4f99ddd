-- ===== src/Session/Sending.antt =====
-- `sendMessage` of src/session/session.ts.
use nest_quickfix.Prelude.{ℕ, ◌+◌, not, Option, none, some, List, [], ◌∷◌, if◌then◌else◌}
use nest_quickfix.Text.{Text, text}
use nest_quickfix.Text.Integer.{nat}
use nest_quickfix.Result.{Error, error, ok, err}
use nest_quickfix.Fields.{begin_string, msg_seq_num, sender_comp_id, sending_time, target_comp_id}
use nest_quickfix.Message.{
  Message, Field, string, numeric, set_field, has_field, create_reverse, to_string,
}
use nest_quickfix.Date.{format_date_time}
use nest_quickfix.World.{World, Session, written}
use nest_quickfix.World.Exec.{Exec, throw, lift, gets, ◌>>=◌}
use nest_quickfix.World.Store.{put_session, put_socket, note}

-- The loop that sets what is missing.
unfoldable pub set_missing : Message → List Field → Message
set_missing m [] = m
set_missing m (f ∷ fs) = set_missing (if has_field m f.tag then m else set_field m f.tag f.value) fs

-- The fields of `addRequiredFields`; the entries of an object with integer keys come in their order.
abbrev pub default_fields : Session → Text → List Field
default_fields s time =
    record { tag = begin_string; value = string s.config.begin_string }
    ∷ record { tag = msg_seq_num; value = numeric (nat s.next_outgoing_seq_num) }
    ∷ record { tag = sender_comp_id; value = string s.config.sender_comp_id }
    ∷ record { tag = sending_time; value = string time }
    ∷ record { tag = target_comp_id; value = string s.config.target_comp_id }
    ∷ []

-- `addRequiredFields(message)`: the number is used up whether or not the message has one.
unfoldable pub add_required_fields : ℕ → Message → Exec World Message
add_required_fields ref m w =
    let s = w.objects ref in
    (
      ok (set_missing m (default_fields s (format_date_time w.date))),
      put_session ref (record s { next_outgoing_seq_num = s.next_outgoing_seq_num + 1 }) w,
    )

unfoldable pub answer : ℕ → Text → List (Option Error) → Exec World (Unit {0})
unfolding note
answer k raw [] w = note (written k raw) w
answer k raw (none ∷ answers) w =
    note (written k raw) (put_socket k (record (w.sockets k) { answers = answers }) w)
answer k raw (some e ∷ answers) w =
    (err e, put_socket k (record (w.sockets k) { answers = answers }) w)

-- `await new Promise(… this.socket.write(rawMessage, …))`
unfoldable pub write : ℕ → Text → Exec World (Unit {0})
write k raw w = answer k raw (w.sockets k).answers w

-- `sendMessage` after `addRequiredFields`.
unfoldable pub transmit : ℕ → Message → Exec World (Unit {0})
unfolding ◌>>=◌
transmit ref full = do
  socket ← gets (λ w. (w.objects ref).socket)
  writable ← gets (λ w. (w.sockets socket).writable)
  if not writable
      then throw (error (text "Socket not writable"))
      else do raw ← lift (to_string (create_reverse full)); write socket raw

-- `sendMessage(message)`
unfoldable pub send_message : ℕ → Message → Exec World (Unit {0})
unfolding ◌>>=◌
send_message ref m = do full ← add_required_fields ref m; transmit ref full
