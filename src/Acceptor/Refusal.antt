-- ===== src/Acceptor/Refusal.antt =====
-- src/acceptor/message.handler.ts: the logout that a peer is sent before its socket is destroyed.
use nest_quickfix.Prelude.{false, ℕ, if◌then◌else◌}
use nest_quickfix.Text.{Text}
use nest_quickfix.Text.Integer.{nat}
use nest_quickfix.Date.{format_date_time}
use nest_quickfix.Fields.{begin_string, msg_seq_num, sender_comp_id, sending_time, target_comp_id}
use nest_quickfix.Message.{Message, string, numeric, set_field, get_field, to_string}
use nest_quickfix.Message.Templates.{logout_message, plain_reject_message}
use nest_quickfix.Fields.{msg_type}
use nest_quickfix.World.{World, destroyed}
use nest_quickfix.World.Exec.{Exec, pure, lift, gets, catch, modify, ◌>>=◌, ◌>>◌}
use nest_quickfix.World.Store.{put_socket, note}
use nest_quickfix.Session.Sending.{write}

-- `socket.destroy()`
unfoldable pub destroy : ℕ → Exec World (Unit {0})
destroy k = do
  modify (λ w. put_socket k (record (w.sockets k) { writable = false }) w)
  note (destroyed k)

-- `socket.write(data)` without a callback: a failure comes as an event, and nothing is thrown.
unfoldable pub write_plain : ℕ → Text → Exec World (Unit {0})
write_plain k raw = do
  writable ← gets (λ w. (w.sockets k).writable)
  if writable then catch (write k raw) (λ e. pure tt) else pure tt

-- `createLogoutMessage(message, reason)`
unfoldable pub create_logout_message : Text → Message → Text → World → Message
create_logout_message version m reason w =
    let m1 = logout_message (string reason) in
    let m2 = set_field m1 sender_comp_id (get_field m target_comp_id) in
    let m3 = set_field m2 target_comp_id (get_field m sender_comp_id) in
    let m4 = set_field m3 begin_string (string version) in
    let m5 = set_field m4 msg_seq_num (numeric (nat 1)) in
    set_field m5 sending_time (string (format_date_time w.date))

-- `sendLogoutAndClose(socket, message, reason)`; the wait of 100 ms does nothing of its own
unfoldable pub send_logout_and_close : Text → ℕ → Message → Text → Exec World (Unit {0})
unfolding destroy write_plain create_logout_message
send_logout_and_close version k m reason = do
  logout ← gets (create_logout_message version m reason)
  raw ← lift (to_string logout)
  write_plain k raw
  destroy k

-- `sendReject(socket, message, reason)`
unfoldable pub send_reject : ℕ → Message → Text → Exec World (Unit {0})
send_reject k m reason = do
  raw ← lift (
      to_string
        (plain_reject_message (get_field m msg_seq_num) (string reason) (get_field m msg_type)))
  write_plain k raw
