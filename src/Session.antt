-- ===== src/Session.antt =====
-- src/session/session.ts: `class Session`. Each asynchronous method runs to its end before the next
-- begins. `ref` is `this`; the set of handlers that a loop walks is that at its start.
pub mod Registry
pub mod Registration
pub mod Sending
pub mod Stable
pub mod Connected
pub mod Lifecycle
pub mod Completed
pub mod Sent
pub mod Success
pub mod Local
pub mod Ending
pub mod LoggedOn
pub mod LoggedOut
pub mod LoggingOut
pub mod Bonds
use nest_quickfix.Prelude.{
  ℕ, ◌+◌, Bool, true, false, not, ◌&&◌, ◌||◌, Option, none, some, List, [], ◌∷◌, ◌++◌, ◌==◌,
  if◌then◌else◌,
}
use nest_quickfix.Text.{Text, text, text_Eq}
use nest_quickfix.Text.Integer.{nat}
use nest_quickfix.Result.{ok, error}
use nest_quickfix.Fields.{msg_type, test_req_id}
use nest_quickfix.Fields.MsgType
use nest_quickfix.Message.{
  Message, Value, string, numeric, undefined, strict_equal, get_field, has_field,
}
use nest_quickfix.Message.Templates.{logon_message, logout_message, heartbeat_message}
use nest_quickfix.World.{
  World, Session, SessionConfig, SessionState, SessionEvent, Socket, Handler, Handlers,
  MessageHandler, Event, emitted, ended,
}
use nest_quickfix.World.Exec.{Exec, pure, throw, catch, gets, modify, ◌>>=◌, ◌>>◌}
use nest_quickfix.World.Store.{put_session, put_socket, set_state, note}
use nest_quickfix.Session.Registry.{remove_session}
use nest_quickfix.Session.Sending.{send_message}

-- The functions of the application. A call is given the session and, of some, a message.
pub record App : Type 0 where
  pub call : Handler → ℕ → Option Message → Exec World (Unit {0})

abbrev pub emit : ℕ → SessionEvent → Exec World (Unit {0})
emit ref e = note (emitted ref e)

abbrev pub is_state : SessionState → SessionState → Bool
is_state SessionState.disconnected SessionState.disconnected = true
is_state SessionState.connected SessionState.connected = true
is_state SessionState.logging_on SessionState.logging_on = true
is_state SessionState.logged_on SessionState.logged_on = true
is_state SessionState.logging_out SessionState.logging_out = true
is_state SessionState.error SessionState.error = true
is_state SessionState.resending SessionState.resending = true
is_state _ _ = false

abbrev pub no_handlers : Handlers
no_handlers = record { logon = []; logout = []; connected = []; disconnected = []; message = [] }

abbrev pub session_id_of : SessionConfig → Text
session_id_of c = c.sender_comp_id ++ (text "->" ++ c.target_comp_id)

-- The constructor; its heartbeat runs from the start.
abbrev pub initial_session : SessionConfig → ℕ → Session
initial_session config socket = record {
  session_id = session_id_of config;
  state = SessionState.disconnected;
  next_outgoing_seq_num = 1;
  next_expected_seq_num = 1;
  last_heartbeat_time = none;
  heartbeat_timer = true;
  last_test_request_id = none;
  test_request_timer = false;
  config = config;
  handlers = no_handlers;
  socket = socket;
}

unfoldable pub new_session : SessionConfig → ℕ → Exec World ℕ
new_session config socket w =
    let ref = w.next_object in
    (ok ref, record (put_session ref (initial_session config socket) w) { next_object = ref + 1 })

-- `logon()`
unfoldable pub logon : ℕ → Exec World (Unit {0})
logon ref = do
  s ← gets (λ w. w.objects ref)
  if is_state s.state SessionState.connected
      then catch
          (do
            set_state ref SessionState.logging_on
            send_message ref
                (logon_message (numeric s.config.heartbeat_interval) (numeric (nat 0)) true)
            emit ref SessionEvent.logging_on)
          (λ e. do set_state ref SessionState.error; throw e)
      else throw (error (text "Session must be in CONNECTED state to logon"))

unfoldable pub clear_timers : ℕ → Exec World (Unit {0})
unfolding modify
clear_timers ref w =
    modify
      (put_session ref
        (record (w.objects ref) { heartbeat_timer = false; test_request_timer = false }))
      w

-- `this.socket.removeAllListeners()` and `this.socket.end()`
unfoldable pub remove_all_listeners : ℕ → Exec World (Unit {0})
unfolding modify
remove_all_listeners k w = modify (put_socket k (record (w.sockets k) { listeners = [] })) w

unfoldable pub end_socket : ℕ → Exec World (Unit {0})
end_socket k = do
  modify (λ w. put_socket k (record (w.sockets k) { writable = false }) w)
  note (ended k)

abbrev pub is_type : MsgType.MsgType → Message → Bool
is_type t m = strict_equal (get_field m msg_type) (string (MsgType.wire t))

module _ (app : App) where
  -- `handlers.forEach((handler) => handler(this, …))`
  unfoldable pub call_each : List Handler → ℕ → Option Message → Exec World (Unit {0})
  call_each [] ref m = pure tt
  call_each (h ∷ hs) ref m = app.call h ref m >> call_each hs ref m

  -- `handleDisconnect()`
  unfoldable pub handle_disconnect : ℕ → Exec World (Unit {0})
  unfolding clear_timers remove_all_listeners call_each
  handle_disconnect ref = do
    set_state ref SessionState.disconnected
    clear_timers ref
    s ← gets (λ w. w.objects ref)
    call_each s.handlers.disconnected ref none
    emit ref SessionEvent.disconnect
    remove_all_listeners s.socket

  -- `logout(reason)`
  unfoldable pub logout : ℕ → Value → Exec World (Unit {0})
  unfolding handle_disconnect end_socket
  logout ref reason = do
    s ← gets (λ w. w.objects ref)
    if is_state s.state SessionState.disconnected
        then throw (error (text "Session already disconnected"))
        else do
          set_state ref SessionState.logging_out
          catch (send_message ref (logout_message reason)) (λ e. pure tt)
          emit ref SessionEvent.logging_out
          handle_disconnect ref
          writable ← gets (λ w. (w.sockets s.socket).writable)
          if writable then end_socket s.socket else pure tt
          modify (remove_session s.session_id)
          emit ref SessionEvent.logged_out

  -- `handleLogon(message)`
  unfoldable pub handle_logon : ℕ → Message → Exec World (Unit {0})
  unfolding call_each
  handle_logon ref m =
      catch
        (do
          set_state ref SessionState.logged_on
          s ← gets (λ w. w.objects ref)
          send_message ref
              (logon_message (numeric s.config.heartbeat_interval) (numeric (nat 0)) false)
          call_each s.handlers.connected ref none
          call_each s.handlers.logon ref (some m)
          emit ref SessionEvent.logged_on)
        (λ e. do set_state ref SessionState.error; throw e)

  -- `handleLogout(message)`
  unfoldable pub handle_logout : ℕ → Message → Exec World (Unit {0})
  unfolding call_each handle_disconnect end_socket
  handle_logout ref m = do
    s ← gets (λ w. w.objects ref)
    call_each s.handlers.logout ref (some m)
    set_state ref SessionState.disconnected
    emit ref SessionEvent.logged_out
    handle_disconnect ref
    end_socket s.socket
    modify (remove_session s.session_id)

  is_last_request : Value → Option Text → Bool
  is_last_request (string t) (some u) = t == u
  is_last_request _ _ = false

  clear_test_request_timer : Session → Session
  clear_test_request_timer s =
      if s.test_request_timer
      then record s { test_request_timer = false; last_test_request_id = none }
      else s

  -- `handleHeartbeat(message)`
  unfoldable pub handle_heartbeat : ℕ → Message → Exec World (Unit {0})
  unfolding is_last_request clear_test_request_timer modify
  handle_heartbeat ref m w =
      let s = record (w.objects ref) { last_heartbeat_time = some w.now } in
      modify
        (put_session ref (
          if has_field m test_req_id
            && is_last_request (get_field m test_req_id) s.last_test_request_id
          then clear_test_request_timer s
          else s))
        w

  -- `handleTestRequest(message)`
  unfoldable pub handle_test_request : ℕ → Message → Exec World (Unit {0})
  handle_test_request ref m = send_message ref (heartbeat_message (get_field m test_req_id))

  wants : Option Text → Value → Bool
  wants none type = true
  wants (some []) type = true
  wants (some (c ∷ t)) type = strict_equal (string (c ∷ t)) type

  call_message_handlers : List MessageHandler → ℕ → Message → Exec World (Unit {0})
  unfolding wants
  call_message_handlers [] ref m = pure tt
  call_message_handlers (h ∷ hs) ref m =
      (if wants h.msg_type (get_field m msg_type) then app.call h.handler ref (some m) else pure tt)
      >> call_message_handlers hs ref m

  -- The `switch` of `handleMessage`.
  unfoldable pub handle_session_message : ℕ → Message → Exec World (Unit {0})
  unfolding handle_logon handle_logout handle_heartbeat handle_test_request
  handle_session_message ref m =
      if is_type MsgType.logon m
      then handle_logon ref m
      else if is_type MsgType.logout m
      then handle_logout ref m
      else if is_type MsgType.heartbeat m
      then handle_heartbeat ref m
      else if is_type MsgType.test_request m
      then handle_test_request ref m
      else pure tt

  -- `handleMessage(message)`
  unfoldable pub handle_message : ℕ → Message → Exec World (Unit {0})
  unfolding handle_session_message call_message_handlers
  handle_message ref m = do
    handle_session_message ref m
    s ← gets (λ w. w.objects ref)
    call_message_handlers s.handlers.message ref m
    modify (λ w. put_session ref (record (w.objects ref) { last_heartbeat_time = some w.now }) w)

-- The callback of the heartbeat's interval, which runs only while the timer is set.
unfoldable pub heartbeat_tick : ℕ → Exec World (Unit {0})
heartbeat_tick ref = do
  s ← gets (λ w. w.objects ref)
  if s.heartbeat_timer && is_state s.state SessionState.logged_on
      then catch (send_message ref (heartbeat_message undefined)) (λ e. pure tt)
      else pure tt
