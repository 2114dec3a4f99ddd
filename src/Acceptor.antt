-- ===== src/Acceptor.antt =====
-- src/acceptor/acceptor.ts, `class FIXAcceptor`: connections, the data that they carry, and their
-- end. The listening server is the runtime's: `accept` is its call for a new socket, `receive_data`
-- and `close` are the events of a socket, which reach the acceptor while it listens to it.
pub mod Guard
pub mod Refusal
pub mod Handler
pub mod Refused
pub mod Admission
pub mod Admitted
pub mod Wired
pub mod Stream
pub mod Cleared
pub mod Listed
pub mod Closed
use nest_quickfix.Prelude.{
  ℕ, Bool, true, false, Option, none, some, List, [], ◌∷◌, ◌++◌, nat_eq, if◌then◌else◌,
}
use nest_quickfix.Text.{Text, text, text_Eq}
use nest_quickfix.OrderedMap
use nest_quickfix.Result.{Error}
use nest_quickfix.Fields.{msg_type}
use nest_quickfix.Fields.MsgType
use nest_quickfix.Message.{
  Message, undefined, string, strict_equal, get_field, has_field, to_string,
}
use nest_quickfix.Parser.{process_data}
use nest_quickfix.World.{World, Listener, attached, closing, AcceptorEvent, announced}
use nest_quickfix.World.Exec.{Exec, pure, throw, lift, catch, gets, modify, ◌>>=◌, ◌>>◌}
use nest_quickfix.World.Store.{put_socket, note}
use nest_quickfix.Session.{App, handle_disconnect}
use nest_quickfix.Session.Registry.{remove_session}
use nest_quickfix.Manager.{get_all_sessions, close_all}
use nest_quickfix.Metadata.{FixMetadata}
use nest_quickfix.Acceptor.Guard.{AcceptorConfig}
use nest_quickfix.Acceptor.Refusal.{destroy}
use nest_quickfix.Acceptor.Handler.{handle_logon, handle_non_logon_message}

-- `start()`, by what listening has given: an error is heard by two listeners of the server.
unfoldable pub start : Option Error → Exec World (Unit {0})
start none = note (announced AcceptorEvent.started)
start (some e) = do
  note (announced AcceptorEvent.error)
  note (announced AcceptorEvent.error)
  throw e

-- `handleNewConnection(socket)`, with the address of the peer
unfoldable pub accept : ℕ → Text → World → World
accept k address w =
    put_socket k
      (record (w.sockets k) { listeners = (w.sockets k).listeners ++ attached address ∷ [] })
      (record w { active_sockets = OrderedMap.set w.active_sockets address k })

abbrev pub is_attached : List Listener → Bool
is_attached [] = false
is_attached (attached address ∷ ls) = true
is_attached (closing ref ∷ ls) = is_attached ls

-- `handleDataError(error, socket)`
unfoldable pub handle_data_error : ℕ → Exec World (Unit {0})
handle_data_error k = do note (announced AcceptorEvent.error); destroy k

module _ (app : App) (config : AcceptorConfig) (metadata : List FixMetadata) where
  unfoldable pub dispatch : ℕ → Message → Exec World (Unit {0})
  dispatch k m =
      if strict_equal (get_field m msg_type) (string (MsgType.wire MsgType.logon))
      then handle_logon app config metadata k m
      else handle_non_logon_message app config metadata k m

  -- `processMessage(socket, message)`: to log a message is to print it, which may throw; what its
  -- handling throws is caught.
  unfoldable pub process_message : ℕ → Message → Exec World (Unit {0})
  unfolding dispatch
  process_message k m =
      if has_field m msg_type
      then (do raw ← lift (to_string m); catch (dispatch k m) (λ e. pure tt))
      else pure tt

  unfoldable pub process_messages : ℕ → List Message → Exec World (Unit {0})
  unfolding process_message
  process_messages k [] = pure tt
  process_messages k (m ∷ ms) = process_message k m >> process_messages k ms

  -- `handleIncomingData(socket, data)`
  unfoldable pub handle_incoming_data : ℕ → Text → Exec World (Unit {0})
  unfolding process_messages handle_data_error
  handle_incoming_data k raw =
      catch (process_messages k (process_data raw)) (λ e. handle_data_error k)

  unfoldable pub receive_data : ℕ → Text → Exec World (Unit {0})
  unfolding handle_incoming_data
  receive_data k raw = do
    listening ← gets (λ w. is_attached (w.sockets k).listeners)
    if listening then handle_incoming_data k raw else pure tt

  -- The end of one session: of `cleanupSocketSessions`, and of `setupDisconnectHandler`.
  unfoldable pub end_session : ℕ → Exec World (Unit {0})
  end_session ref = do
    handle_disconnect app ref
    modify (λ w. remove_session (w.objects ref).session_id w)

  -- The loop of `cleanupSocketSessions(socket)` over the sessions that were registered at its start
  unfoldable pub cleanup_each : ℕ → List ℕ → Exec World (Unit {0})
  unfolding end_session
  cleanup_each k [] = pure tt
  cleanup_each k (ref ∷ refs) = do
    socket ← gets (λ w. (w.objects ref).socket)
    if nat_eq socket k then end_session ref else pure tt
    cleanup_each k refs

  unfoldable pub cleanup_socket_sessions : ℕ → Exec World (Unit {0})
  unfolding cleanup_each
  cleanup_socket_sessions k = do
    refs ← gets get_all_sessions
    catch (cleanup_each k refs) (λ e. pure tt)

  -- One listener of the event `close`.
  unfoldable pub hear_close : ℕ → Listener → Exec World (Unit {0})
  unfolding cleanup_socket_sessions end_session
  hear_close k (attached address) = do
    modify (λ w. record w { active_sockets = OrderedMap.delete w.active_sockets address })
    cleanup_socket_sessions k
  hear_close k (closing ref) = end_session ref

  -- The event `close`: every listener that there was at its start is called, in order.
  unfoldable pub hear_each : ℕ → List Listener → Exec World (Unit {0})
  unfolding hear_close
  hear_each k [] = pure tt
  hear_each k (l ∷ ls) = hear_close k l >> hear_each k ls

  unfoldable pub close : ℕ → Exec World (Unit {0})
  unfolding hear_each
  close k = do
    modify (λ w. put_socket k (record (w.sockets k) { writable = false }) w)
    listeners ← gets (λ w. (w.sockets k).listeners)
    hear_each k listeners

  -- `closeAllSockets()`
  unfoldable pub destroy_each : List ℕ → Exec World (Unit {0})
  destroy_each [] = pure tt
  destroy_each (k ∷ ks) = destroy k >> destroy_each ks

  unfoldable pub close_all_sockets : Exec World (Unit {0})
  unfolding destroy_each
  close_all_sockets = do
    ks ← gets (λ w. OrderedMap.values w.active_sockets)
    destroy_each ks
    modify (λ w. record w { active_sockets = [] })

  -- `stop()`; the server is closed between the sockets and the event
  unfoldable pub stop : Exec World (Unit {0})
  unfolding close_all_sockets
  stop = do close_all app; close_all_sockets; note (announced AcceptorEvent.stopped)
