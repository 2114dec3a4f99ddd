-- ===== src/Server.antt =====
-- The server as a whole: the acceptor of src/acceptor/, the sessions and the registry of
-- src/session/, and the service of src/services/, on one world. A step is one call of a method, from
-- the runtime or from the application, or a change of what is outside of the program.
pub mod Open
pub mod Checks
pub mod Traffic
pub mod Ends
pub mod Sound
pub mod Unique
pub mod Always
pub mod Lasting
use nest_quickfix.Prelude.{ℕ, ◌+◌, ◌≤◌, Option, List}
use nest_quickfix.Text.{Text}
use nest_quickfix.Result.{Error}
use nest_quickfix.Date.{Date}
use nest_quickfix.Message.{Message, Value}
use nest_quickfix.World.{World, Socket, SessionConfig, Handlers}
use nest_quickfix.World.Store.{put_socket}
use nest_quickfix.Session.{
  App, new_session, logon, logout, handle_disconnect, handle_message, heartbeat_tick,
}
use nest_quickfix.Session.Sending.{send_message}
use nest_quickfix.Session.Registry.{remove_session}
use nest_quickfix.Session.Registration.{on_handlers, join_room, leave_room}
use nest_quickfix.Manager.{create_session, register_session, close_all}
use nest_quickfix.Metadata.{FixMetadata}
use nest_quickfix.Acceptor.Guard.{AcceptorConfig}
use nest_quickfix.Acceptor.{start, accept, receive_data, handle_data_error, close, stop}
use nest_quickfix.Service.{FixService, send}

-- What the application gives: its functions, the configuration, and what `explore()` has found.
pub record Server : Type 0 where
  pub app : App
  pub config : AcceptorConfig
  pub metadata : List FixMetadata

pub data Step (server : Server) : World → World → Type 0 where
  -- The acceptor.
  started : (w : World) (x : Option Error) → Step server w (start x w).1
  connected : (w : World) (k : ℕ) (address : Text) → Step server w (accept k address w)
  received :
      (w : World) (k : ℕ) (raw : Text)
      → Step server w (receive_data server.app server.config server.metadata k raw w).1
  failed : (w : World) (k : ℕ) → Step server w (handle_data_error k w).1
  closed :
      (w : World) (k : ℕ) → Step server w (close server.app server.config server.metadata k w).1
  stopped : (w : World) → Step server w (stop server.app server.config server.metadata w).1
  -- The service.
  sent_to_room : (w : World) (s : FixService) (m : Message) → Step server w (send m s w).2
  -- The registry.
  created : (w : World) (c : SessionConfig) (k : ℕ) → Step server w (create_session c k w).1
  registered :
      (w : World) (r : ℕ)
      → r + 1 ≤ w.next_object
      → Step server w (register_session server.app r w).1
  removed : (w : World) (id : Text) → Step server w (remove_session id w)
  logged_out_all : (w : World) → Step server w (close_all server.app w).1
  -- One session.
  built : (w : World) (c : SessionConfig) (k : ℕ) → Step server w (new_session c k w).1
  logged_on : (w : World) (r : ℕ) → Step server w (logon r w).1
  logged_out : (w : World) (r : ℕ) (v : Value) → Step server w (logout server.app r v w).1
  handled : (w : World) (r : ℕ) (m : Message) → Step server w (handle_message server.app r m w).1
  sent : (w : World) (r : ℕ) (m : Message) → Step server w (send_message r m w).1
  lost : (w : World) (r : ℕ) → Step server w (handle_disconnect server.app r w).1
  beaten : (w : World) (r : ℕ) → Step server w (heartbeat_tick r w).1
  joined : (w : World) (r : ℕ) (room : Text) → Step server w (join_room r room w)
  left : (w : World) (r : ℕ) (room : Text) → Step server w (leave_room r room w)
  handlers_changed :
      (w : World) (r : ℕ) (f : Handlers → Handlers) → Step server w (on_handlers f r w)
  -- The environment.
  socket_changed : (w : World) (k : ℕ) (s : Socket) → Step server w (put_socket k s w)
  time_passed :
      (w : World) (now : ℕ) (date : Date) → Step server w (record w { now = now; date = date })

pub data Reach (server : Server) (w : World) : World → Type 0 where
  here : Reach server w w
  next : {u v : World} → Reach server w u → Step server u v → Reach server w v
