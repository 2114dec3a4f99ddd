-- ===== src/World.antt =====
-- The state that the sessions share: session objects, their sockets, the registry of
-- `SessionManager`, the rooms, the clock, and a log of what can be seen from outside.
-- Objects stand in a store behind references, since several parts hold the same session.
pub mod Exec
pub mod Store
pub mod Touches
use nest_quickfix.Prelude.{
  ℕ, ◌+◌, Bool, true, false, Option, none, some, List, [], ◌∷◌, ◌++◌, nat_eq, if◌then◌else◌,
}
use nest_quickfix.Text.{Text}
use nest_quickfix.Text.Integer.{Number}
use nest_quickfix.OrderedMap.{OrderedMap}
use nest_quickfix.Message.{Message}
use nest_quickfix.Result.{Error}
use nest_quickfix.Rooms.{RoomManager}
use nest_quickfix.Date.{Date}

-- `enum SessionState`
pub data SessionState : Type 0 where
  disconnected connected logging_on logged_on logging_out error resending : SessionState

-- `enum SessionEvents`, as far as the program emits them
pub data SessionEvent : Type 0 where
  message_in message_out logging_on logged_on logging_out logged_out error disconnect : SessionEvent

-- `interface SessionConfig`
pub record SessionConfig : Type 0 where
  pub sender_comp_id : Text
  pub target_comp_id : Text
  pub heartbeat_interval : Number
  pub begin_string : Text
  pub app_name : Text

-- The functions that an application registers are known by a number.
abbrev pub Handler : Type 0
Handler = ℕ

pub record MessageHandler : Type 0 where
  pub handler : Handler
  pub msg_type : Option Text

pub record Handlers : Type 0 where
  pub logon : List Handler
  pub logout : List Handler
  pub connected : List Handler
  pub disconnected : List Handler
  pub message : List MessageHandler

-- The fields of `class Session`. A timer is there while it runs.
pub record Session : Type 0 where
  pub session_id : Text
  pub state : SessionState
  pub next_outgoing_seq_num : ℕ
  pub next_expected_seq_num : ℕ
  pub last_heartbeat_time : Option ℕ
  pub heartbeat_timer : Bool
  pub last_test_request_id : Option Text
  pub test_request_timer : Bool
  pub config : SessionConfig
  pub handlers : Handlers
  pub socket : ℕ

-- What listens to a socket: the three functions that the acceptor attaches with the address of the
-- peer, and the function that ends a session when the socket closes.
pub data Listener : Type 0 where
  attached : (address : Text) → Listener
  closing : (session : ℕ) → Listener

-- What the program sees of a `net.Socket`: whether it can be written to, what listens to it, and
-- what the callback of each coming `write` is given; beyond the end of `answers` no write fails.
pub record Socket : Type 0 where
  pub writable : Bool
  pub answers : List (Option Error)
  pub listeners : List Listener

-- `enum AcceptorEvents`
pub data AcceptorEvent : Type 0 where
  started stopped error : AcceptorEvent

pub data Event : Type 0 where
  emitted : (session : ℕ) → SessionEvent → Event
  written : (socket : ℕ) → Text → Event
  ended : (socket : ℕ) → Event
  destroyed : (socket : ℕ) → Event
  announced : AcceptorEvent → Event

pub record World : Type 0 where
  pub objects : ℕ → Session
  pub next_object : ℕ
  pub sockets : ℕ → Socket
  pub active_sockets : OrderedMap Text ℕ
  pub registry : OrderedMap Text ℕ
  pub max_sessions : ℕ
  pub rooms : RoomManager
  pub now : ℕ
  pub date : Date
  pub log : List Event
