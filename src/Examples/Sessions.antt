-- ===== src/Examples/Sessions.antt =====
-- The theorems on sessions, at a world with one session.
use nest_quickfix.Session.Ending.{IsPassive}
use nest_quickfix.Prelude.{[], ◌+◌, ◌≡◌, refl, true, []}
use nest_quickfix.Text.{text}
use nest_quickfix.Text.Integer.{nat}
use nest_quickfix.OrderedMap
use nest_quickfix.Result.{ok, err, error}
use nest_quickfix.Message.{has_field}
use nest_quickfix.World.{World, SessionConfig, Socket}
use nest_quickfix.World.Exec.{pure}
use nest_quickfix.World.Exec.Keeps.{Keeps-pure}
use nest_quickfix.World.Store.{update}
use nest_quickfix.Rooms.{empty}
use nest_quickfix.Session.{App, new_session, logon, initial_session, heartbeat_tick}
use nest_quickfix.Session.Sending.{send_message}
use nest_quickfix.Session.Connected.{NoneConnected, IsHarmless}
use nest_quickfix.Session.Lifecycle.{here, next, create, tick, logon-Reach}
use nest_quickfix.Session.Sent.{objects-send_message}
use nest_quickfix.Session.Success.{send_message_succeeds}
use nest_quickfix.Manager.{
  create_session, register_session, is_full, limit_message, register, get_session,
}
use nest_quickfix.Manager.Bound.{IsRegistered, register_session-IsRegistered, register_session_new}
use nest_quickfix.Examples.{beat}

abbrev pub config : SessionConfig
config = record {
  sender_comp_id = text "SERVER";
  target_comp_id = text "CLIENT";
  heartbeat_interval = nat 30;
  begin_string = text "FIX.4.4";
  app_name = text "server";
}

abbrev open_socket : Socket
open_socket = record { writable = true; answers = []; listeners = [] }

-- No session is registered, and one may be.
abbrev pub quiet : World
quiet = record {
  objects = λ r. initial_session config 0;
  next_object = 0;
  sockets = λ k. open_socket;
  active_sockets = [];
  registry = [];
  max_sessions = 1;
  rooms = empty;
  now = 0;
  date = record {
    year = 2024;
    month = 1;
    day = 2;
    hours = 3;
    minutes = 4;
    seconds = 5;
    milliseconds = 6;
  };
  log = [];
}

-- An application whose handlers do nothing.
abbrev pub idle : App
idle = record { call = λ h r m. pure tt }

idle-IsHarmless : IsHarmless idle
idle-IsHarmless = record { keeps = λ h r m. Keeps-pure tt }

pub quiet-NoneConnected : NoneConnected quiet
quiet-NoneConnected = record { at = λ r. λ e. cc }

logon-Reach_example : logon 0 (heartbeat_tick 0 (new_session config 0 quiet).1).1 ≡ (
  err (error (text "Session must be in CONNECTED state to logon")),
  (heartbeat_tick 0 (new_session config 0 quiet).1).1,
)
logon-Reach_example =
    logon-Reach idle quiet (heartbeat_tick 0 (new_session config 0 quiet).1).1 0 idle-IsHarmless
      quiet-NoneConnected
      (next (next here (create quiet config 0)) (tick (new_session config 0 quiet).1 0))

send_message_succeeds_example : (send_message 0 beat quiet).0 ≡ ok tt
unfolding has_field OrderedMap.has
send_message_succeeds_example =
    send_message_succeeds 0 beat quiet (refl, (refl, (refl, (refl, (refl, (refl, (refl, tt)))))))
      refl refl refl

objects-send_message_example :
    (send_message 0 beat quiet).1.objects
    ≡ update quiet.objects 0 (record (quiet.objects 0) {
      next_outgoing_seq_num = (quiet.objects 0).next_outgoing_seq_num + 1;
    })
objects-send_message_example = objects-send_message 0 beat quiet

register_session-IsRegistered_example :
    IsRegistered (quiet.objects 0).session_id 0 (register (quiet.objects 0).session_id 0 quiet)
unfolding nest_quickfix.Manager.get_session_by_id OrderedMap.get
register_session-IsRegistered_example =
    register_session-IsRegistered idle 0 quiet (register (quiet.objects 0).session_id 0 quiet)
      (register_session_new idle 0 quiet refl)

pub idle-IsPassive : IsPassive idle
unfolding pure
idle-IsPassive = record { returns = λ h r m w. refl }
