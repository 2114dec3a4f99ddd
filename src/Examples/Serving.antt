-- ===== src/Examples/Serving.antt =====
-- The theorems on the server as a whole, at an application that answers every call with a message.
use nest_quickfix.Prelude.{◌≡◌, ◌≤◌, arith, refl, [], ◌∷◌, ◌++◌}
use nest_quickfix.Text.{Text, text, text_Eq, soh}
use nest_quickfix.World.{World}
use nest_quickfix.Session.{App}
use nest_quickfix.Session.Stable.{send_message-Keeps}
use nest_quickfix.Session.Sending.{send_message}
use nest_quickfix.Acceptor.{accept, receive_data, close, cleanup_socket_sessions}
use nest_quickfix.Acceptor.Closed.{IsVacated}
use nest_quickfix.Server.{Server, Reach, connected, received, closed, sent, here, next}
use nest_quickfix.Server.Sound.{IsSound, blank-IsSound}
use nest_quickfix.Server.Always.{IsTameServer, IsSound-Reach, cleanup-Reach}
use nest_quickfix.Server.Lasting.{next_outgoing_seq_num-Reach}
use nest_quickfix.Examples.{beat}
use nest_quickfix.Examples.Sessions.{quiet, idle, idle-IsPassive, quiet-NoneConnected}
use nest_quickfix.Examples.Acceptance.{server}

-- Each call of the application sends a message over its session.
abbrev talking : App
talking = record { call = λ h r m. send_message r beat }

abbrev serving : App → Server
serving app = record { app = app; config = server; metadata = [] }

talking-IsTameServer : IsTameServer (serving talking)
talking-IsTameServer = record {
  app = λ J stable h r m. send_message-Keeps stable r beat;
  auth = tt;
}

quiet-IsSound : IsSound quiet
quiet-IsSound = blank-IsSound quiet refl refl quiet-NoneConnected

-- The data of a logon.
abbrev logon_data : Text
logon_data =
    text "8=FIX.4.4"
    ++ soh
      ∷ (text "35=A"
          ++ soh
            ∷ (text "49=CLIENT"
                ++ soh
                  ∷ (text "56=SERVER"
                      ++ soh ∷ (text "108=30" ++ soh ∷ (text "98=0" ++ soh ∷ text "10=000")))))

-- A connection comes, brings data, and goes.
abbrev visited : App → World
visited app =
    (close app server [] 0
      (receive_data app server [] 0 logon_data (accept 0 (text "10.0.0.1") quiet)).1).1

visited-Reach : (app : App) → Reach (serving app) quiet (visited app)
visited-Reach app =
    next (next (next here (connected quiet 0 (text "10.0.0.1"))) (received _ 0 logon_data))
      (closed _ 0)

IsSound-Reach_example : IsSound (visited talking)
IsSound-Reach_example =
    IsSound-Reach (serving talking) quiet (visited talking) talking-IsTameServer quiet-IsSound
      (visited-Reach talking)

cleanup-Reach_example :
    IsVacated 0 (visited idle) (cleanup_socket_sessions idle server [] 0 (visited idle)).1
cleanup-Reach_example =
    cleanup-Reach (serving idle) quiet (visited idle) 0 idle-IsPassive tt quiet-IsSound tt
      (visited-Reach idle)

-- One session has been made.
abbrev manned : World
manned = record quiet { next_object = 1 }

abbrev spoken : World
spoken = (send_message 0 beat manned).1

next_outgoing_seq_num-Reach_example :
    ((manned.objects 0).next_outgoing_seq_num ≤ (spoken.objects 0).next_outgoing_seq_num)
    × ((spoken.objects 0).session_id ≡ (manned.objects 0).session_id)
    × ((spoken.objects 0).socket ≡ (manned.objects 0).socket)
next_outgoing_seq_num-Reach_example =
    next_outgoing_seq_num-Reach (serving talking) manned spoken 0 talking-IsTameServer (omega arith)
      (next here (sent manned 0 beat))
