-- ===== src/Server/Always.antt =====
-- What holds in every world that the server reaches.
use nest_quickfix.Prelude.{ℕ, refl, arith, Option, none, some, List, [], ◌∷◌}
use nest_quickfix.Text.{Text, text_Eq}
use nest_quickfix.Message.{Message}
use nest_quickfix.World.{World}
use nest_quickfix.Session.Stable.{
  logon-Keeps, logout-Keeps, handle_message-Keeps, send_message-Keeps, handle_disconnect-Keeps,
  heartbeat_tick-Keeps,
}
use nest_quickfix.Session.Sending.{send_message}
use nest_quickfix.Session.Registration.{join_room, leave_room}
use nest_quickfix.Rooms.{get_sessions_in_room}
use nest_quickfix.Service.{
  FixService, sessions_of, send_to_each, addressed_to, send_to_room, send_to_target, send,
}
use nest_quickfix.Session.{App}
use nest_quickfix.Session.Ending.{IsPassive}
use nest_quickfix.Acceptor.{cleanup_socket_sessions}
use nest_quickfix.Acceptor.Closed.{IsVacated, cleanup_socket_sessions-IsVacated}
use nest_quickfix.Server.Open.{
  IsOpen, IsTame, register_session-Keeps, close_all-Keeps, create_session-Keeps,
}
use nest_quickfix.Server.Checks.{TameAuth}
use nest_quickfix.Server.Traffic.{accept-after, handle_data_error-Keeps, receive_data-Keeps}
use nest_quickfix.Server.Ends.{start-Keeps, close-Keeps, stop-Keeps}
use nest_quickfix.Server.Sound.{IsSound, IsSound-IsOpen}
use nest_quickfix.Server.Unique.{HasUniqueIds-IsOpen}
use nest_quickfix.OrderedMap.Unique.{IsUnique}
use nest_quickfix.Server.{
  Server, Step, Reach, started, connected, received, failed, closed, stopped, sent_to_room, created,
  registered, removed, logged_out_all, built, logged_on, logged_out, handled, sent, lost, beaten,
  joined, left, handlers_changed, socket_changed, time_passed, here, next,
}

-- The application's functions, those of the authentication among them, do to the world only what
-- the methods of sessions do.
pub record IsTameServer (server : Server) : Type 1 where
  pub app : IsTame server.app
  pub auth : TameAuth server.config.auth

module _ {I : World → Type 0} (opened : IsOpen I) where
  send_to_each-after : (refs : List ℕ) (m : Message) (w : World) → I w → I (send_to_each refs m w)
  unfolding send_to_each
  send_to_each-after [] m w h = h
  send_to_each-after (r ∷ refs) m w h =
      send_to_each-after refs m (send_message r (addressed_to r m w) w).1
        ((send_message-Keeps opened.stable r (addressed_to r m w)).after w h)

  send_to_target-after :
      (id : Option Text) (m : Message) (w : World) → I w → I (send_to_target id m w).2
  unfolding send_to_target send_to_room
  send_to_target-after none m w h = h
  send_to_target-after (some []) m w h = h
  send_to_target-after (some (c ∷ id)) m w h =
      send_to_each-after (sessions_of (get_sessions_in_room (c ∷ id) w.rooms) w) m w h

  send-after : (s : FixService) (m : Message) (w : World) → I w → I (send m s w).2
  unfolding send
  send-after s m w h = send_to_target-after s.target_id m w h

  module _ {server : Server} (tame : IsTameServer server) where
    Step-after : {w u : World} → Step server w u → I w → I u
    unfolding join_room leave_room
    Step-after (started w x) h = (start-Keeps opened x).after w h
    Step-after (connected w k address) h = accept-after opened k address w h
    Step-after (received w k raw) h =
        (receive_data-Keeps opened server.app server.config server.metadata tame.app tame.auth k
            raw).after
          w h
    Step-after (failed w k) h = (handle_data_error-Keeps opened k).after w h
    Step-after (closed w k) h =
        (close-Keeps opened server.app server.config server.metadata tame.app k).after w h
    Step-after (stopped w) h =
        (stop-Keeps opened server.app server.config server.metadata tame.app).after w h
    Step-after (sent_to_room w s m) h = send-after s m w h
    Step-after (created w c k) h = (create_session-Keeps opened server.app c k).after w h
    Step-after (registered w r p) h =
        ((register_session-Keeps opened server.app tame.app r (w.objects r).session_id).after w
          (h, record { named = refl; made = p })).0
    Step-after (removed w id) h = opened.stable.remove id w h
    Step-after (logged_out_all w) h = (close_all-Keeps opened server.app tame.app).after w h
    Step-after (built w c k) h = opened.create c k w h
    Step-after (logged_on w r) h = (logon-Keeps opened.stable r).after w h
    Step-after (logged_out w r v) h =
        (logout-Keeps opened.stable server.app (tame.app I opened.stable) r v).after w h
    Step-after (handled w r m) h =
        (handle_message-Keeps opened.stable server.app (tame.app I opened.stable) r m).after w h
    Step-after (sent w r m) h = (send_message-Keeps opened.stable r m).after w h
    Step-after (lost w r) h =
        (handle_disconnect-Keeps opened.stable server.app (tame.app I opened.stable) r).after w h
    Step-after (beaten w r) h = (heartbeat_tick-Keeps opened.stable r).after w h
    Step-after (joined w r room) h = opened.stable.entered room _ w h
    Step-after (left w r room) h = opened.stable.exited room _ w h
    Step-after (handlers_changed w r f) h =
        opened.stable.put r _ w
          (record { id = refl; socket = refl; seq = omega arith; state = λ e. e }) h
    Step-after (socket_changed w k s) h = opened.stable.socket k s w h
    Step-after (time_passed w now date) h = opened.clock now date w h

    pub Reach-after : {w u : World} → Reach server w u → I w → I u
    Reach-after here h = h
    Reach-after (next reach step) h = Step-after step (Reach-after reach h)

-- If the application's functions do to the world only what the methods of sessions do, then from a
-- world in which every id of the registry leads to a session that was made and has this id, the
-- number of registered sessions is within the limit, the two maps of the rooms are consistent and no
-- session is CONNECTED, the server reaches only such worlds: whatever the peers send, in whatever
-- order connections come and go, and whichever methods are called, whether they return or throw.
pub IsSound-Reach :
    (server : Server) (w u : World) → IsTameServer server → IsSound w → Reach server w u → IsSound u
IsSound-Reach server w u tame h reach = Reach-after IsSound-IsOpen tame reach h

passive-IsTame : (app : App) → IsPassive app → IsTame app
passive-IsTame app p J stable h r m = record { after = λ w j. rw (p.returns h r m w) j }

-- If the functions of the application do nothing to the world, and those of the authentication do only
-- what the methods of sessions do, then in every world that the server reaches from a sound one (as in
-- `IsSound`) in whose registry each id stands once, `cleanupSocketSessions` of a socket takes the
-- sessions of that socket out of the registry, and no other: each other id leads where it led. The
-- registered sessions of the socket are DISCONNECTED with their timers stopped, and no other object
-- of a session is changed.
pub cleanup-Reach :
    (server : Server) (w u : World) (k : ℕ)
    → IsPassive server.app
    → TameAuth server.config.auth
    → IsSound w
    → IsUnique w.registry
    → Reach server w u
    → IsVacated k u (cleanup_socket_sessions server.app server.config server.metadata k u).1
cleanup-Reach server w u k passive auth h once reach =
    let tame : IsTameServer server = record {
      app = passive-IsTame server.app passive;
      auth = auth;
    } in
    cleanup_socket_sessions-IsVacated server.app server.config server.metadata k u passive
      (λ id r e. ((IsSound-Reach server w u tame h reach).known id r e).named)
      (Reach-after HasUniqueIds-IsOpen tame reach once)
