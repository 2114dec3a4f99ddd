-- ===== src/Session/Ending.antt =====
-- The end of a session, for an application whose functions do nothing to the world.
use nest_quickfix.Prelude.{ℕ, ◌≡◌, refl, ap, ◌∙◌, false, Option, List, [], ◌∷◌, ◌++◌}
use nest_quickfix.Result.{ok}
use nest_quickfix.Message.{Message}
use nest_quickfix.World.{World, SessionState, SessionEvent, Handler, emitted, Session}
use nest_quickfix.World.Exec.{◌>>=◌}
use nest_quickfix.World.Store.{update, update-same, set_state, note}
use nest_quickfix.Session.{App, call_each, handle_disconnect, clear_timers, remove_all_listeners}

-- Every function of the application returns, and leaves the world as it is.
pub record IsPassive (app : App) : Type 0 where
  pub returns :
      (h : Handler) (r : ℕ) (m : Option Message) (w : World) → app.call h r m w ≡ (ok tt, w)

pub call_each_passive :
    (app : App) (hs : List Handler) (r : ℕ) (m : Option Message) (w : World)
    → IsPassive app
    → call_each app hs r m w ≡ (ok tt, w)
unfolding call_each ◌>>=◌
call_each_passive app [] r m w p = refl
call_each_passive app (h ∷ hs) r m w p = rw (p.returns h r m w) (call_each_passive app hs r m w p)

-- The object of a session that was disconnected.
abbrev pub ended_session : Session → Session
ended_session s = record s {
  state = SessionState.disconnected;
  heartbeat_timer = false;
  test_request_timer = false;
}

-- If the application's functions return and leave the world as they find it, `handleDisconnect`
-- returns: its session is DISCONNECTED with both timers stopped and nothing else of it changed, its
-- socket has no listeners, and exactly one event was emitted.
pub handle_disconnect_lem :
    (app : App) (r : ℕ) (w : World)
    → IsPassive app
    → ((handle_disconnect app r w).0 ≡ ok tt)
      × ((handle_disconnect app r w).1.objects r ≡ ended_session (w.objects r))
      × ((handle_disconnect app r w).1.sockets (w.objects r).socket
          ≡ record (w.sockets (w.objects r).socket) { listeners = [] })
      × ((handle_disconnect app r w).1.log ≡ w.log ++ emitted r SessionEvent.disconnect ∷ [])
unfolding handle_disconnect ◌>>=◌ set_state clear_timers remove_all_listeners note
handle_disconnect_lem app r w p = rw (call_each_passive app) (
  refl,
  same,
  ap
        (λ (s : Session).
          update w.sockets s.socket (record (w.sockets s.socket) { listeners = [] })
            (w.objects r).socket)
        same
      ∙ update-same w.sockets (w.objects r).socket _,
  refl,
)
  where
    at_once : Session
    at_once = record (w.objects r) { state = SessionState.disconnected }

    stopped : Session → Session
    stopped s = record s { heartbeat_timer = false; test_request_timer = false }

    same :
        update (update w.objects r at_once) r (stopped (update w.objects r at_once r)) r
        ≡ ended_session (w.objects r)
    same =
        update-same (update w.objects r at_once) r (stopped (update w.objects r at_once r))
        ∙ ap stopped (update-same w.objects r at_once)
