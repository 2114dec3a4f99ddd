-- ===== src/Session/Lifecycle.antt =====
-- The life of sessions as steps: the methods in any order, and what the environment does between.
use nest_quickfix.Prelude.{ℕ, ◌≡◌, arith}
use nest_quickfix.Text.{text}
use nest_quickfix.Result.{err, error}
use nest_quickfix.Message.{Message, Value}
use nest_quickfix.World.{World, SessionConfig}
use nest_quickfix.World.Exec.{◌>>=◌}
use nest_quickfix.Session.{
  App, new_session, logon, logout, handle_disconnect, handle_message, heartbeat_tick,
}
use nest_quickfix.Session.Sending.{send_message}
use nest_quickfix.Session.Stable.{
  send_message-Keeps, logon-Keeps, handle_disconnect-Keeps, logout-Keeps, handle_message-Keeps,
  heartbeat_tick-Keeps,
}
use nest_quickfix.Session.Connected.{
  NoneConnected, IsHarmless, NoneConnected-IsStable, new_session-Keeps,
}

pub data Step (app : App) : World → World → Type 0 where
  create :
      (w : World) (config : SessionConfig) (socket : ℕ) → Step app w (new_session config socket w).1
  log_on : (w : World) (r : ℕ) → Step app w (logon r w).1
  log_out : (w : World) (r : ℕ) (reason : Value) → Step app w (logout app r reason w).1
  receive : (w : World) (r : ℕ) (m : Message) → Step app w (handle_message app r m w).1
  send : (w : World) (r : ℕ) (m : Message) → Step app w (send_message r m w).1
  lose : (w : World) (r : ℕ) → Step app w (handle_disconnect app r w).1
  tick : (w : World) (r : ℕ) → Step app w (heartbeat_tick r w).1
  -- The clock, the sockets and all else that is no session object may change.
  environment : (w u : World) → u.objects ≡ w.objects → Step app w u

pub data Reach (app : App) (w : World) : World → Type 0 where
  here : Reach app w w
  next : {u v : World} → Reach app w u → Step app u v → Reach app w v

Step-NoneConnected :
    {app : App} {w u : World} → IsHarmless app → Step app w u → NoneConnected w → NoneConnected u
Step-NoneConnected harmless (create w config socket) h = (new_session-Keeps config socket).after w h
Step-NoneConnected harmless (log_on w r) h = (logon-Keeps NoneConnected-IsStable r).after w h
Step-NoneConnected {app} harmless (log_out w r reason) h =
    (logout-Keeps NoneConnected-IsStable app harmless.keeps r reason).after w h
Step-NoneConnected {app} harmless (receive w r m) h =
    (handle_message-Keeps NoneConnected-IsStable app harmless.keeps r m).after w h
Step-NoneConnected harmless (send w r m) h =
    (send_message-Keeps NoneConnected-IsStable r m).after w h
Step-NoneConnected {app} harmless (lose w r) h =
    (handle_disconnect-Keeps NoneConnected-IsStable app harmless.keeps r).after w h
Step-NoneConnected harmless (tick w r) h = (heartbeat_tick-Keeps NoneConnected-IsStable r).after w h
Step-NoneConnected harmless (environment w u e) h = record { at = λ q. rw e (h.at q) }

Reach-NoneConnected :
    {app : App} {w u : World} → IsHarmless app → Reach app w u → NoneConnected w → NoneConnected u
Reach-NoneConnected harmless here h = h
Reach-NoneConnected harmless (next r s) h =
    Step-NoneConnected harmless s (Reach-NoneConnected harmless r h)

pub logon_refused :
    (r : ℕ) (w : World)
    → NoneConnected w
    → logon r w ≡ (err (error (text "Session must be in CONNECTED state to logon")), w)
unfolding logon ◌>>=◌
logon_refused r w h = ground (arith, h.at r)

-- From a world where no session is CONNECTED, and with an application that puts none into that
-- state, whatever steps are taken, `logon` throws for every session and changes nothing.
pub logon-Reach :
    (app : App) (w u : World) (r : ℕ)
    → IsHarmless app
    → NoneConnected w
    → Reach app w u
    → logon r u ≡ (err (error (text "Session must be in CONNECTED state to logon")), u)
logon-Reach app w u r harmless h reach = logon_refused r u (Reach-NoneConnected harmless reach h)
