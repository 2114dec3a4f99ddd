-- ===== src/Initiator.antt =====
-- src/initiator/initiator.ts, `class FIXInitiator`: connecting, and connecting again. The socket's
-- `connect` and the timer are the runtime's: what each coming connection gives is part of the state,
-- and `reconnect` is the callback of the timer, which runs once for each time that it was set. The
-- private `handleReconnect`, which nothing calls, is left out.
pub mod Attempts
pub mod Refused
use nest_quickfix.Prelude.{
  ℕ, ◌+◌, Bool, true, false, Option, none, some, List, [], ◌∷◌, ◌++◌, leb, if◌then◌else◌,
}
use nest_quickfix.Result.{Result, ok, err, Error}
use nest_quickfix.Message.{Message, undefined}
use nest_quickfix.World.{World, SessionConfig}
use nest_quickfix.World.Exec.{Exec, pure, throw, catch, gets, modify, ◌>>=◌, ◌>>◌}
use nest_quickfix.Session.{App, new_session, logon, logout}
use nest_quickfix.Session.Sending.{send_message}
use nest_quickfix.Acceptor.Refusal.{destroy}

-- `InitiatorConfig.reconnect`
pub record Reconnect : Type 0 where
  pub enabled : Bool
  pub max_attempts : ℕ

-- `interface InitiatorConfig`: what the session is made of, and the rest
pub record InitiatorConfig : Type 0 where
  pub session : SessionConfig
  pub reconnect : Option Reconnect

-- `enum InitiatorEvents`, as far as the class itself emits them
pub data InitiatorEvent : Type 0 where
  started stopped max_reconnect_attempts : InitiatorEvent
  failed reconnect_failed : Error → InitiatorEvent

-- `class FIXInitiator`, with its world of sessions. `listens` says whether somebody listens to the
-- event `error`: an emitter throws an error that nobody hears. `connections` is what the attempts to
-- connect give, one after the other; beyond its end no attempt fails.
pub record Initiator : Type 0 where
  pub world : World
  pub session : ℕ
  pub socket : ℕ
  pub reconnect_timer : Bool
  pub reconnect_attempts : ℕ
  pub listens : Bool
  pub connections : List (Option Error)
  pub events : List InitiatorEvent

-- The constructor, with `setupSession()`; `socket` is the new socket
unfoldable pub create : InitiatorConfig → Bool → List (Option Error) → ℕ → World → Initiator
create config listens connections socket w = record {
  world = (new_session config.session socket w).1;
  session = w.next_object;
  socket = socket;
  reconnect_timer = false;
  reconnect_attempts = 0;
  listens = listens;
  connections = connections;
  events = [];
}

-- A method of the session or the socket.
abbrev lifted : Result (Unit {0}) × World → Initiator → Result (Unit {0}) × Initiator
lifted (r, w) i = (r, record i { world = w })

abbrev in_world : Exec World (Unit {0}) → Exec Initiator (Unit {0})
in_world m i = lifted (m i.world) i

abbrev pub announce : InitiatorEvent → Exec Initiator (Unit {0})
announce e = modify (λ i. record i { events = i.events ++ e ∷ [] })

-- `this.emit(InitiatorEvents.ERROR, error)`
unfoldable pub emit_error : Error → Exec Initiator (Unit {0})
emit_error e = do listens ← gets (λ i. i.listens); if listens then announce (failed e) else throw e

-- The promise of `connect`, when the socket has emitted `connect` or `error`.
unfoldable pub answer_connect : List (Option Error) → Exec Initiator (Unit {0})
answer_connect [] i = (ok tt, i)
answer_connect (none ∷ rest) i = (ok tt, record i { connections = rest })
answer_connect (some e ∷ rest) i = (err e, record i { connections = rest })

-- `connect()`
unfoldable pub connect : Exec Initiator (Unit {0})
unfolding answer_connect
connect i = answer_connect i.connections i

abbrev is_enabled : Option Reconnect → Bool
is_enabled none = false
is_enabled (some r) = r.enabled

abbrev pub limit : Option Reconnect → ℕ
limit none = 3
limit (some r) = r.max_attempts

module _ (config : InitiatorConfig) where
  -- `scheduleReconnect()`
  unfoldable pub schedule_reconnect : Exec Initiator (Unit {0})
  schedule_reconnect = do
    attempts ← gets (λ i. i.reconnect_attempts)
    if leb (limit config.reconnect) attempts
        then announce max_reconnect_attempts
        else modify (λ i. record i { reconnect_timer = true })

  -- `start()`
  unfoldable pub start : Exec Initiator (Unit {0})
  unfolding emit_error connect schedule_reconnect
  start =
      catch
        (do connect; session ← gets (λ i. i.session); in_world (logon session); announce started)
        (λ e. do emit_error e; if is_enabled config.reconnect then schedule_reconnect else throw e)

  -- The callback of the timer, if it is set.
  unfoldable pub reconnect : Initiator → Initiator
  unfolding start
  reconnect i =
      if i.reconnect_timer
      then (catch start (λ e. announce (reconnect_failed e))
          (record i { reconnect_timer = false; reconnect_attempts = i.reconnect_attempts + 1 })).1
      else i

-- `stop()`
unfoldable pub stop : App → Exec Initiator (Unit {0})
stop app = do
  modify (λ i. record i { reconnect_timer = false })
  session ← gets (λ i. i.session)
  in_world (logout app session undefined)
  socket ← gets (λ i. i.socket)
  in_world (destroy socket)
  announce stopped

-- `sendMessage(message)`; the session is there from the constructor on
unfoldable pub send_message_over : Message → Exec Initiator (Unit {0})
send_message_over m = do session ← gets (λ i. i.session); in_world (send_message session m)
