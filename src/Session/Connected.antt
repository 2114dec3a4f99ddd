-- ===== src/Session/Connected.antt =====
-- The state CONNECTED, which `logon` asks for, is set by no method.
use nest_quickfix.Prelude.{ℕ, ◌≢◌, false, ◌≡◌, Option, arith}
use nest_quickfix.Message.{Message}
use nest_quickfix.World.{World, SessionConfig, SessionState, Handler}
use nest_quickfix.World.Exec.Keeps.{Keeps}
use nest_quickfix.Session.{App, new_session}
use nest_quickfix.Session.Registry.{remove_session, remove_found}
use nest_quickfix.Session.Stable.{IsStable, is_connected}

-- No session object is in the state CONNECTED.
pub record NoneConnected (w : World) : Type 0 where
  pub at : (r : ℕ) → (w.objects r).state ≢ SessionState.connected

-- The application's functions do not put a session into CONNECTED; the state is private to the
-- session, so they could only do so through its methods.
pub record IsHarmless (app : App) : Type 0 where
  pub keeps : (h : Handler) (r : ℕ) (m : Option Message) → Keeps NoneConnected (app.call h r m)

is_connected-NoneConnected :
    (w : World) → NoneConnected w → (r : ℕ) → is_connected (w.objects r).state ≡ false
is_connected-NoneConnected w h r = ground (arith, h.at r)

pub NoneConnected-IsStable : IsStable NoneConnected
unfolding remove_session remove_found
NoneConnected-IsStable = record {
  put = λ r s w p h. record {
    at = λ q. ground (arith, h.at q, p.state (is_connected-NoneConnected w h r));
  };
  socket = λ k s w h. record { at = h.at };
  log = λ e w h. record { at = h.at };
  remove = λ id w h. record { at = λ q. ground (arith, h.at q) };
  entered = λ room id w h. record { at = h.at };
  exited = λ room id w h. record { at = h.at };
}

pub new_session-Keeps :
    (config : SessionConfig) (socket : ℕ) → Keeps NoneConnected (new_session config socket)
unfolding new_session
new_session-Keeps config socket = record {
  after = λ w h. record { at = λ q. ground (arith, h.at q) };
}
