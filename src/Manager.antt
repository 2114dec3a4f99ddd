-- ===== src/Manager.antt =====
-- src/session/session.manager.ts: `class SessionManager`. Its map is the registry of the world, from
-- session ids to references of sessions; the limit 0 stands for none.
pub mod Bound
pub mod Removal
use nest_quickfix.Prelude.{
  ℕ, Bool, true, false, not, ◌&&◌, Option, none, some, List, [], ◌∷◌, ◌++◌, leb, nat_eq,
  if◌then◌else◌,
}
use nest_quickfix.Text.{Text, text, text_Eq}
use nest_quickfix.Text.Decimal.{to_decimal}
use nest_quickfix.OrderedMap
use nest_quickfix.Result.{Result, ok, err, Error, error}
use nest_quickfix.Fields.{sender_comp_id, target_comp_id}
use nest_quickfix.Message.{Message, Value, string, undefined, value_text, get_field}
use nest_quickfix.World.{World, SessionConfig}
use nest_quickfix.World.Exec.{Exec, pure, throw, catch, gets, modify, ◌>>=◌, ◌>>◌}
use nest_quickfix.Session.{App, new_session, session_id_of, logout}

-- `this.maxSessions && this.sessions.size >= this.maxSessions`
abbrev pub is_full : World → Bool
is_full w = not (nat_eq w.max_sessions 0) && leb w.max_sessions (OrderedMap.size w.registry)

unfoldable pub register : Text → ℕ → World → World
register id ref w = record w { registry = OrderedMap.set w.registry id ref }

-- `createSession(config, socket)`
unfoldable pub create_session : SessionConfig → ℕ → Exec World ℕ
create_session config socket = do
  full ← gets is_full
  if full then throw (error (text "Maximum number of sessions reached")) else do
    ref ← new_session config socket
    modify (register (session_id_of config) ref)
    pure ref

-- `getSessionById(sessionId)`, less its warning
unfoldable pub get_session_by_id : Text → World → Option ℕ
get_session_by_id id w = OrderedMap.get w.registry id

-- `getSession(senderCompId, targetCompId)`
unfoldable pub get_session : Text → Text → World → Option ℕ
get_session sender target w = OrderedMap.get w.registry (sender ++ (text "->" ++ target))

-- `getSessionFromLogon(logon)`
unfoldable pub get_session_from_logon : Message → World → Option ℕ
unfolding get_session
get_session_from_logon m w =
    get_session (value_text (get_field m sender_comp_id)) (value_text (get_field m target_comp_id))
      w

unfoldable pub get_session_count : World → ℕ
get_session_count w = OrderedMap.size w.registry

unfoldable pub get_all_sessions : World → List ℕ
get_all_sessions w = OrderedMap.values w.registry

abbrev pub duplicate_reason : Value
duplicate_reason = string (text "Duplicate session detected - logging out existing session")

abbrev pub limit_message : World → Text
limit_message w =
    text "Maximum number of sessions (" ++ (to_decimal w.max_sessions ++ text ") reached")

module _ (app : App) where
  unfoldable pub log_out_old : Option ℕ → Exec World (Unit {0})
  log_out_old none = pure tt
  log_out_old (some old) = catch (logout app old duplicate_reason) (λ e. pure tt)

  -- `registerSession(session)` from the test of the limit on
  unfoldable pub admit : Text → ℕ → Exec World (Unit {0})
  admit id ref = do
    full ← gets is_full
    limit ← gets limit_message
    if full then throw (error limit) else modify (register id ref)

  -- `registerSession(session)`
  unfoldable pub register_session : ℕ → Exec World (Unit {0})
  unfolding log_out_old admit
  register_session ref = do
    id ← gets (λ w. (w.objects ref).session_id)
    old ← gets (λ w. OrderedMap.get w.registry id)
    log_out_old old
    admit id ref

  -- `Promise.all` over the logouts: each is run, and the first error is kept.
  unfoldable pub log_out_each : List ℕ → World → Option Error × World
  log_out_each [] w = (none, w)
  log_out_each (ref ∷ refs) w =
      let (r, u) = logout app ref undefined w in
      let (e, v) = log_out_each refs u in (elim r [ ok x ↦ e | err x ↦ some x ], v)

  unfoldable pub finish : Option Error × World → Result (Unit {0}) × World
  finish (none, w) = (ok tt, record w { registry = [] })
  finish (some e, w) = (err e, w)

  -- `closeAll()`: the map is cleared only if no logout failed.
  unfoldable pub close_all : Exec World (Unit {0})
  unfolding log_out_each finish get_all_sessions
  close_all w = finish (log_out_each (get_all_sessions w) w)
