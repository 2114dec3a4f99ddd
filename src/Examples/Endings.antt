-- ===== src/Examples/Endings.antt =====
-- The theorems on logouts, at a session that is logged on and in a room.
use nest_quickfix.Prelude.{◌≡◌, [], ◌∷◌}
use nest_quickfix.Text.{text}
use nest_quickfix.Result.{ok}
use nest_quickfix.Message.{undefined}
use nest_quickfix.World.{World, SessionState}
use nest_quickfix.Session.{initial_session, logout, handle_logout}
use nest_quickfix.Session.Ending.{ended_session}
use nest_quickfix.Session.LoggedOut.{IsLoggedOut, handle_logout-IsLoggedOut}
use nest_quickfix.Session.LoggingOut.{left_session, logout-IsLoggedOut}
use nest_quickfix.Rooms.Consistency.{IsConsistent, empty-IsConsistent, join-IsConsistent}
use nest_quickfix.Rooms.{join, empty}
use nest_quickfix.Examples.{beat}
use nest_quickfix.Examples.Sessions.{quiet, config, idle, idle-IsPassive}

abbrev busy : World
busy = record quiet {
  objects = λ r. record (initial_session config 0) { state = SessionState.logged_on };
  registry = (text "SERVER->CLIENT", 0) ∷ [];
  rooms = join (text "desk") (text "SERVER->CLIENT") empty;
}

busy-IsConsistent : IsConsistent busy.rooms
busy-IsConsistent = join-IsConsistent (text "desk") (text "SERVER->CLIENT") empty-IsConsistent

handle_logout-IsLoggedOut_example :
    ((handle_logout idle 0 beat busy).0 ≡ ok tt)
    × IsLoggedOut 0 (ended_session (busy.objects 0)) busy (handle_logout idle 0 beat busy).1
handle_logout-IsLoggedOut_example =
    handle_logout-IsLoggedOut idle 0 beat busy idle-IsPassive busy-IsConsistent

logout-IsLoggedOut_example :
    ((logout idle 0 undefined busy).0 ≡ ok tt)
    × IsLoggedOut 0 (left_session (busy.objects 0)) busy (logout idle 0 undefined busy).1
logout-IsLoggedOut_example =
    logout-IsLoggedOut idle 0 undefined busy idle-IsPassive (λ e. cc) busy-IsConsistent
