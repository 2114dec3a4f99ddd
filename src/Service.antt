-- ===== src/Service.antt =====
-- src/services/fix.service.ts, `class FixService`: a message to all sessions of a room. The sends
-- that `Promise.all` starts together run one after the other here.
pub mod Reach
use nest_quickfix.Prelude.{Option, none, some, List, [], ◌∷◌, ℕ}
use nest_quickfix.Text.{Text, text}
use nest_quickfix.Result.{Result, ok, err, error}
use nest_quickfix.Fields.{target_comp_id}
use nest_quickfix.Message.{Message, string, set_field, clone}
use nest_quickfix.Rooms.{get_sessions_in_room}
use nest_quickfix.World.{World}
use nest_quickfix.Session.Sending.{send_message}
use nest_quickfix.Manager.{get_session_by_id}

pub record FixService : Type 0 where
  pub target_id : Option Text

-- `to(targetId)`
unfoldable pub to : Text → FixService → FixService
to id s = record { target_id = some id }

-- The copy that a session is given.
unfoldable pub addressed_to : ℕ → Message → World → Message
addressed_to ref m w =
    set_field (clone m) target_comp_id (string (w.objects ref).config.target_comp_id)

abbrev no_target : Option Text → World → Result (Unit {0}) × FixService × World
no_target id w = (
  err (error (text "Target ID must be specified using to() method")),
  record { target_id = id },
  w,
)

-- `sessionIds.map((id) => this.sessionManager.getSessionById(id)).filter(Boolean)`
unfoldable pub found : Option ℕ → List ℕ → List ℕ
found none refs = refs
found (some ref) refs = ref ∷ refs

unfoldable pub sessions_of : List Text → World → List ℕ
unfolding found
sessions_of [] w = []
sessions_of (id ∷ ids) w = found (get_session_by_id id w) (sessions_of ids w)

-- The sends, of which a rejection is caught and logged.
unfoldable pub send_to_each : List ℕ → Message → World → World
unfolding addressed_to
send_to_each [] m w = w
send_to_each (ref ∷ refs) m w = send_to_each refs m (send_message ref (addressed_to ref m w) w).1

unfoldable pub send_to_room : Text → Message → World → World
unfolding send_to_each sessions_of
send_to_room id m w = send_to_each (sessions_of (get_sessions_in_room id w.rooms) w) m w

unfoldable pub send_to_target :
    Option Text → Message → World → Result (Unit {0}) × FixService × World
unfolding send_to_room
send_to_target none m w = no_target none w
send_to_target (some []) m w = no_target (some []) w
send_to_target (some (c ∷ id)) m w = (ok tt, record { target_id = none }, send_to_room (c ∷ id) m w)

-- `send(message)`: a room that is empty or unknown is no error.
unfoldable pub send : Message → FixService → World → Result (Unit {0}) × FixService × World
unfolding send_to_target
send m s w = send_to_target s.target_id m w
