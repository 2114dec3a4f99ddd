-- ===== src/Session/Registry.antt =====
-- src/session/session.manager.ts: the part of the registry that a session uses.
use nest_quickfix.Prelude.{ℕ, Option, none, some}
use nest_quickfix.Text.{Text, text_Eq}
use nest_quickfix.OrderedMap
use nest_quickfix.Rooms.{leave_all_rooms}
use nest_quickfix.World.{World}

unfoldable pub remove_found : Option ℕ → Text → World → World
remove_found none session_id w = w
remove_found (some ref) session_id w = record w {
  rooms = leave_all_rooms session_id w.rooms;
  registry = OrderedMap.delete w.registry session_id;
}

-- `removeSession(sessionId)`
unfoldable pub remove_session : Text → World → World
unfolding remove_found
remove_session session_id w = remove_found (OrderedMap.get w.registry session_id) session_id w
