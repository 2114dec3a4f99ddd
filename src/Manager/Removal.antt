-- ===== src/Manager/Removal.antt =====
-- What `removeSession` leaves of a session.
use nest_quickfix.Prelude.{ℕ, ◌≡◌, not, ◌&&◌, none, some, ◌==◌, if◌then◌else◌}
use nest_quickfix.Text.{Text, text_Eq}
use nest_quickfix.OrderedMap
use nest_quickfix.OrderedMap.Laws.{get-delete}
use nest_quickfix.Rooms.{is_in_room}
use nest_quickfix.Rooms.Consistency.{
  IsConsistent, is_in_room-leave_all_rooms, leave_all_rooms-IsConsistent,
}
use nest_quickfix.World.{World}
use nest_quickfix.Session.Registry.{remove_session, remove_found}

-- While the rooms are consistent, removing a registered session takes its id, and no other, out of
-- the registry, takes it out of every room, leaves the rooms of all other sessions as they are,
-- and keeps the rooms consistent.
pub remove_session_lem :
    (id other room : Text) (r : ℕ) (w : World)
    → IsConsistent w.rooms
    → OrderedMap.get w.registry id ≡ some r
    → (OrderedMap.get (remove_session id w).registry other
        ≡ (if id == other then none else OrderedMap.get w.registry other))
      × (is_in_room room other (remove_session id w).rooms
          ≡ (not (id == other) && is_in_room room other w.rooms))
      × IsConsistent (remove_session id w).rooms
unfolding remove_session remove_found
remove_session_lem id other room r w c found = rw found (
  get-delete w.registry id other,
  is_in_room-leave_all_rooms id room other w.rooms c,
  leave_all_rooms-IsConsistent id c,
)
