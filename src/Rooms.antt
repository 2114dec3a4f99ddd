-- ===== src/Rooms.antt =====
-- src/services/room.manager.ts: rooms of sessions, kept in two maps that mirror each other.
pub mod Links
pub mod Laws
pub mod Consistency
pub mod Refinement
use nest_quickfix.Prelude.{Bool, true, false, List, [], ◌∷◌, Option, none, some, if◌then◌else◌}
use nest_quickfix.Text.{Text, text_Eq}
use nest_quickfix.OrderedMap
use nest_quickfix.OrderedSet
use Links.{Index, members, initialize, insert, discard}

-- `class RoomManager`: the sessions of each room, and the rooms of each session.
pub record RoomManager : Type 0 where
  pub rooms : Index
  pub session_rooms : Index

abbrev pub empty : RoomManager
empty = record { rooms = []; session_rooms = [] }

initialize_room_if_needed : Text → RoomManager → RoomManager
unfolding initialize
initialize_room_if_needed room_id m = record m { rooms = initialize m.rooms room_id }

initialize_session_rooms_if_needed : Text → RoomManager → RoomManager
unfolding initialize
initialize_session_rooms_if_needed session_id m = record m {
  session_rooms = initialize m.session_rooms session_id;
}

unfoldable pub join : Text → Text → RoomManager → RoomManager
unfolding initialize_room_if_needed initialize_session_rooms_if_needed insert
join room_id session_id m =
    let m' = initialize_session_rooms_if_needed session_id (initialize_room_if_needed room_id m) in
    record {
      rooms = insert m'.rooms room_id session_id;
      session_rooms = insert m'.session_rooms session_id room_id;
    }

remove_from_room : Text → Text → RoomManager → RoomManager
unfolding discard
remove_from_room room_id session_id m = record m { rooms = discard m.rooms room_id session_id }

remove_room_from_session : Text → Text → RoomManager → RoomManager
unfolding discard
remove_room_from_session room_id session_id m = record m {
  session_rooms = discard m.session_rooms session_id room_id;
}

unfoldable pub leave : Text → Text → RoomManager → RoomManager
unfolding remove_from_room remove_room_from_session
leave room_id session_id m =
    remove_room_from_session room_id session_id (remove_from_room room_id session_id m)

-- `rooms.forEach((roomId) => this.leave(roomId, sessionId))`. Each call deletes the element at hand
-- from the set that is walked, which leaves the others to be visited in their order.
unfoldable pub leave_each : List Text → Text → RoomManager → RoomManager
leave_each [] session_id m = m
leave_each (room_id ∷ rest) session_id m = leave_each rest session_id (leave room_id session_id m)

leave_found : Option (List Text) → Text → RoomManager → RoomManager
leave_found none session_id m = m
leave_found (some rooms) session_id m = leave_each rooms session_id m

unfoldable pub leave_all_rooms : Text → RoomManager → RoomManager
unfolding leave_found
leave_all_rooms session_id m = leave_found (OrderedMap.get m.session_rooms session_id) session_id m

unfoldable pub get_sessions_in_room : Text → RoomManager → List Text
get_sessions_in_room room_id m = members m.rooms room_id

unfoldable pub get_session_rooms : Text → RoomManager → List Text
get_session_rooms session_id m = members m.session_rooms session_id

-- `this.rooms.get(roomId)?.has(sessionId) || false`
unfoldable pub is_in_room : Text → Text → RoomManager → Bool
is_in_room room_id session_id m = elim (OrderedMap.get m.rooms room_id) [
  | none ↦ false
  | some sessions ↦ OrderedSet.contains sessions session_id
]
