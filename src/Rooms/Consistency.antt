-- ===== src/Rooms/Consistency.antt =====
-- The invariant of the room manager: the two maps say the same, and hold no empty set.
use nest_quickfix.Prelude.{false, ◌&&◌, not, ◌≡◌, refl, List, [], ◌∷◌, ◌==◌, eq_iff, eq_refl, arith}
use nest_quickfix.Text.{Text, text_Eq}
use nest_quickfix.OrderedSet.{contains, IsDistinct}
use nest_quickfix.Rooms.{
  RoomManager, empty, join, leave, leave_each, leave_all_rooms, is_in_room, get_sessions_in_room,
  get_session_rooms,
}
use nest_quickfix.Rooms.Links.{IsTidy, linked, members, insert-IsTidy, discard-IsTidy}
use nest_quickfix.Rooms.Laws.{
  is_in_room_lem, is_in_room-join, is_in_room-leave, linked-join, linked-leave,
  is_in_room-leave_each, linked-leave_each, leave_all_rooms_lem,
}

pub record IsConsistent (m : RoomManager) : Type 0 where
  pub mirrored : (r s : Text) → is_in_room r s m ≡ linked m.session_rooms s r
  pub rooms_tidy : IsTidy m.rooms
  pub sessions_tidy : IsTidy m.session_rooms

empty-IsTidy : IsTidy []
unfolding nest_quickfix.OrderedMap.get contains
empty-IsTidy = record { filled = λ k. cc; distinct = λ k. tt }

pub empty-IsConsistent : IsConsistent empty
unfolding is_in_room nest_quickfix.OrderedMap.get contains
empty-IsConsistent = record {
  mirrored = λ r s. refl;
  rooms_tidy = empty-IsTidy;
  sessions_tidy = empty-IsTidy;
}

-- `join` keeps the two maps consistent: they say the same, no set in them is empty, and none holds an
-- element twice.
pub join-IsConsistent : (r s : Text) {m : RoomManager} → IsConsistent m → IsConsistent (join r s m)
join-IsConsistent r s {m} c = record {
  mirrored =
      λ q t. ground (arith, is_in_room-join r s q t m, linked-join r s q t m, c.mirrored q t);
  rooms_tidy = unfold join in insert-IsTidy m.rooms r s c.rooms_tidy;
  sessions_tidy = unfold join in insert-IsTidy m.session_rooms s r c.sessions_tidy;
}

-- `leave` keeps the two maps consistent, whether or not the session was in the room.
pub leave-IsConsistent :
    (r s : Text) {m : RoomManager} → IsConsistent m → IsConsistent (leave r s m)
leave-IsConsistent r s {m} c = record {
  mirrored =
      λ q t. ground (arith, is_in_room-leave r s q t m, linked-leave r s q t m, c.mirrored q t);
  rooms_tidy = unfold leave in discard-IsTidy m.rooms r s c.rooms_tidy;
  sessions_tidy = unfold leave in discard-IsTidy m.session_rooms s r c.sessions_tidy;
}

leave_each-IsConsistent :
    (rs : List Text) (s : Text) {m : RoomManager}
    → IsConsistent m
    → IsConsistent (leave_each rs s m)
unfolding leave_each
leave_each-IsConsistent [] s c = c
leave_each-IsConsistent (r ∷ rs) s c = leave_each-IsConsistent rs s (leave-IsConsistent r s c)

-- `leaveAllRooms` keeps the two maps consistent.
pub leave_all_rooms-IsConsistent :
    (s : Text) {m : RoomManager} → IsConsistent m → IsConsistent (leave_all_rooms s m)
leave_all_rooms-IsConsistent s {m} c =
    rw (leave_all_rooms_lem s m) (leave_each-IsConsistent (members m.session_rooms s) s c)

-- If the two maps are consistent, after `leaveAllRooms` the session is in no room, whichever rooms
-- it had joined, and every other session is in the rooms that it was in.
pub is_in_room-leave_all_rooms :
    (s q t : Text) (m : RoomManager)
    → IsConsistent m
    → is_in_room q t (leave_all_rooms s m) ≡ (not (s == t) && is_in_room q t m)
is_in_room-leave_all_rooms s q t m c = rw (leave_all_rooms_lem s m) (
    ground (
      arith,
      is_in_room-leave_each (members m.session_rooms s) s q t m,
      c.mirrored q s,
      eq_iff s t,
    ))

nil_of_contains : (xs : List Text) → ((x : Text) → contains xs x ≡ false) → xs ≡ []
unfolding contains
nil_of_contains [] h = refl
nil_of_contains (x ∷ xs) h = ground (arith, h x, eq_refl x)

-- The second map forgets the session too.
pub get_session_rooms-leave_all_rooms :
    (s : Text) (m : RoomManager) → get_session_rooms s (leave_all_rooms s m) ≡ []
unfolding get_session_rooms
get_session_rooms-leave_all_rooms s m =
    nil_of_contains (members (leave_all_rooms s m).session_rooms s) λ q.
      rw (leave_all_rooms_lem s m)
        (ground (arith, linked-leave_each (members m.session_rooms s) s q s m, eq_refl s))

-- If the two maps are consistent, the two queries agree: a room lists a session exactly when the
-- session lists the room, and both lists are without repetition.
pub queries_agree :
    (r s : Text) (m : RoomManager)
    → IsConsistent m
    → (contains (get_sessions_in_room r m) s ≡ contains (get_session_rooms s m) r)
      × IsDistinct (get_sessions_in_room r m)
      × IsDistinct (get_session_rooms s m)
unfolding get_sessions_in_room get_session_rooms
queries_agree r s m c = (
  ground (arith, is_in_room_lem r s m, c.mirrored r s),
  c.rooms_tidy.distinct r,
  c.sessions_tidy.distinct s,
)
