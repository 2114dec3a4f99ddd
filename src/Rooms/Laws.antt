-- ===== src/Rooms/Laws.antt =====
-- Membership of rooms after each operation.
use nest_quickfix.Prelude.{
  true, false, ◌&&◌, ◌||◌, not, ◌≡◌, refl, List, [], ◌∷◌, ◌==◌, arith, if◌then◌else◌,
}
use nest_quickfix.Text.{Text, text_Eq}
use nest_quickfix.OrderedSet.{contains}
use nest_quickfix.Rooms.{RoomManager, join, leave, leave_each, leave_all_rooms, is_in_room}
use nest_quickfix.Rooms.Links.{linked, members, linked-insert, linked-discard}

pub is_in_room_lem : (r s : Text) (m : RoomManager) → is_in_room r s m ≡ linked m.rooms r s
unfolding is_in_room contains
is_in_room_lem r s m = ground arith

-- After `join` the session is in the room; every other membership is as it was.
pub is_in_room-join :
    (r s q t : Text) (m : RoomManager)
    → is_in_room q t (join r s m) ≡ (r == q && s == t || is_in_room q t m)
unfolding join
is_in_room-join r s q t m =
    ground
      (arith, is_in_room_lem q t (join r s m), is_in_room_lem q t m, linked-insert m.rooms r s q t)

-- After `leave` the session is not in the room; every other membership is as it was.
pub is_in_room-leave :
    (r s q t : Text) (m : RoomManager)
    → is_in_room q t (leave r s m) ≡ (not (r == q && s == t) && is_in_room q t m)
unfolding leave
is_in_room-leave r s q t m =
    ground (
      arith,
      is_in_room_lem q t (leave r s m),
      is_in_room_lem q t m,
      linked-discard m.rooms r s q t,
    )

pub linked-join :
    (r s q t : Text) (m : RoomManager)
    → linked (join r s m).session_rooms t q
      ≡ (if s == t && r == q then true else linked m.session_rooms t q)
unfolding join
linked-join r s q t m = linked-insert m.session_rooms s r t q

pub linked-leave :
    (r s q t : Text) (m : RoomManager)
    → linked (leave r s m).session_rooms t q
      ≡ (if s == t && r == q then false else linked m.session_rooms t q)
unfolding leave
linked-leave r s q t m = linked-discard m.session_rooms s r t q

-- Leaving the rooms of a list, one by one.
pub is_in_room-leave_each :
    (rs : List Text) (s q t : Text) (m : RoomManager)
    → is_in_room q t (leave_each rs s m) ≡ (not (contains rs q && s == t) && is_in_room q t m)
unfolding leave_each contains
is_in_room-leave_each [] s q t m = refl
is_in_room-leave_each (r ∷ rs) s q t m =
    ground (arith, is_in_room-leave_each rs s q t (leave r s m), is_in_room-leave r s q t m)

pub linked-leave_each :
    (rs : List Text) (s q t : Text) (m : RoomManager)
    → linked (leave_each rs s m).session_rooms t q
      ≡ (not (contains rs q && s == t) && linked m.session_rooms t q)
unfolding leave_each contains
linked-leave_each [] s q t m = refl
linked-leave_each (r ∷ rs) s q t m =
    ground (arith, linked-leave_each rs s q t (leave r s m), linked-leave r s q t m)

-- `leaveAllRooms` leaves the rooms that the second map lists.
pub leave_all_rooms_lem :
    (s : Text) (m : RoomManager) → leave_all_rooms s m ≡ leave_each (members m.session_rooms s) s m
unfolding leave_all_rooms leave_each
leave_all_rooms_lem s m = ground arith
