-- ===== src/Rooms/Refinement.antt =====
-- What the room manager promises its clients, whatever they call: it answers every query as one
-- relation of rooms and sessions does.
use nest_quickfix.Prelude.{Bool, false, not, ◌&&◌, ◌||◌, ◌≡◌, refl, sym, ◌∙◌, List, [], ◌∷◌, ◌==◌}
use nest_quickfix.Text.{Text, text_Eq}
use nest_quickfix.OrderedSet.{contains, IsDistinct}
use nest_quickfix.Rooms.{
  RoomManager, empty, join, leave, leave_all_rooms, is_in_room, get_sessions_in_room,
  get_session_rooms,
}
use nest_quickfix.Rooms.Laws.{is_in_room-join, is_in_room-leave, is_in_room_lem}
use nest_quickfix.Rooms.Consistency.{
  IsConsistent, empty-IsConsistent, join-IsConsistent, leave-IsConsistent,
  leave_all_rooms-IsConsistent, is_in_room-leave_all_rooms, queries_agree,
}

-- A call that changes the rooms.
pub data Call : Type 0 where
  joining : (room session : Text) → Call
  leaving : (room session : Text) → Call
  leaving_all : (session : Text) → Call

-- The class carries a call out.
unfoldable pub perform : Call → RoomManager → RoomManager
perform (joining r s) m = join r s m
perform (leaving r s) m = leave r s m
perform (leaving_all s) m = leave_all_rooms s m

-- The relation after a call: which sessions are in which rooms.
unfoldable pub relate : Call → (Text → Text → Bool) → Text → Text → Bool
relate (joining r s) has q t = r == q && s == t || has q t
relate (leaving r s) has q t = not (r == q && s == t) && has q t
relate (leaving_all s) has q t = not (s == t) && has q t

-- The calls of a run, the first one first.
unfoldable pub perform_all : List Call → RoomManager → RoomManager
unfolding perform
perform_all [] m = m
perform_all (c ∷ cs) m = perform_all cs (perform c m)

unfoldable pub relate_all : List Call → (Text → Text → Bool) → Text → Text → Bool
unfolding relate
relate_all [] has = has
relate_all (c ∷ cs) has = relate_all cs (relate c has)

-- A room manager that stands for a relation.
pub record IsFor (has : Text → Text → Bool) (m : RoomManager) : Type 0 where
  pub consistent : IsConsistent m
  pub same : (q t : Text) → is_in_room q t m ≡ has q t

perform-IsFor :
    (c : Call) (has : Text → Text → Bool) (m : RoomManager)
    → IsFor has m
    → IsFor (relate c has) (perform c m)
unfolding perform relate
perform-IsFor (joining r s) has m f = record {
  consistent = join-IsConsistent r s {m = m} f.consistent;
  same = λ q t. rw (is_in_room-join r s q t m, f.same q t) refl;
}
perform-IsFor (leaving r s) has m f = record {
  consistent = leave-IsConsistent r s {m = m} f.consistent;
  same = λ q t. rw (is_in_room-leave r s q t m, f.same q t) refl;
}
perform-IsFor (leaving_all s) has m f = record {
  consistent = leave_all_rooms-IsConsistent s {m = m} f.consistent;
  same = λ q t. rw (is_in_room-leave_all_rooms s q t m f.consistent, f.same q t) refl;
}

perform_all-IsFor :
    (cs : List Call) (has : Text → Text → Bool) (m : RoomManager)
    → IsFor has m
    → IsFor (relate_all cs has) (perform_all cs m)
unfolding perform_all relate_all
perform_all-IsFor [] has m f = f
perform_all-IsFor (c ∷ cs) has m f =
    perform_all-IsFor cs (relate c has) (perform c m) (perform-IsFor c has m f)

abbrev pub nobody : Text → Text → Bool
nobody r s = false

empty-IsFor : IsFor nobody empty
unfolding is_in_room nest_quickfix.OrderedMap.get
empty-IsFor = record { consistent = empty-IsConsistent; same = λ q t. refl }

-- How the room manager answers its three queries, of one room and one session.
abbrev pub Answers : Text → Text → Bool → RoomManager → Type 0
Answers r s b m =
    (is_in_room r s m ≡ b)
    × (contains (get_sessions_in_room r m) s ≡ b)
    × (contains (get_session_rooms s m) r ≡ b)
    × IsDistinct (get_sessions_in_room r m)
    × IsDistinct (get_session_rooms s m)

-- After any sequence of calls of `join`, `leave` and `leaveAllRooms` on a new room manager, its three
-- queries answer as the relation that these calls build from the empty one, of any room and any
-- session, and its lists are without repetition.
pub Answers-perform_all :
    (cs : List Call) (r s : Text) → Answers r s (relate_all cs nobody r s) (perform_all cs empty)
unfolding get_sessions_in_room
Answers-perform_all cs r s =
    let f = perform_all-IsFor cs nobody empty empty-IsFor in
    let (agree, rooms, sessions) = queries_agree r s (perform_all cs empty) f.consistent in
    let listed = sym (is_in_room_lem r s (perform_all cs empty)) ∙ f.same r s in
    (f.same r s, listed, sym agree ∙ listed, rooms, sessions)
