-- ===== src/Examples/Rooms.antt =====
-- The theorems on rooms, at two rooms with two sessions.
use nest_quickfix.Prelude.{List, refl, none, ◌∷◌, if◌then◌else◌, ◌≡◌, [], not, ◌&&◌, ◌==◌}
use nest_quickfix.Text.{Text, text, text_Eq}
use nest_quickfix.OrderedMap
use nest_quickfix.World.{World}
use nest_quickfix.Session.Registry.{remove_session}
use nest_quickfix.Manager.Removal.{remove_session_lem}
use nest_quickfix.Examples.Sessions.{quiet}
use nest_quickfix.Rooms.{RoomManager, empty, join, is_in_room}
use nest_quickfix.Rooms.Consistency.{IsConsistent, empty-IsConsistent, join-IsConsistent}
use nest_quickfix.Rooms.Refinement.{
  Call, joining, leaving, leaving_all, perform_all, relate_all, nobody, Answers,
  Answers-perform_all,
}

abbrev orders : Text
orders = text "orders"

abbrev quotes : Text
quotes = text "quotes"

abbrev alice : Text
alice = text "SERVER->ALICE"

abbrev bob : Text
bob = text "SERVER->BOB"

abbrev busy : RoomManager
busy = join quotes alice (join orders bob (join orders alice empty))

busy-IsConsistent : IsConsistent busy
busy-IsConsistent =
    join-IsConsistent quotes alice
      (join-IsConsistent orders bob (join-IsConsistent orders alice empty-IsConsistent))

abbrev calls : List Call
calls =
    joining orders alice
    ∷ joining orders bob
    ∷ leaving orders bob
    ∷ joining quotes alice
    ∷ leaving_all bob
    ∷ []

Answers-perform_all_example :
    Answers orders alice (relate_all calls nobody orders alice) (perform_all calls empty)
Answers-perform_all_example = Answers-perform_all calls orders alice

-- A world in which the session of `alice` is registered.
abbrev joined : World
joined = record quiet { rooms = busy; registry = (alice, 0) ∷ [] }

remove_session_lem_example :
    (OrderedMap.get (remove_session alice joined).registry bob
      ≡ (if alice == bob then none else OrderedMap.get joined.registry bob))
    × (is_in_room orders bob (remove_session alice joined).rooms
        ≡ (not (alice == bob) && is_in_room orders bob joined.rooms))
    × IsConsistent (remove_session alice joined).rooms
unfolding OrderedMap.get
remove_session_lem_example = remove_session_lem alice bob orders 0 joined busy-IsConsistent refl
