-- ===== src/Examples/Starting.antt =====
-- The theorem on the wiring, at an application of type `acceptor`.
use nest_quickfix.Prelude.{◌≡◌, refl, true, [], ℕ}
use nest_quickfix.Text.{text}
use nest_quickfix.Rooms.{RoomManager, empty}
use nest_quickfix.Wiring.{FixConfig, on_application_bootstrap}
use nest_quickfix.Wiring.Started.{registered_module, started_module, on_application_bootstrap_lem}
use nest_quickfix.Examples.Sessions.{quiet}

abbrev accepting : FixConfig ℕ
accepting = record { app_type = text "acceptor"; settings = 0 }

abbrev plain_rooms : RoomManager
plain_rooms = empty

on_application_bootstrap_lem_example :
    on_application_bootstrap [] (registered_module true accepting 1 tt plain_rooms) quiet
    ≡ (started_module accepting 1 tt plain_rooms, quiet)
unfolding nest_quickfix.Manager.get_all_sessions
on_application_bootstrap_lem_example =
    on_application_bootstrap_lem true accepting 1 tt plain_rooms [] quiet refl
