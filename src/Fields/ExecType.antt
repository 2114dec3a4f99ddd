-- ===== src/Fields/ExecType.antt =====
-- src/fields/ExecType.ts: the types of execution reports.
use nest_quickfix.Prelude.{◌≡◌, refl, Option, none, some, List, [], ◌∷◌, ◌==◌, if◌then◌else◌}
use nest_quickfix.Text.{Text, text, text_Eq}

pub data ExecType : Type 0 where
  new done_for_day canceled replaced pending_cancel stopped rejected suspended pending_new :
      ExecType
  calculated expired restated pending_replace trade trade_correct trade_cancel order_status :
      ExecType
  trade_in_a_clearing_hold trade_has_been_released_to_clearing : ExecType
  triggered_or_activated_by_system locked released : ExecType

-- The value of the member, as it stands on the wire.
abbrev pub wire : ExecType → Text
wire new = text "0"
wire done_for_day = text "3"
wire canceled = text "4"
wire replaced = text "5"
wire pending_cancel = text "6"
wire stopped = text "7"
wire rejected = text "8"
wire suspended = text "9"
wire pending_new = text "A"
wire calculated = text "B"
wire expired = text "C"
wire restated = text "D"
wire pending_replace = text "E"
wire trade = text "F"
wire trade_correct = text "G"
wire trade_cancel = text "H"
wire order_status = text "I"
wire trade_in_a_clearing_hold = text "J"
wire trade_has_been_released_to_clearing = text "K"
wire triggered_or_activated_by_system = text "L"
wire locked = text "M"
wire released = text "N"

-- All members, in the order of the source.
members : List ExecType
members =
    new ∷ done_for_day ∷ canceled ∷ replaced ∷ pending_cancel ∷ stopped ∷ rejected ∷ suspended
    ∷ pending_new ∷ calculated ∷ expired ∷ restated ∷ pending_replace ∷ trade ∷ trade_correct
    ∷ trade_cancel ∷ order_status ∷ trade_in_a_clearing_hold ∷ trade_has_been_released_to_clearing
    ∷ triggered_or_activated_by_system ∷ locked ∷ released ∷ []

find : List ExecType → Text → Option ExecType
find [] t = none
find (m ∷ ms) t = if wire m == t then some m else find ms t

-- The member that a value on the wire stands for.
pub of_wire : Text → Option ExecType
unfolding members find
of_wire t = find members t

-- No two members share a value: each is found again from its text.
pub of_wire-wire : (m : ExecType) → of_wire (wire m) ≡ some m
unfolding of_wire
of_wire-wire new = refl
of_wire-wire done_for_day = refl
of_wire-wire canceled = refl
of_wire-wire replaced = refl
of_wire-wire pending_cancel = refl
of_wire-wire stopped = refl
of_wire-wire rejected = refl
of_wire-wire suspended = refl
of_wire-wire pending_new = refl
of_wire-wire calculated = refl
of_wire-wire expired = refl
of_wire-wire restated = refl
of_wire-wire pending_replace = refl
of_wire-wire trade = refl
of_wire-wire trade_correct = refl
of_wire-wire trade_cancel = refl
of_wire-wire order_status = refl
of_wire-wire trade_in_a_clearing_hold = refl
of_wire-wire trade_has_been_released_to_clearing = refl
of_wire-wire triggered_or_activated_by_system = refl
of_wire-wire locked = refl
of_wire-wire released = refl
