-- ===== src/Fields/TimeInForce.antt =====
-- src/fields/TimeInForce.ts: how long an order is in effect.
use nest_quickfix.Prelude.{◌≡◌, refl, Option, none, some, List, [], ◌∷◌, ◌==◌, if◌then◌else◌}
use nest_quickfix.Text.{Text, text, text_Eq}

pub data TimeInForce : Type 0 where
  day good_till_cancel at_the_opening immediate_or_cancel fill_or_kill good_till_crossing :
      TimeInForce
  good_till_date at_the_close good_through_crossing at_crossing good_for_time : TimeInForce
  good_for_auction good_for_month : TimeInForce

-- The value of the member, as it stands on the wire.
abbrev pub wire : TimeInForce → Text
wire day = text "0"
wire good_till_cancel = text "1"
wire at_the_opening = text "2"
wire immediate_or_cancel = text "3"
wire fill_or_kill = text "4"
wire good_till_crossing = text "5"
wire good_till_date = text "6"
wire at_the_close = text "7"
wire good_through_crossing = text "8"
wire at_crossing = text "9"
wire good_for_time = text "A"
wire good_for_auction = text "B"
wire good_for_month = text "C"

-- All members, in the order of the source.
members : List TimeInForce
members =
    day ∷ good_till_cancel ∷ at_the_opening ∷ immediate_or_cancel ∷ fill_or_kill
    ∷ good_till_crossing ∷ good_till_date ∷ at_the_close ∷ good_through_crossing ∷ at_crossing
    ∷ good_for_time ∷ good_for_auction ∷ good_for_month ∷ []

find : List TimeInForce → Text → Option TimeInForce
find [] t = none
find (m ∷ ms) t = if wire m == t then some m else find ms t

-- The member that a value on the wire stands for.
pub of_wire : Text → Option TimeInForce
unfolding members find
of_wire t = find members t

-- No two members share a value: each is found again from its text.
pub of_wire-wire : (m : TimeInForce) → of_wire (wire m) ≡ some m
unfolding of_wire
of_wire-wire day = refl
of_wire-wire good_till_cancel = refl
of_wire-wire at_the_opening = refl
of_wire-wire immediate_or_cancel = refl
of_wire-wire fill_or_kill = refl
of_wire-wire good_till_crossing = refl
of_wire-wire good_till_date = refl
of_wire-wire at_the_close = refl
of_wire-wire good_through_crossing = refl
of_wire-wire at_crossing = refl
of_wire-wire good_for_time = refl
of_wire-wire good_for_auction = refl
of_wire-wire good_for_month = refl
