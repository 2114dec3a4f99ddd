-- ===== src/Fields/OrdStatus.antt =====
-- src/fields/OrdStatus.ts: the states of an order.
use nest_quickfix.Prelude.{◌≡◌, refl, Option, none, some, List, [], ◌∷◌, ◌==◌, if◌then◌else◌}
use nest_quickfix.Text.{Text, text, text_Eq}

pub data OrdStatus : Type 0 where
  new partially_filled filled done_for_day canceled replaced pending_cancel stopped : OrdStatus
  rejected suspended pending_new calculated expired accepted_for_bidding pending_replace : OrdStatus

-- The value of the member, as it stands on the wire.
abbrev pub wire : OrdStatus → Text
wire new = text "0"
wire partially_filled = text "1"
wire filled = text "2"
wire done_for_day = text "3"
wire canceled = text "4"
wire replaced = text "5"
wire pending_cancel = text "6"
wire stopped = text "7"
wire rejected = text "8"
wire suspended = text "9"
wire pending_new = text "A"
wire calculated = text "B"
wire expired = text "C"
wire accepted_for_bidding = text "D"
wire pending_replace = text "E"

-- All members, in the order of the source.
members : List OrdStatus
members =
    new ∷ partially_filled ∷ filled ∷ done_for_day ∷ canceled ∷ replaced ∷ pending_cancel ∷ stopped
    ∷ rejected ∷ suspended ∷ pending_new ∷ calculated ∷ expired ∷ accepted_for_bidding
    ∷ pending_replace ∷ []

find : List OrdStatus → Text → Option OrdStatus
find [] t = none
find (m ∷ ms) t = if wire m == t then some m else find ms t

-- The member that a value on the wire stands for.
pub of_wire : Text → Option OrdStatus
unfolding members find
of_wire t = find members t

-- No two members share a value: each is found again from its text.
pub of_wire-wire : (m : OrdStatus) → of_wire (wire m) ≡ some m
unfolding of_wire
of_wire-wire new = refl
of_wire-wire partially_filled = refl
of_wire-wire filled = refl
of_wire-wire done_for_day = refl
of_wire-wire canceled = refl
of_wire-wire replaced = refl
of_wire-wire pending_cancel = refl
of_wire-wire stopped = refl
of_wire-wire rejected = refl
of_wire-wire suspended = refl
of_wire-wire pending_new = refl
of_wire-wire calculated = refl
of_wire-wire expired = refl
of_wire-wire accepted_for_bidding = refl
of_wire-wire pending_replace = refl
