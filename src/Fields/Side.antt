-- ===== src/Fields/Side.antt =====
-- src/fields/Side.ts: the sides of an order.
use nest_quickfix.Prelude.{◌≡◌, refl, Option, none, some, List, [], ◌∷◌, ◌==◌, if◌then◌else◌}
use nest_quickfix.Text.{Text, text, text_Eq}

pub data Side : Type 0 where
  buy sell buy_minus sell_plus sell_short sell_short_exempt undisclosed cross cross_short : Side
  cross_short_exempt as_defined opposite subscribe redeem lend borrow sell_undisclosed : Side

-- The value of the member, as it stands on the wire.
abbrev pub wire : Side → Text
wire buy = text "1"
wire sell = text "2"
wire buy_minus = text "3"
wire sell_plus = text "4"
wire sell_short = text "5"
wire sell_short_exempt = text "6"
wire undisclosed = text "7"
wire cross = text "8"
wire cross_short = text "9"
wire cross_short_exempt = text "A"
wire as_defined = text "B"
wire opposite = text "C"
wire subscribe = text "D"
wire redeem = text "E"
wire lend = text "F"
wire borrow = text "G"
wire sell_undisclosed = text "H"

-- All members, in the order of the source.
members : List Side
members =
    buy ∷ sell ∷ buy_minus ∷ sell_plus ∷ sell_short ∷ sell_short_exempt ∷ undisclosed ∷ cross
    ∷ cross_short ∷ cross_short_exempt ∷ as_defined ∷ opposite ∷ subscribe ∷ redeem ∷ lend ∷ borrow
    ∷ sell_undisclosed ∷ []

find : List Side → Text → Option Side
find [] t = none
find (m ∷ ms) t = if wire m == t then some m else find ms t

-- The member that a value on the wire stands for.
pub of_wire : Text → Option Side
unfolding members find
of_wire t = find members t

-- No two members share a value: each is found again from its text.
pub of_wire-wire : (m : Side) → of_wire (wire m) ≡ some m
unfolding of_wire
of_wire-wire buy = refl
of_wire-wire sell = refl
of_wire-wire buy_minus = refl
of_wire-wire sell_plus = refl
of_wire-wire sell_short = refl
of_wire-wire sell_short_exempt = refl
of_wire-wire undisclosed = refl
of_wire-wire cross = refl
of_wire-wire cross_short = refl
of_wire-wire cross_short_exempt = refl
of_wire-wire as_defined = refl
of_wire-wire opposite = refl
of_wire-wire subscribe = refl
of_wire-wire redeem = refl
of_wire-wire lend = refl
of_wire-wire borrow = refl
of_wire-wire sell_undisclosed = refl
