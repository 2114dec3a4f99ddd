-- ===== src/Fields/OrdType.antt =====
-- src/fields/OrdType.ts: the types of orders.
use nest_quickfix.Prelude.{◌≡◌, refl, Option, none, some, List, [], ◌∷◌, ◌==◌, if◌then◌else◌}
use nest_quickfix.Text.{Text, text, text_Eq}

pub data OrdType : Type 0 where
  market limit stop stop_limit market_on_close with_or_without limit_or_better : OrdType
  limit_with_or_without on_basis on_close limit_on_close forex_market previously_quoted : OrdType
  previously_indicated forex_limit forex_swap forex_previously_quoted funari : OrdType
  market_if_touched market_with_left_over_as_limit previous_fund_valuation_point : OrdType
  next_fund_valuation_point pegged counter_order_selection stop_on_bid_or_offer : OrdType
  stop_limit_on_bid_or_offer : OrdType

-- The value of the member, as it stands on the wire.
abbrev pub wire : OrdType → Text
wire market = text "1"
wire limit = text "2"
wire stop = text "3"
wire stop_limit = text "4"
wire market_on_close = text "5"
wire with_or_without = text "6"
wire limit_or_better = text "7"
wire limit_with_or_without = text "8"
wire on_basis = text "9"
wire on_close = text "A"
wire limit_on_close = text "B"
wire forex_market = text "C"
wire previously_quoted = text "D"
wire previously_indicated = text "E"
wire forex_limit = text "F"
wire forex_swap = text "G"
wire forex_previously_quoted = text "H"
wire funari = text "I"
wire market_if_touched = text "J"
wire market_with_left_over_as_limit = text "K"
wire previous_fund_valuation_point = text "L"
wire next_fund_valuation_point = text "M"
wire pegged = text "P"
wire counter_order_selection = text "Q"
wire stop_on_bid_or_offer = text "R"
wire stop_limit_on_bid_or_offer = text "S"

-- All members, in the order of the source.
members : List OrdType
members =
    market ∷ limit ∷ stop ∷ stop_limit ∷ market_on_close ∷ with_or_without ∷ limit_or_better
    ∷ limit_with_or_without ∷ on_basis ∷ on_close ∷ limit_on_close ∷ forex_market
    ∷ previously_quoted ∷ previously_indicated ∷ forex_limit ∷ forex_swap ∷ forex_previously_quoted
    ∷ funari ∷ market_if_touched ∷ market_with_left_over_as_limit ∷ previous_fund_valuation_point
    ∷ next_fund_valuation_point ∷ pegged ∷ counter_order_selection ∷ stop_on_bid_or_offer
    ∷ stop_limit_on_bid_or_offer ∷ []

find : List OrdType → Text → Option OrdType
find [] t = none
find (m ∷ ms) t = if wire m == t then some m else find ms t

-- The member that a value on the wire stands for.
pub of_wire : Text → Option OrdType
unfolding members find
of_wire t = find members t

-- No two members share a value: each is found again from its text.
pub of_wire-wire : (m : OrdType) → of_wire (wire m) ≡ some m
unfolding of_wire
of_wire-wire market = refl
of_wire-wire limit = refl
of_wire-wire stop = refl
of_wire-wire stop_limit = refl
of_wire-wire market_on_close = refl
of_wire-wire with_or_without = refl
of_wire-wire limit_or_better = refl
of_wire-wire limit_with_or_without = refl
of_wire-wire on_basis = refl
of_wire-wire on_close = refl
of_wire-wire limit_on_close = refl
of_wire-wire forex_market = refl
of_wire-wire previously_quoted = refl
of_wire-wire previously_indicated = refl
of_wire-wire forex_limit = refl
of_wire-wire forex_swap = refl
of_wire-wire forex_previously_quoted = refl
of_wire-wire funari = refl
of_wire-wire market_if_touched = refl
of_wire-wire market_with_left_over_as_limit = refl
of_wire-wire previous_fund_valuation_point = refl
of_wire-wire next_fund_valuation_point = refl
of_wire-wire pegged = refl
of_wire-wire counter_order_selection = refl
of_wire-wire stop_on_bid_or_offer = refl
of_wire-wire stop_limit_on_bid_or_offer = refl
