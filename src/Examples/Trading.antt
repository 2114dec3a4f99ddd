-- ===== src/Examples/Trading.antt =====
-- The theorems on orders, at an order.
use nest_quickfix.Prelude.{none, some, refl}
use nest_quickfix.Text.{text}
use nest_quickfix.Text.Integer.{nat}
use nest_quickfix.Fields.Side
use nest_quickfix.Fields.OrdType
use nest_quickfix.Session.Sending.{send_message}
use nest_quickfix.Orders.{OrderRequest, order_single_message}
use nest_quickfix.Orders.Complete.{IsOrdered, order_single-IsOrdered}
use nest_quickfix.Examples.Sessions.{quiet}

abbrev order : OrderRequest
order = record {
  cl_ord_id = text "C1";
  symbol = text "ABC";
  side = Side.buy;
  order_qty = nat 100;
  price = nat 7;
  order_type = some OrdType.market;
  time_in_force = none;
}

order_single-IsOrdered_example :
    IsOrdered quiet 0 order (send_message 0 (order_single_message order) quiet).1
order_single-IsOrdered_example = order_single-IsOrdered 0 order quiet refl refl
