-- ===== src/Orders.antt =====
-- src/protocol/messages/order.single.ts and src/protocol/messages/execution.report.ts: the messages
-- of orders. Quantities and prices are whole numbers here.
pub mod Complete
use nest_quickfix.Prelude.{Option, none, some, List, [], ◌∷◌}
use nest_quickfix.Text.{Text}
use nest_quickfix.Text.Integer.{Number}
use nest_quickfix.Fields.{
  msg_type, cl_ord_id, symbol, side, order_qty, price, ord_type, time_in_force, order_id, exec_id,
  exec_type, ord_status,
}
use nest_quickfix.Fields.MsgType
use nest_quickfix.Fields.Side
use nest_quickfix.Fields.OrdType
use nest_quickfix.Fields.TimeInForce
use nest_quickfix.Fields.ExecType
use nest_quickfix.Fields.OrdStatus
use nest_quickfix.Message.{Message, Field, Value, string, numeric, new_message}
use nest_quickfix.Message.Templates.{field}

-- The arguments of the constructor; the last two may be left out.
pub record OrderRequest : Type 0 where
  pub cl_ord_id : Text
  pub symbol : Text
  pub side : Side.Side
  pub order_qty : Number
  pub price : Number
  pub order_type : Option OrdType.OrdType
  pub time_in_force : Option TimeInForce.TimeInForce

abbrev pub type_or_limit : Option OrdType.OrdType → OrdType.OrdType
type_or_limit none = OrdType.limit
type_or_limit (some t) = t

abbrev pub time_or_day : Option TimeInForce.TimeInForce → TimeInForce.TimeInForce
time_or_day none = TimeInForce.day
time_or_day (some t) = t

abbrev pub order_single_fields : OrderRequest → List Field
order_single_fields r =
    field msg_type (string (MsgType.wire MsgType.new_order_single))
    ∷ field cl_ord_id (string r.cl_ord_id)
    ∷ field symbol (string r.symbol)
    ∷ field side (string (Side.wire r.side))
    ∷ field order_qty (numeric r.order_qty)
    ∷ field price (numeric r.price)
    ∷ field ord_type (string (OrdType.wire (type_or_limit r.order_type)))
    ∷ field time_in_force (string (TimeInForce.wire (time_or_day r.time_in_force)))
    ∷ []

-- `new OrderSingleMessage(…)`
unfoldable pub order_single_message : OrderRequest → Message
unfolding new_message
order_single_message r = new_message (order_single_fields r)

-- The arguments of the constructor.
pub record Report : Type 0 where
  pub order_id : Text
  pub exec_id : Text
  pub symbol : Text
  pub side : Text
  pub order_qty : Number
  pub price : Number
  pub exec_type : ExecType.ExecType
  pub ord_status : OrdStatus.OrdStatus

abbrev pub execution_report_fields : Report → List Field
execution_report_fields r =
    field msg_type (string (MsgType.wire MsgType.execution_report))
    ∷ field order_id (string r.order_id)
    ∷ field exec_id (string r.exec_id)
    ∷ field symbol (string r.symbol)
    ∷ field side (string r.side)
    ∷ field order_qty (numeric r.order_qty)
    ∷ field price (numeric r.price)
    ∷ field exec_type (string (ExecType.wire r.exec_type))
    ∷ field ord_status (string (OrdStatus.wire r.ord_status))
    ∷ []

-- `new ExecutionReportMessage(…)`
unfoldable pub execution_report_message : Report → Message
unfolding new_message
execution_report_message r = new_message (execution_report_fields r)
