-- ===== src/Orders/Complete.antt =====
-- Orders that a session sends.
use nest_quickfix.Prelude.{◌≡◌, refl, ap, ◌∙◌, ℕ, true, Option, none, some, [], ◌∷◌, ◌++◌}
use nest_quickfix.Text.{Text, text}
use nest_quickfix.Text.Integer.{nat}
use nest_quickfix.Result.{ok}
use nest_quickfix.Fields.{
  msg_type, cl_ord_id, symbol, side, order_qty, price, ord_type, time_in_force, sender_comp_id,
  target_comp_id, msg_seq_num,
}
use nest_quickfix.Fields.Side
use nest_quickfix.Fields.OrdType
use nest_quickfix.Fields.TimeInForce
use nest_quickfix.Message.{
  Message, has_field, get_field, new_message, set_fields, set_field, string, numeric, to_string,
}
use nest_quickfix.Message.Laws.{IsMessage, Has, new_message-IsMessage}
use nest_quickfix.OrderedMap.{has, set, get}
use nest_quickfix.World.{World, written}
use nest_quickfix.Session.Sending.{send_message}
use nest_quickfix.Session.Sent.{IsDelivered, send_message-IsDelivered}
use nest_quickfix.Session.Success.{send_message_succeeds, accepts}
use nest_quickfix.Orders.{
  OrderRequest, order_single_message, order_single_fields, type_or_limit, time_or_day,
}

-- A message with a type that is built from fields is delivered.
delivered :
    (r : ℕ) (m : Message) (w : World)
    → IsMessage m
    → Has m msg_type
    → (w.sockets (w.objects r).socket).writable ≡ true
    → accepts (w.sockets (w.objects r).socket).answers ≡ true
    → IsDelivered w r m (send_message r m w).1
delivered r m w u h open_socket taken =
    send_message-IsDelivered r m w (send_message r m w).1 u
      (ap (λ x. (x, (send_message r m w).1)) (send_message_succeeds r m w u h open_socket taken))

-- The defaults of the arguments that may be left out: a limit order, for the day.
abbrev pub kind_text : Option OrdType.OrdType → Text
kind_text none = text "2"
kind_text (some t) = OrdType.wire t

abbrev pub duration_text : Option TimeInForce.TimeInForce → Text
duration_text none = text "0"
duration_text (some t) = TimeInForce.wire t

-- One text was written, to the socket of the session; it prints a message of the type of a new order
-- with the arguments in their fields, the session's own party as target and its peer as sender (the
-- send swaps them), and the next sequence number.
pub record IsOrdered (w : World) (r : ℕ) (q : OrderRequest) (u : World) : Type 0 where
  pub raw : Text
  pub message : Message
  pub logged : u.log ≡ w.log ++ written (w.objects r).socket raw ∷ []
  pub printed : to_string message ≡ ok raw
  pub kind : get_field message msg_type ≡ string (text "D")
  pub id : get_field message cl_ord_id ≡ string q.cl_ord_id
  pub instrument : get_field message symbol ≡ string q.symbol
  pub direction : get_field message side ≡ string (Side.wire q.side)
  pub quantity : get_field message order_qty ≡ numeric q.order_qty
  pub cost : get_field message price ≡ numeric q.price
  pub order_kind : get_field message ord_type ≡ string (kind_text q.order_type)
  pub duration : get_field message time_in_force ≡ string (duration_text q.time_in_force)
  pub sender : get_field message sender_comp_id ≡ string (w.objects r).config.target_comp_id
  pub target : get_field message target_comp_id ≡ string (w.objects r).config.sender_comp_id
  pub number : get_field message msg_seq_num ≡ numeric (nat (w.objects r).next_outgoing_seq_num)

type_or_limit_lem : (t : Option OrdType.OrdType) → OrdType.wire (type_or_limit t) ≡ kind_text t
type_or_limit_lem none = refl
type_or_limit_lem (some t) = refl

time_or_day_lem :
    (t : Option TimeInForce.TimeInForce) → TimeInForce.wire (time_or_day t) ≡ duration_text t
time_or_day_lem none = refl
time_or_day_lem (some t) = refl

order_single-IsDelivered :
    (r : ℕ) (q : OrderRequest) (w : World)
    → (w.sockets (w.objects r).socket).writable ≡ true
    → accepts (w.sockets (w.objects r).socket).answers ≡ true
    → IsDelivered w r (order_single_message q) (send_message r (order_single_message q) w).1
unfolding order_single_message new_message set_fields has_field has set set_field
order_single-IsDelivered r q w open_socket taken =
    delivered r (order_single_message q) w (new_message-IsMessage (order_single_fields q)) refl
      open_socket taken

-- An order with whole numbers as quantity and price, and whatever other arguments, goes out over a
-- socket that is writable and takes the text: one text is written, to the socket of the session, and
-- it prints a message of type D whose fields hold the id, the symbol, the side, the quantity and the
-- price of the order, its type or else that of a limit order, its time in force or else the day, the
-- two parties of the session, swapped, and the next sequence number.
pub order_single-IsOrdered :
    (r : ℕ) (q : OrderRequest) (w : World)
    → (w.sockets (w.objects r).socket).writable ≡ true
    → accepts (w.sockets (w.objects r).socket).answers ≡ true
    → IsOrdered w r q (send_message r (order_single_message q) w).1
unfolding order_single_message new_message set_fields has_field has set set_field get_field get
order_single-IsOrdered r q w open_socket taken =
    let d = order_single-IsDelivered r q w open_socket taken in
    record {
      raw = d.raw;
      message = d.message;
      logged = d.logged;
      printed = d.printed;
      kind = d.fields msg_type;
      id = d.fields cl_ord_id;
      instrument = d.fields symbol;
      direction = d.fields side;
      quantity = d.fields order_qty;
      cost = d.fields price;
      order_kind = d.fields ord_type ∙ ap string (type_or_limit_lem q.order_type);
      duration = d.fields time_in_force ∙ ap string (time_or_day_lem q.time_in_force);
      sender = d.fields sender_comp_id;
      target = d.fields target_comp_id;
      number = d.fields msg_seq_num;
    }
