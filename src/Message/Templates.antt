-- ===== src/Message/Templates.antt =====
-- src/protocol/messages/*.ts and src/message/reject.message.ts: the messages of the session layer.
use nest_quickfix.Prelude.{Bool, [], ◌∷◌, if◌then◌else◌}
use nest_quickfix.Text.{Text, text}
use nest_quickfix.Text.Integer.{Number}
use nest_quickfix.Fields.{
  FieldType, msg_type, heart_bt_int, encrypt_method, reset_seq_num_flag, username, password,
  text_field, test_req_id, ref_seq_num, ref_msg_type, begin_seq_no, end_seq_no,
}
use nest_quickfix.Fields.MsgType
use nest_quickfix.Message.{Message, Value, Field, string, numeric, truthy, new_message, set_field}

-- `if (value) this.setField(field, value)`, for an argument that may be left out
abbrev pub set_if_truthy : Message → FieldType → Value → Message
set_if_truthy m field value = if truthy value then set_field m field value else m

abbrev pub field : FieldType → Value → Field
field tag value = record { tag = tag; value = value }

abbrev wire_value : MsgType.MsgType → Value
wire_value t = string (MsgType.wire t)

unfoldable pub logon_message : Value → Value → Bool → Message
unfolding new_message set_field
logon_message interval encryption reset =
    let m = new_message (
      field msg_type (string (text "A"))
      ∷ field heart_bt_int interval
      ∷ field encrypt_method encryption
      ∷ []) in
    if reset then set_field m reset_seq_num_flag (string (text "Y")) else m

unfoldable pub set_credentials : Message → Text → Text → Message
unfolding set_field
set_credentials m user secret =
    set_field (set_field m username (string user)) password (string secret)

unfoldable pub logout_message : Value → Message
unfolding new_message set_field
logout_message reason =
    set_if_truthy (new_message (field msg_type (wire_value MsgType.logout) ∷ [])) text_field reason

unfoldable pub heartbeat_message : Value → Message
unfolding new_message set_field
heartbeat_message request_id =
    set_if_truthy (new_message (field msg_type (wire_value MsgType.heartbeat) ∷ [])) test_req_id
      request_id

-- `protocol/messages/reject.ts`
unfoldable pub reject_message : Value → Value → Value → Message
unfolding new_message set_field
reject_message seq_num reason type =
    set_if_truthy
      (new_message (
        field msg_type (wire_value MsgType.reject)
        ∷ field ref_seq_num seq_num
        ∷ field text_field reason
        ∷ []))
      ref_msg_type type

-- `message/reject.message.ts`, which sets the same fields one by one
unfoldable pub plain_reject_message : Value → Value → Value → Message
unfolding new_message set_field
plain_reject_message seq_num reason type =
    let m = set_field (new_message []) msg_type (wire_value MsgType.reject) in
    set_if_truthy (set_field (set_field m ref_seq_num seq_num) text_field reason) ref_msg_type type

unfoldable pub resend_request_message : Number → Number → Message
unfolding new_message set_field
resend_request_message first last =
    let m = set_field (new_message []) msg_type (wire_value MsgType.resend_request) in
    set_field (set_field m begin_seq_no (numeric first)) end_seq_no (numeric last)

unfoldable pub test_request_message : Value → Message
unfolding new_message set_field
test_request_message request_id =
    set_field (set_field (new_message []) msg_type (wire_value MsgType.test_request)) test_req_id
      request_id
