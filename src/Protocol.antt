-- ===== src/Protocol.antt =====
-- src/protocol/validator.ts, `class FIX44Validator`, and src/protocol/manager.ts,
-- `class ProtocolManager`: messages wait in a queue until a logon.
pub mod Flow
pub mod Checksum
pub mod Parser
use nest_quickfix.Prelude.{Bool, true, false, not, ◌&&◌, List, [], ◌∷◌, ◌++◌, if◌then◌else◌}
use nest_quickfix.Text.{text}
use nest_quickfix.Result.{Result, ok, err, error, ◌>>=◌, ◌>>◌}
use nest_quickfix.Fields.{
  FieldType, begin_string, body_length, msg_type, sender_comp_id, target_comp_id, msg_seq_num,
  sending_time, heart_bt_int,
}
use nest_quickfix.Fields.MsgType
use nest_quickfix.Message.{Message, strict_equal, string, get_field, has_field, require_fields}

abbrev pub has_type : MsgType.MsgType → Message → Bool
has_type t m = strict_equal (get_field m msg_type) (string (MsgType.wire t))

abbrev pub validated_fields : List FieldType
validated_fields =
    begin_string ∷ body_length ∷ msg_type ∷ sender_comp_id ∷ target_comp_id ∷ msg_seq_num
    ∷ sending_time ∷ []

-- `FIX44Validator.validateLogon(message)`
unfoldable pub validate_logon : Message → Result (Unit {0})
validate_logon m =
    if has_field m heart_bt_int
    then ok tt
    else err (error (text "Logon message must contain HeartBtInt"))

-- `FIX44Validator.validateFieldValues(message)`
unfoldable pub validate_field_values : Message → Result (Unit {0})
unfolding validate_logon
validate_field_values m = if has_type MsgType.logon m then validate_logon m else ok tt

-- `FIX44Validator.validateFieldOrder(message)`, whose result is not used
unfoldable pub validate_field_order : Message → Bool
validate_field_order m = true

pub record ProtocolManager : Type 0 where
  pub message_queue : List Message
  pub is_logged_on : Bool

abbrev pub new_manager : ProtocolManager
new_manager = record { message_queue = []; is_logged_on = false }

-- `shouldQueueMessage(message)`
unfoldable pub should_queue_message : Message → ProtocolManager → Bool
should_queue_message m p =
    not p.is_logged_on && not (strict_equal (get_field m msg_type) (string (text "A")))

-- What a message does to the flag: `handleMessage`, but for the loop of `handleLogon`.
unfoldable pub mark : Message → Bool → Bool
mark m on =
    if has_type MsgType.logon m then true else if has_type MsgType.logout m then false else on

-- The loop of `handleLogon`. A logon in the queue would empty the rest of it by a loop of its own,
-- which leaves none for the one outside: the messages are handled in their order in any case.
unfoldable pub drain : List Message → Bool → Bool
unfolding mark
drain [] on = on
drain (m ∷ queue) on = drain queue (mark m on)

-- `handleMessage(message)`
unfoldable pub dispatch : Message → ProtocolManager → ProtocolManager
unfolding drain
dispatch m p =
    if has_type MsgType.logon m
    then record { message_queue = []; is_logged_on = drain p.message_queue true }
    else record p { is_logged_on = mark m p.is_logged_on }

-- `processIncoming(message)`: nothing is changed before the validation has passed.
unfoldable pub process_incoming : Message → ProtocolManager → Result ProtocolManager
unfolding dispatch should_queue_message
process_incoming m p = do
  require_fields validated_fields m
  validate_field_values m
  if should_queue_message m p
      then ok (record p { message_queue = p.message_queue ++ m ∷ [] })
      else ok (dispatch m p)
