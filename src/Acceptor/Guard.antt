-- ===== src/Acceptor/Guard.antt =====
-- src/acceptor/message.handler.ts: the validation of a logon.
use nest_quickfix.Prelude.{
  Bool, true, false, not, ◌||◌, Option, none, some, List, [], ◌∷◌, if◌then◌else◌,
}
use nest_quickfix.Text.{Text, text}
use nest_quickfix.Result.{Result}
use nest_quickfix.Fields.{
  FieldType, account, sender_comp_id, target_comp_id, heart_bt_int, encrypt_method,
}
use nest_quickfix.Message.{Message, Value, string, strict_equal, get_field, require_fields}
use nest_quickfix.World.{World}
use nest_quickfix.World.Exec.{Exec, pure, lift, ◌>>=◌, ◌>>◌}

-- `AcceptorConfig.auth`: two functions of the application.
pub record Auth : Type 0 where
  pub validate_credentials : Message → Exec World Bool
  pub get_allowed_sender_comp_ids : Value → Exec World (List Text)

-- `interface AcceptorConfig`, as far as the acceptor reads it
pub record AcceptorConfig : Type 0 where
  pub begin_string : Text
  pub target_comp_id : Text
  pub app_name : Text
  pub auth : Option Auth

-- `{ isValid, message }`
pub record Verdict : Type 0 where
  pub is_valid : Bool
  pub message : Option Text

abbrev pub valid : Verdict
valid = record { is_valid = true; message = none }

abbrev pub invalid : Text → Verdict
invalid reason = record { is_valid = false; message = some reason }

abbrev pub logon_fields : List FieldType
logon_fields = sender_comp_id ∷ target_comp_id ∷ heart_bt_int ∷ encrypt_method ∷ []

-- `validateRequiredFields(message)`
unfoldable pub validate_logon_fields : Message → Result (Unit {0})
validate_logon_fields m = require_fields logon_fields m

-- `allowedSenderCompIds.includes(senderCompId)`
abbrev pub includes_id : List Text → Value → Bool
includes_id [] v = false
includes_id (t ∷ ts) v = strict_equal (string t) v || includes_id ts v

-- `validateAuthentication(message)`
unfoldable pub validate_authentication : Auth → Message → Exec World Verdict
validate_authentication auth m = do
  is_valid ← auth.validate_credentials m
  if not is_valid then pure (invalid (text "Invalid credentials")) else do
    allowed ← auth.get_allowed_sender_comp_ids (get_field m account)
    pure (
        if includes_id allowed (get_field m sender_comp_id)
        then valid
        else invalid (text "Invalid sender comp ID"))

unfoldable pub authenticate : Option Auth → Message → Exec World Verdict
unfolding validate_authentication
authenticate none m = pure valid
authenticate (some auth) m = validate_authentication auth m

-- `validateLogon(message)`
unfoldable pub validate_logon : AcceptorConfig → Message → Exec World Verdict
unfolding validate_logon_fields authenticate
validate_logon config m = do
  lift (validate_logon_fields m)
  if not (strict_equal (get_field m target_comp_id) (string config.target_comp_id))
      then pure (invalid (text "Invalid TargetCompID"))
      else authenticate config.auth m
