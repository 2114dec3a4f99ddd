-- ===== src/Examples/Acceptance.antt =====
-- The theorems on the acceptor and on the handlers of the application, at a server without
-- authentication.
use nest_quickfix.Prelude.{refl, none, some, List, [], ◌∷◌}
use nest_quickfix.Text.{Text, text, text_Eq}
use nest_quickfix.OrderedMap
use nest_quickfix.Fields.{sender_comp_id, target_comp_id, msg_type, heart_bt_int, encrypt_method}
use nest_quickfix.Message.{Message, string, has_field}
use nest_quickfix.World.Exec.{◌>>=◌}
use nest_quickfix.Manager.{create_session, register}
use nest_quickfix.Metadata.{Method, unmarked, on_logon, on_fix_message}
use nest_quickfix.Acceptor.Guard.{AcceptorConfig, validate_logon}
use nest_quickfix.Acceptor.Handler.{handle_logon}
use nest_quickfix.Acceptor.Admitted.{IsAdmitted, handle_logon-IsAdmitted}
use nest_quickfix.Examples.Sessions.{quiet, idle, idle-IsPassive}

abbrev pub server : AcceptorConfig
server = record {
  begin_string = text "FIX.4.4";
  target_comp_id = text "SERVER";
  app_name = text "server";
  auth = none;
}

-- A logon of CLIENT, to the party that is given.
abbrev logon_to : Text → Message
logon_to target = record {
  fields =
      (msg_type, string (text "A"))
      ∷ (sender_comp_id, string (text "CLIENT"))
      ∷ (target_comp_id, string target)
      ∷ (heart_bt_int, string (text "30"))
      ∷ (encrypt_method, string (text "0"))
      ∷ [];
}

-- One method for logons, and one for messages of type 8.
abbrev methods : List Method
methods =
    record { handler = 1; marks = on_logon unmarked }
    ∷ record { handler = 2; marks = on_fix_message (some (text "8")) unmarked }
    ∷ []

handle_logon-IsAdmitted_example :
    IsAdmitted server [] 0
      (logon_to (text "SERVER"))
      quiet
      (handle_logon idle server [] 0 (logon_to (text "SERVER")) quiet)
unfolding validate_logon nest_quickfix.Message.get_field OrderedMap.get ◌>>=◌
    nest_quickfix.Message.require_fields has_field OrderedMap.has
    nest_quickfix.Manager.get_session_by_id
handle_logon-IsAdmitted_example =
    handle_logon-IsAdmitted idle server [] 0 (logon_to (text "SERVER")) quiet quiet idle-IsPassive
      refl refl refl refl refl refl
