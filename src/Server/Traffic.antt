-- ===== src/Server/Traffic.antt =====
-- src/acceptor/: what the handling of connections and messages keeps.
use nest_quickfix.Prelude.{ℕ, true, false, Option, none, some, List, [], ◌∷◌}
use nest_quickfix.Text.{Text, text_Eq}
use nest_quickfix.Message.{Message}
use nest_quickfix.World.{World}
use nest_quickfix.World.Exec.{modify, catch, pure, ◌>>=◌, ◌>>◌}
use nest_quickfix.World.Exec.Keeps.{
  Keeps, keeps_rules, Keeps-bind, Keeps-catch, Keeps-pure, Keeps-if,
}
use nest_quickfix.Session.{App, new_session, handle_message, session_id_of}
use nest_quickfix.Session.Stable.{note-Keeps, handle_message-Keeps}
use nest_quickfix.Metadata.{FixMetadata}
use nest_quickfix.Metadata.Setup.{setup_session_handlers}
use nest_quickfix.Acceptor.Guard.{AcceptorConfig}
use nest_quickfix.Acceptor.Refusal.{send_logout_and_close}
use nest_quickfix.Acceptor.Handler.{
  build_session_config, setup_disconnect_handler, create_new_session, admit_logon, let_in,
  validate_and_handle_logon, handle_logon, route, handle_non_logon_message,
}
use nest_quickfix.Acceptor.{
  accept, dispatch, process_message, process_messages, handle_data_error, handle_incoming_data,
  receive_data,
}
use nest_quickfix.Manager.{register_session}
use nest_quickfix.Server.Open.{IsOpen, IsTame, IsKnown, new_session-IsKnown, register_session-Keeps}
use nest_quickfix.Server.Checks.{
  TameAuth, destroy-Keeps, send_logout_and_close-Keeps, setup_session_handlers-after,
  validate_logon-Keeps,
}

module _ {I : World → Type 0} (opened : IsOpen I) where
  pub accept-after : (k : ℕ) (address : Text) (w : World) → I w → I (accept k address w)
  unfolding accept
  accept-after k address w h = opened.stable.socket k _ _ (opened.active _ w h)

  pub handle_data_error-Keeps : (k : ℕ) → Keeps I (handle_data_error k)
  unfolding handle_data_error
  handle_data_error-Keeps k =
      Keeps-bind _ _ (note-Keeps opened.stable _) (λ _. destroy-Keeps opened.stable k)

  module _ (app : App) (config : AcceptorConfig) (metadata : List FixMetadata) (tame : IsTame app)
      (guarded : TameAuth config.auth) where
    register-Keeps :
        (r : ℕ) (id : Text)
        → Keeps
            (λ w. I w × IsKnown r id w)
            (do catch (register_session app r) (λ e. pure tt); pure r)
    register-Keeps r id =
        Keeps-bind _ _
          (Keeps-catch _ _ (register_session-Keeps opened app tame r id) (λ e. Keeps-pure tt))
          (λ _. Keeps-pure r)

    create_new_session-Keeps :
        (k : ℕ) (m : Message) → Keeps I (create_new_session app config metadata k m)
    unfolding create_new_session ◌>>=◌ new_session
    create_new_session-Keeps k m = record {
      after = λ w h.
          ((register-Keeps w.next_object (session_id_of (build_session_config config m))).after _ (
            opened.create (build_session_config config m) k w h,
            new_session-IsKnown (build_session_config config m) k w,
          )).0;
    }

    handle-Keeps : (r : ℕ) (m : Message) → Keeps I (handle_message app r m)
    handle-Keeps r m = handle_message-Keeps opened.stable app (tame I opened.stable) r m

    setup-Keeps : (r : ℕ) → Keeps I (modify (setup_session_handlers r metadata))
    unfolding modify
    setup-Keeps r = record {
      after = λ w h. setup_session_handlers-after opened.stable r metadata w h;
    }

    listen-Keeps : (k r : ℕ) → Keeps I (modify (setup_disconnect_handler k r))
    unfolding modify setup_disconnect_handler
    listen-Keeps k r = record { after = λ w h. opened.stable.socket k _ w h }

    admit_logon-Keeps : (k : ℕ) (m : Message) → Keeps I (admit_logon app config metadata k m)
    unfolding admit_logon
    admit_logon-Keeps k m =
        search (keeps_rules, create_new_session-Keeps, setup-Keeps, listen-Keeps, handle-Keeps)
          depth 12

    refuse-Keeps :
        (k : ℕ) (m : Message) (reason : Text)
        → Keeps I (send_logout_and_close config.begin_string k m reason)
    refuse-Keeps k m reason =
        send_logout_and_close-Keeps opened.stable config.begin_string k m reason

    answered-Keeps :
        (k : ℕ) (m : Message) (reason : Text)
        → Keeps I (do send_logout_and_close config.begin_string k m reason; pure false)
    answered-Keeps k m reason = Keeps-bind _ _ (refuse-Keeps k m reason) (λ _. Keeps-pure false)

    let_in-Keeps : (k : ℕ) (m : Message) → Keeps I (let_in app config metadata k m)
    unfolding let_in
    let_in-Keeps k m =
        Keeps-catch _ _
          (Keeps-bind _ _ (validate_logon-Keeps opened.stable config m guarded)
            λ verdict. Keeps-if _ _ _ (Keeps-pure true) (answered-Keeps k m _))
          (λ e. answered-Keeps k m _)

    handle_logon-Keeps : (k : ℕ) (m : Message) → Keeps I (handle_logon app config metadata k m)
    unfolding handle_logon validate_and_handle_logon
    handle_logon-Keeps k m =
        search (keeps_rules, let_in-Keeps, admit_logon-Keeps, destroy-Keeps opened.stable) depth 12

    route-Keeps :
        (found : Option ℕ) (k : ℕ) (m : Message) → Keeps I (route app config metadata found k m)
    unfolding route
    route-Keeps none k m = refuse-Keeps k m _
    route-Keeps (some r) k m = handle-Keeps r m

    handle_non_logon_message-Keeps :
        (k : ℕ) (m : Message) → Keeps I (handle_non_logon_message app config metadata k m)
    unfolding handle_non_logon_message
    handle_non_logon_message-Keeps k m = search (keeps_rules, route-Keeps) depth 12

    dispatch-Keeps : (k : ℕ) (m : Message) → Keeps I (dispatch app config metadata k m)
    unfolding dispatch
    dispatch-Keeps k m =
        search (keeps_rules, handle_logon-Keeps, handle_non_logon_message-Keeps) depth 12

    process_message-Keeps :
        (k : ℕ) (m : Message) → Keeps I (process_message app config metadata k m)
    unfolding process_message
    process_message-Keeps k m = search (keeps_rules, dispatch-Keeps) depth 12

    process_messages-Keeps :
        (k : ℕ) (ms : List Message) → Keeps I (process_messages app config metadata k ms)
    unfolding process_messages
    process_messages-Keeps k [] = search keeps_rules
    process_messages-Keeps k (m ∷ ms) =
        Keeps-bind _ _ (process_message-Keeps k m) (λ _. process_messages-Keeps k ms)

    pub receive_data-Keeps : (k : ℕ) (raw : Text) → Keeps I (receive_data app config metadata k raw)
    unfolding receive_data handle_incoming_data
    receive_data-Keeps k raw =
        search (keeps_rules, process_messages-Keeps, handle_data_error-Keeps) depth 12
