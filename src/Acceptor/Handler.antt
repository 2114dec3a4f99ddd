-- ===== src/Acceptor/Handler.antt =====
-- src/acceptor/message.handler.ts: logons, and the routing of all other messages.
use nest_quickfix.Prelude.{
  ℕ, Bool, true, false, Option, none, some, List, [], ◌∷◌, ◌++◌, if◌then◌else◌,
}
use nest_quickfix.Text.{Text, text}
use nest_quickfix.Text.Integer.{parse_int}
use nest_quickfix.Result.{message_of}
use nest_quickfix.Fields.{sender_comp_id, target_comp_id, heart_bt_int}
use nest_quickfix.Message.{Message, value_text, get_field}
use nest_quickfix.World.{World, SessionConfig, closing}
use nest_quickfix.World.Exec.{Exec, pure, throw, catch, gets, modify, ◌>>=◌, ◌>>◌}
use nest_quickfix.World.Store.{put_socket}
use nest_quickfix.Session.{App, new_session, handle_message}
use nest_quickfix.Manager.{register_session, get_session_from_logon}
use nest_quickfix.Metadata.{FixMetadata}
use nest_quickfix.Metadata.Setup.{setup_session_handlers}
use nest_quickfix.Acceptor.Guard.{AcceptorConfig, validate_logon}
use nest_quickfix.Acceptor.Refusal.{send_logout_and_close, destroy}

-- `buildSessionConfig(logon, senderCompId, targetCompId)`
unfoldable pub build_session_config : AcceptorConfig → Message → SessionConfig
build_session_config config m = record {
  sender_comp_id = value_text (get_field m sender_comp_id);
  target_comp_id = value_text (get_field m target_comp_id);
  heartbeat_interval = parse_int (value_text (get_field m heart_bt_int));
  begin_string = config.begin_string;
  app_name = config.app_name;
}

-- `setupDisconnectHandler(socket, session)`
unfoldable pub setup_disconnect_handler : ℕ → ℕ → World → World
setup_disconnect_handler k ref w =
    put_socket k (record (w.sockets k) { listeners = (w.sockets k).listeners ++ closing ref ∷ [] })
      w

abbrev pub or_invalid : Option Text → Text
or_invalid none = text "Invalid logon message"
or_invalid (some []) = text "Invalid logon message"
or_invalid (some (c ∷ t)) = c ∷ t

module _ (app : App) (config : AcceptorConfig) (metadata : List FixMetadata) where
  -- `createNewSession(socket, logon)`: the promise of the registration is not awaited, so that its
  -- error is lost.
  unfoldable pub create_new_session : ℕ → Message → Exec World ℕ
  unfolding build_session_config
  create_new_session k m = do
    ref ← new_session (build_session_config config m) k
    catch (register_session app ref) (λ e. pure tt)
    pure ref

  -- `validateAndHandleLogon(socket, message)` after a validation that has passed
  unfoldable pub admit_logon : ℕ → Message → Exec World (Unit {0})
  unfolding create_new_session setup_disconnect_handler
  admit_logon k m = do
    ref ← create_new_session k m
    modify (setup_session_handlers ref metadata)
    modify (setup_disconnect_handler k ref)
    handle_message app ref m

  -- The `try` of `validateAndHandleLogon`: whether the logon is let in; if not, it was answered.
  unfoldable pub let_in : ℕ → Message → Exec World Bool
  let_in k m =
      catch
        (do
          verdict ← validate_logon config m
          if verdict.is_valid then pure true else do
            send_logout_and_close config.begin_string k m (or_invalid verdict.message)
            pure false)
        (λ e. do send_logout_and_close config.begin_string k m (message_of e); pure false)

  -- `validateAndHandleLogon(socket, message)`
  unfoldable pub validate_and_handle_logon : ℕ → Message → Exec World (Unit {0})
  unfolding admit_logon let_in
  validate_and_handle_logon k m = do
    passed ← let_in k m
    if passed then admit_logon k m else pure tt

  -- `handleLogon(socket, message)`
  unfoldable pub handle_logon : ℕ → Message → Exec World (Unit {0})
  unfolding validate_and_handle_logon
  handle_logon k m = catch (validate_and_handle_logon k m) (λ e. do destroy k; throw e)

  -- `handleNonLogonMessage(socket, message)`; `found` is the session of the message's parties
  unfoldable pub route : Option ℕ → ℕ → Message → Exec World (Unit {0})
  route none k m =
      send_logout_and_close config.begin_string k m
        (text "Session not logged on. Please logon first.")
  route (some ref) k m = handle_message app ref m

  unfoldable pub handle_non_logon_message : ℕ → Message → Exec World (Unit {0})
  unfolding route
  handle_non_logon_message k m = do found ← gets (get_session_from_logon m); route found k m
