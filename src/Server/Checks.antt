-- ===== src/Server/Checks.antt =====
-- src/acceptor/message.handler.ts: what the checks of a logon, a refusal, and the registration of
-- functions with a session keep.
use nest_quickfix.Prelude.{arith, ℕ, refl, false, Option, none, some, List, [], ◌∷◌}
use nest_quickfix.Text.{Text}
use nest_quickfix.Message.{Message, Value}
use nest_quickfix.World.{World, Handlers}
use nest_quickfix.World.Exec.Keeps.{
  Keeps, keeps_rules, Keeps-bind, Keeps-pure, Keeps-lift, Keeps-if,
}
use nest_quickfix.World.Store.{put_session}
use nest_quickfix.Session.Stable.{IsStable, note-Keeps, write-Keeps, put_socket-Keeps}
use nest_quickfix.Session.Registration.{
  register_logon_handler, register_logout_handler, register_connected_handler,
  register_disconnected_handler, register_message_handler,
}
use nest_quickfix.Metadata.{FixMetadata}
use nest_quickfix.Metadata.Setup.{if_given, register_session_handlers, setup_session_handlers}
use nest_quickfix.Acceptor.Guard.{
  Auth, AcceptorConfig, validate_authentication, authenticate, validate_logon,
}
use nest_quickfix.Acceptor.Refusal.{destroy, write_plain, send_logout_and_close}

-- The two functions of the authentication do only what the methods of sessions do.
pub record IsTameAuth (auth : Auth) : Type 1 where
  pub credentials :
      (J : World → Type 0) → IsStable J → (m : Message) → Keeps J (auth.validate_credentials m)
  pub allowed :
      (J : World → Type 0) → IsStable J → (v : Value) → Keeps J (auth.get_allowed_sender_comp_ids v)

abbrev pub TameAuth : Option Auth → Type 1
TameAuth none = Unit {1}
TameAuth (some auth) = IsTameAuth auth

module _ {I : World → Type 0} (stable : IsStable I) where
  pub destroy-Keeps : (k : ℕ) → Keeps I (destroy k)
  unfolding destroy
  destroy-Keeps k =
      Keeps-bind _ _ (put_socket-Keeps stable k (λ s. record s { writable = false }))
        (λ _. note-Keeps stable _)

  write_plain-Keeps : (k : ℕ) (raw : Text) → Keeps I (write_plain k raw)
  unfolding write_plain
  write_plain-Keeps k raw = search (keeps_rules, write-Keeps stable) depth 12

  pub send_logout_and_close-Keeps :
      (version : Text) (k : ℕ) (m : Message) (reason : Text)
      → Keeps I (send_logout_and_close version k m reason)
  unfolding send_logout_and_close
  send_logout_and_close-Keeps version k m reason =
      search (keeps_rules, write_plain-Keeps, destroy-Keeps) depth 12

  -- Other handlers for a session.
  put_handlers :
      (r : ℕ) (hs : Handlers) (w : World)
      → I w
      → I (put_session r (record (w.objects r) { handlers = hs }) w)
  put_handlers r hs w h =
      stable.put r _ w (record { id = refl; socket = refl; seq = omega arith; state = λ e. e }) h

  if_given-after :
      {A : Type 0} (register : ℕ → A → World → World) (r : ℕ) (x : Option A) (w : World)
      → ((a : A) (v : World) → I v → I (register r a v))
      → I w
      → I (if_given register r x w)
  if_given-after register r none w keeps h = h
  if_given-after register r (some a) w keeps h = keeps a w h

  register_session_handlers-after :
      (r : ℕ) (meta : FixMetadata) (w : World) → I w → I (register_session_handlers r meta w)
  unfolding register_session_handlers register_logon_handler register_logout_handler
      register_connected_handler register_disconnected_handler register_message_handler
  register_session_handlers-after r meta w h =
      if_given-after (λ q (f, type). register_message_handler q f type) r meta.on_message_handler _
        (λ a v. put_handlers r _ v)
        (if_given-after register_disconnected_handler r meta.on_disconnected_handler _
          (λ a v. put_handlers r _ v)
          (if_given-after register_connected_handler r meta.on_connected_handler _
            (λ a v. put_handlers r _ v)
            (if_given-after register_logout_handler r meta.on_logout_handler _
              (λ a v. put_handlers r _ v)
              (if_given-after register_logon_handler r meta.on_logon_handler w
                (λ a v. put_handlers r _ v) h))))

  pub setup_session_handlers-after :
      (r : ℕ) (metas : List FixMetadata) (w : World) → I w → I (setup_session_handlers r metas w)
  unfolding setup_session_handlers
  setup_session_handlers-after r [] w h = h
  setup_session_handlers-after r (meta ∷ metas) w h =
      setup_session_handlers-after r metas (register_session_handlers r meta w)
        (register_session_handlers-after r meta w h)

  validate_authentication-Keeps :
      (auth : Auth) (m : Message) → IsTameAuth auth → Keeps I (validate_authentication auth m)
  unfolding validate_authentication
  validate_authentication-Keeps auth m tame =
      search (keeps_rules, tame.credentials I stable, tame.allowed I stable) depth 12

  authenticate-Keeps :
      (auth : Option Auth) (m : Message) → TameAuth auth → Keeps I (authenticate auth m)
  unfolding authenticate
  authenticate-Keeps none m tame = search keeps_rules
  authenticate-Keeps (some auth) m tame = validate_authentication-Keeps auth m tame

  pub validate_logon-Keeps :
      (config : AcceptorConfig) (m : Message)
      → TameAuth config.auth
      → Keeps I (validate_logon config m)
  unfolding validate_logon
  validate_logon-Keeps config m tame =
      Keeps-bind _ _ (Keeps-lift _)
        λ _. Keeps-if _ _ _ (Keeps-pure _) (authenticate-Keeps config.auth m tame)
