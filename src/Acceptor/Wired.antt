-- ===== src/Acceptor/Wired.antt =====
-- From the bytes of a logon to its session: the parser and the acceptor together.
use nest_quickfix.Prelude.{
  ℕ, ◌≡◌, refl, sym, ap, ◌∙◌, true, false, none, some, List, [], ◌∷◌, ◌++◌, append-nil, All,
  eq_refl,
}
use nest_quickfix.Text.{Text, text, text_Eq}
use nest_quickfix.Result.{Result, ok, err, Error}
use nest_quickfix.Fields.{
  sender_comp_id, target_comp_id, heart_bt_int, encrypt_method, msg_type, begin_string, msg_seq_num,
  sending_time,
}
use nest_quickfix.Fields.MsgType
use nest_quickfix.Message.{Message, string, value_text, get_field, required_fields}
use nest_quickfix.Message.Laws.{Has, print, to_string_lem}
use nest_quickfix.Message.Sendable.{IsSendable}
use nest_quickfix.Parser.{process_data}
use nest_quickfix.Parser.RoundTrip.{received, process_data-stream}
use nest_quickfix.Parser.Received.{get_field-received, has_field-received}
use nest_quickfix.World.{World}
use nest_quickfix.World.Exec.{Exec, pure, lift, catch, handle, continue, ◌>>=◌}
use nest_quickfix.Session.{App, session_id_of, is_type}
use nest_quickfix.Session.Success.{accepts}
use nest_quickfix.Session.Ending.{IsPassive}
use nest_quickfix.Manager.{get_session, get_session_by_id, is_full}
use nest_quickfix.Metadata.{FixMetadata}
use nest_quickfix.Acceptor.{
  is_attached, dispatch, process_message, process_messages, handle_data_error, handle_incoming_data,
  receive_data,
}
use nest_quickfix.Acceptor.Guard.{AcceptorConfig, validate_logon, valid}
use nest_quickfix.Acceptor.Handler.{build_session_config, handle_logon}
use nest_quickfix.Acceptor.Admission.{Authenticates, validate_logon-eq-valid}
use nest_quickfix.Acceptor.Admitted.{IsAdmitted, handle_logon-IsAdmitted}

-- A logon as a peer may send it to the acceptor: it can be written and read back, and it has what
-- the acceptor asks for.
pub record IsLogonTo (target : Text) (m : Message) : Type 0 where
  pub sendable : IsSendable m
  pub type : value_text (get_field m msg_type) ≡ text "A"
  pub interval : Has m heart_bt_int
  pub encryption : Has m encrypt_method
  pub addressed : value_text (get_field m target_comp_id) ≡ target

-- The id that the acceptor gives to the session of a logon.
abbrev pub id_of : Message → Text
id_of m =
    value_text (get_field m sender_comp_id)
    ++ (text "->" ++ value_text (get_field m target_comp_id))

module _ (m : Message) (s : IsSendable m) where
  pub required-received : All (Has (received m)) required_fields
  required-received =
      let (b, (t, (f, (g, (n, (d, _)))))) = s.required in
      let has = has_field-received m in
      (
        has begin_string b (λ e. cc) (λ e. cc),
        (
          has msg_type t (λ e. cc) (λ e. cc),
          (
            has sender_comp_id f (λ e. cc) (λ e. cc),
            (
              has target_comp_id g (λ e. cc) (λ e. cc),
              (has msg_seq_num n (λ e. cc) (λ e. cc), (has sending_time d (λ e. cc) (λ e. cc), tt)),
            ),
          ),
        ),
      )

  pub type-received : get_field (received m) msg_type ≡ string (value_text (get_field m msg_type))
  type-received =
      let (_, (t, _)) = s.required in get_field-received m msg_type t (λ e. cc) (λ e. cc)

  pub target-received :
      get_field (received m) target_comp_id ≡ string (value_text (get_field m target_comp_id))
  target-received =
      let (_, (_, (_, (g, _)))) = s.required in
      get_field-received m target_comp_id g (λ e. cc) (λ e. cc)

  pub sender-received :
      get_field (received m) sender_comp_id ≡ string (value_text (get_field m sender_comp_id))
  sender-received =
      let (_, (_, (f, _))) = s.required in get_field-received m sender_comp_id f (λ e. cc) (λ e. cc)

  session_id_of-received :
      (config : AcceptorConfig) → session_id_of (build_session_config config (received m)) ≡ id_of m
  unfolding build_session_config value_text
  session_id_of-received config = rw (sender-received, target-received) refl

  process_data-print : process_data (print m) ≡ received m ∷ []
  process_data-print =
      ap process_data (sym (append-nil (print m))) ∙ process_data-stream (m ∷ []) (s, tt)

valid-received :
    (config : AcceptorConfig) (m : Message) (w v : World)
    → IsLogonTo config.target_comp_id m
    → Authenticates config.auth (received m) w v
    → validate_logon config (received m) w ≡ (ok valid, v)
valid-received config m w v l a =
    let (_, (_, (f, (g, _)))) = required-received m l.sendable in
    (validate_logon-eq-valid config (received m) w v).1 (
      (
        f,
        (
          g,
          (
            has_field-received m heart_bt_int l.interval (λ e. cc) (λ e. cc),
            (has_field-received m encrypt_method l.encryption (λ e. cc) (λ e. cc), tt),
          ),
        ),
      ),
      rw (target-received m l.sendable, l.addressed) (eq_refl config.target_comp_id),
      a,
    )

is_logon-received :
    (target : Text) (m : Message) → IsLogonTo target m → is_type MsgType.logon (received m) ≡ true
is_logon-received target m l = rw (type-received m l.sendable, l.type) refl

module _ (app : App) (config : AcceptorConfig) (metadata : List FixMetadata) (k : ℕ) (m : Message)
    (w : World) where
  returned :
      (x : Result (Unit {0}) × World) (h : Error → Exec World (Unit {0}))
      → x.0 ≡ ok tt
      → handle x h ≡ x
  returned (ok tt, u) h e = refl
  returned (err y, u) h e = absurd (cc)

  then_nothing :
      (x : Result (Unit {0}) × World)
      → x.0 ≡ ok tt
      → continue x (λ _. process_messages app config metadata k []) ≡ x
  unfolding process_messages pure
  then_nothing (ok tt, u) e = refl
  then_nothing (err y, u) e = absurd (cc)

  dispatch-received :
      IsLogonTo config.target_comp_id m
      → dispatch app config metadata k (received m) w
        ≡ handle_logon app config metadata k (received m) w
  unfolding dispatch
  dispatch-received l = rw (is_logon-received config.target_comp_id m l) refl

  process_message-received :
      IsLogonTo config.target_comp_id m
      → (handle_logon app config metadata k (received m) w).0 ≡ ok tt
      → process_message app config metadata k (received m) w
        ≡ handle_logon app config metadata k (received m) w
  unfolding process_message ◌>>=◌ lift catch
  process_message-received l e =
      let (_, (t, _)) = required-received m l.sendable in
      rw (t, to_string_lem (received m) (required-received m l.sendable), dispatch-received l)
        (returned _ _ e)

  receive_data-print :
      IsLogonTo config.target_comp_id m
      → is_attached (w.sockets k).listeners ≡ true
      → (handle_logon app config metadata k (received m) w).0 ≡ ok tt
      → receive_data app config metadata k (print m) w
        ≡ handle_logon app config metadata k (received m) w
  unfolding receive_data handle_incoming_data process_messages ◌>>=◌ catch
  receive_data-print l listening e =
      rw (listening, process_data-print m l.sendable, process_message-received l e)
        (ap (λ x. handle x (λ y. handle_data_error k))
            (then_nothing (handle_logon app config metadata k (received m) w) e)
          ∙ returned (handle_logon app config metadata k (received m) w) (λ y. handle_data_error k)
              e)

-- The bytes of a logon that can be written, names the acceptor as its target and has the fields that
-- a logon must have, once they come over a socket that the acceptor listens to, that is writable and
-- takes the reply, are let in, if the application accepts them where it authenticates, its functions
-- do nothing to the world, the parties have no session yet and the limit on sessions is not reached:
-- no error is thrown, and `getSession` finds, for the sender and the target that the peer wrote, a
-- new session that is LOGGED_ON, is bound to that socket, has the handlers of the application and has
-- used one sequence number.
pub receive_data-IsAdmitted :
    (app : App) (config : AcceptorConfig) (metadata : List FixMetadata) (k : ℕ) (m : Message)
    (w v : World)
    → IsPassive app
    → IsLogonTo config.target_comp_id m
    → Authenticates config.auth (received m) w v
    → is_attached (w.sockets k).listeners ≡ true
    → get_session
        (value_text (get_field m sender_comp_id))
        (value_text (get_field m target_comp_id))
        v
      ≡ none
    → is_full v ≡ false
    → (v.sockets k).writable ≡ true
    → accepts (v.sockets k).answers ≡ true
    → IsAdmitted config metadata k (received m) v (receive_data app config metadata k (print m) w)
      × (get_session
            (value_text (get_field m sender_comp_id))
            (value_text (get_field m target_comp_id))
            (receive_data app config metadata k (print m) w).1
          ≡ some v.next_object)
unfolding get_session get_session_by_id
receive_data-IsAdmitted app config metadata k m w v p l a listening unknown room writable taken =
    let id = session_id_of-received m l.sendable config in
    let done =
      handle_logon-IsAdmitted app config metadata k (received m) w v p
        (is_logon-received config.target_comp_id m l) (valid-received config m w v l a)
        (rw id unknown) room writable taken in
    rw (receive_data-print app config metadata k m w l listening done.0) (done, rw (← id) done.1)
