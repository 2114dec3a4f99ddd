-- ===== src/Acceptor/Stream.antt =====
-- A chunk of many messages: the parser and the acceptor together.
use nest_quickfix.Prelude.{
  ℕ, ◌≡◌, refl, ap, ◌∙◌, true, List, [], ◌∷◌, All, map, ◌==◌, if◌then◌else◌, Bool-cases, inl, inr,
}
use nest_quickfix.Text.{text, text_Eq}
use nest_quickfix.Result.{Result, ok, err}
use nest_quickfix.Fields.{sender_comp_id, target_comp_id, msg_type}
use nest_quickfix.Message.{Message, value_text, get_field}
use nest_quickfix.Message.Laws.{to_string_lem}
use nest_quickfix.Message.Sendable.{IsSendable}
use nest_quickfix.Parser.RoundTrip.{received, stream, process_data-stream}
use nest_quickfix.World.{World}
use nest_quickfix.World.Exec.{pure, lift, catch, handle, ◌>>=◌}
use nest_quickfix.Session.{App}
use nest_quickfix.Manager.{get_session, get_session_from_logon}
use nest_quickfix.Metadata.{FixMetadata}
use nest_quickfix.Acceptor.{
  is_attached, dispatch, process_message, process_messages, handle_incoming_data, receive_data,
}
use nest_quickfix.Acceptor.Guard.{AcceptorConfig}
use nest_quickfix.Acceptor.Handler.{handle_logon, handle_non_logon_message, route}
use nest_quickfix.Acceptor.Wired.{
  required-received, type-received, target-received, sender-received,
}

-- What a `catch` that does nothing leaves.
caught : (x : Result (Unit {0}) × World) → handle x (λ e. pure tt) ≡ (ok tt, x.1)
unfolding pure
caught (ok y, u) = refl
caught (err e, u) = refl

module _ (app : App) (config : AcceptorConfig) (metadata : List FixMetadata) (k : ℕ) where
  -- One message as the peer wrote it: a logon is handled as such, and any other message goes to the
  -- session that the registry has at that time for the parties that it names.
  abbrev pub handled_world : Message → World → World
  handled_world m w =
      if value_text (get_field m msg_type) == text "A"
      then (handle_logon app config metadata k (received m) w).1
      else (route app config metadata
          (get_session (value_text (get_field m sender_comp_id))
            (value_text (get_field m target_comp_id)) w)
          k (received m) w).1

  abbrev pub handled_each : List Message → World → World
  handled_each [] w = w
  handled_each (m ∷ ms) w = handled_each ms (handled_world m w)

  dispatch-received :
      (m : Message) (w : World)
      → IsSendable m
      → (dispatch app config metadata k (received m) w).1 ≡ handled_world m w
  unfolding dispatch handle_non_logon_message get_session_from_logon value_text ◌>>=◌
  dispatch-received m w s = elim (Bool-cases (value_text (get_field m msg_type) == text "A")) [
    | inl e ↦ rw (type-received m s, e) refl
    | inr e ↦ rw (type-received m s, e) (rw (sender-received m s, target-received m s) refl)
  ]

  process_message-received :
      (m : Message) (w : World)
      → IsSendable m
      → process_message app config metadata k (received m) w ≡ (ok tt, handled_world m w)
  unfolding process_message ◌>>=◌ lift catch
  process_message-received m w s =
      let (_, (t, _)) = required-received m s in
      rw (t, to_string_lem (received m) (required-received m s))
        (caught (dispatch app config metadata k (received m) w)
          ∙ ap (λ u. (ok tt, u)) (dispatch-received m w s))

  process_messages-received :
      (ms : List Message) (w : World)
      → All IsSendable ms
      → process_messages app config metadata k (map received ms) w ≡ (ok tt, handled_each ms w)
  unfolding process_messages pure ◌>>=◌
  process_messages-received [] w h = refl
  process_messages-received (m ∷ ms) w (s, h) =
      rw (process_message-received m w s) (process_messages-received ms (handled_world m w) h)

-- A chunk that holds the texts of any number of messages that can be written, one behind the other,
-- and that comes over a socket that the acceptor listens to, is handled without an error, message by
-- message and in their order, whatever the handling of one throws: a logon by `handleLogon`, and
-- each other message by the session that the registry then has for the sender and the target that the
-- peer wrote, or by a refusal if it has none.
pub receive_data-stream :
    (app : App) (config : AcceptorConfig) (metadata : List FixMetadata) (k : ℕ) (ms : List Message)
    (w : World)
    → All IsSendable ms
    → is_attached (w.sockets k).listeners ≡ true
    → receive_data app config metadata k (stream ms) w
      ≡ (ok tt, handled_each app config metadata k ms w)
unfolding receive_data handle_incoming_data ◌>>=◌ catch
receive_data-stream app config metadata k ms w h listening =
    rw (listening, process_data-stream ms h, process_messages-received app config metadata k ms w h)
      refl
