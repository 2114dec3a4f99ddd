-- ===== src/Session/LoggedOn.antt =====
-- What a session is after a logon has come in, for an application whose functions do nothing to the
-- world.
use nest_quickfix.Prelude.{
  ℕ, ◌+◌, true, false, ◌≡◌, refl, sym, ap, ap₂, ◌∙◌, none, some, List, [], ◌∷◌, ◌++◌, Bool-cases,
  inl, inr,
}
use nest_quickfix.Text.Integer.{nat}
use nest_quickfix.Text.{text}
use nest_quickfix.Result.{Result, ok, err, Error}
use nest_quickfix.Fields.{msg_type, heart_bt_int, encrypt_method}
use nest_quickfix.Fields.MsgType
use nest_quickfix.Message.{
  Message, Value, string, numeric, get_field, has_field, new_message, set_fields, set_field,
}
use nest_quickfix.Message.Templates.{logon_message, field}
use nest_quickfix.World.{
  World, Session, SessionState, SessionEvent, Handlers, MessageHandler, emitted,
}
use nest_quickfix.World.Exec.{Exec, continue, handle, catch, pure, gets, modify, ◌>>=◌, ◌>>◌}
use nest_quickfix.World.Store.{update, update-same, put_session, set_state, note}
use nest_quickfix.Session.{
  App, handle_logon, handle_message, handle_session_message, call_each, call_message_handlers,
  is_type, wants,
}
use nest_quickfix.Session.Sending.{send_message}
use mathlib.Core.Path.{subst}
use nest_quickfix.OrderedMap
use nest_quickfix.Message.Laws.{IsMessage, Has, new_message-IsMessage}
use nest_quickfix.Session.Sent.{objects-send_message}
use nest_quickfix.Session.Success.{accepts, send_message_succeeds}
use nest_quickfix.Session.Local.{registry-send_message, rooms-send_message, now-send_message}
use nest_quickfix.Session.Ending.{IsPassive, call_each_passive}

call_message_handlers_passive :
    (app : App) (hs : List MessageHandler) (r : ℕ) (m : Message) (w : World)
    → IsPassive app
    → call_message_handlers app hs r m w ≡ (ok tt, w)
unfolding call_message_handlers ◌>>=◌ pure
call_message_handlers_passive app [] r m w p = refl
call_message_handlers_passive app (h ∷ hs) r m w p =
    elim (Bool-cases (wants app h.msg_type (get_field m msg_type))) [
      | inl t ↦
          rw (t, p.returns h.handler r (some m) w) (call_message_handlers_passive app hs r m w p)
      | inr t ↦ rw t (call_message_handlers_passive app hs r m w p)
    ]

-- The session's object from its state LOGGED_ON to the end of the reply.
abbrev pub replying : ℕ → World → World
replying r w = put_session r (record (w.objects r) { state = SessionState.logged_on }) w

abbrev reply : ℕ → World → Message
reply r w =
    logon_message (numeric ((replying r w).objects r).config.heartbeat_interval) (numeric (nat 0))
      false

abbrev logged : ℕ → World → World
logged r w = record w { log = w.log ++ emitted r SessionEvent.logged_on ∷ [] }

-- The end of `handleLogon`, from the reply on.
announce :
    (app : App) (r : ℕ) (s : Handlers) (m : Message) (x : Result (Unit {0}) × World)
    (h : Error → Exec World (Unit {0}))
    → IsPassive app
    → x.0 ≡ ok tt
    → handle
        (continue x (λ y.
          (call_each app s.connected r none
            >> (call_each app s.logon r (some m) >> note (emitted r SessionEvent.logged_on)))))
        h
      ≡ (ok tt, logged r x.1)
unfolding ◌>>=◌ note
announce app r s m (ok y, u) h p e =
    rw (call_each_passive app s.connected r none u p, call_each_passive app s.logon r (some m) u p)
      refl
announce app r s m (err y, u) h p e = cc

handle_logon_lem :
    (app : App) (r : ℕ) (m : Message) (w : World)
    → IsPassive app
    → (send_message r (reply r w) (replying r w)).0 ≡ ok tt
    → handle_logon app r m w ≡ (ok tt, logged r (send_message r (reply r w) (replying r w)).1)
unfolding handle_logon catch ◌>>=◌ set_state
handle_logon_lem app r m w p e =
    announce app r ((replying r w).objects r).handlers m (send_message r (reply r w) (replying r w))
      _ p e

-- The object of a session that has replied to a logon at the time `now`.
abbrev pub logged_on_session : ℕ → Session → Session
logged_on_session now s = record s {
  state = SessionState.logged_on;
  next_outgoing_seq_num = s.next_outgoing_seq_num + 1;
  last_heartbeat_time = some now;
}

-- The end of `handleMessage`.
handled :
    (app : App) (r : ℕ) (m : Message) (u : World)
    → IsPassive app
    → ((gets (λ w. w.objects r) >>= λ s.
          (call_message_handlers app s.handlers.message r m
            >> modify
                (λ w. put_session r (record (w.objects r) { last_heartbeat_time = some w.now }) w)))
        u)
      ≡ (ok tt, put_session r (record (u.objects r) { last_heartbeat_time = some u.now }) u)
unfolding ◌>>=◌ gets modify
handled app r m u p =
    rw (call_message_handlers_passive app (u.objects r).handlers.message r m u p) refl

handle_message_lem :
    (app : App) (r : ℕ) (m : Message) (w : World)
    → IsPassive app
    → is_type MsgType.logon m ≡ true
    → (send_message r (reply r w) (replying r w)).0 ≡ ok tt
    → handle_message app r m w ≡ (
      ok tt,
      let u = logged r (send_message r (reply r w) (replying r w)).1 in
          put_session r (record (u.objects r) { last_heartbeat_time = some u.now }) u,
    )
unfolding handle_message handle_session_message ◌>>=◌
handle_message_lem app r m w p t e =
    rw (t, handle_logon_lem app r m w p e)
      (handled app r m (logged r (send_message r (reply r w) (replying r w)).1) p)

logon_message-IsMessage : (v e : Value) → IsMessage (logon_message v e false)
unfolding logon_message
logon_message-IsMessage v e =
    new_message-IsMessage
      (field msg_type (string (text "A")) ∷ field heart_bt_int v ∷ field encrypt_method e ∷ [])

logon_message-Has_type : (v e : Value) → Has (logon_message v e false) msg_type
unfolding logon_message new_message set_fields has_field OrderedMap.has OrderedMap.set set_field
logon_message-Has_type v e = refl

socket-replying : (r : ℕ) (w : World) → ((replying r w).objects r).socket ≡ (w.objects r).socket
socket-replying r w = ap (λ (s : Session). s.socket) (update-same w.objects r _)

reply_succeeds :
    (r : ℕ) (w : World)
    → (w.sockets (w.objects r).socket).writable ≡ true
    → accepts (w.sockets (w.objects r).socket).answers ≡ true
    → (send_message r (reply r w) (replying r w)).0 ≡ ok tt
reply_succeeds r w writable taken =
    send_message_succeeds r (reply r w) (replying r w) (logon_message-IsMessage _ _)
      (logon_message-Has_type _ _)
      (subst (λ k. (w.sockets k).writable ≡ true) (sym (socket-replying r w)) writable)
      (subst (λ k. accepts (w.sockets k).answers ≡ true) (sym (socket-replying r w)) taken)

object_logged_on :
    (r : ℕ) (w : World)
    → let u = logged r (send_message r (reply r w) (replying r w)).1 in
      update u.objects r (record (u.objects r) { last_heartbeat_time = some u.now }) r
      ≡ logged_on_session w.now (w.objects r)
object_logged_on r w =
    let u = logged r (send_message r (reply r w) (replying r w)).1 in
    update-same u.objects r (record (u.objects r) { last_heartbeat_time = some u.now })
    ∙ ap₂ (λ (s : Session) (n : ℕ). record s { last_heartbeat_time = some n })
        (ap (λ o. o r) (objects-send_message r (reply r w) (replying r w))
          ∙ update-same (replying r w).objects r _
          ∙ ap (λ (s : Session). record s { next_outgoing_seq_num = s.next_outgoing_seq_num + 1 })
              (update-same w.objects r _))
        (now-send_message r (reply r w) (replying r w))

-- If the application's functions do nothing to the world, and the session's socket is writable and
-- takes the reply, `handleMessage` of a logon returns, whatever the state of the session was: it is
-- LOGGED_ON, the reply has used up one sequence number, the time is noted as that of the last
-- heartbeat, nothing else of the object has changed, and no registration or room has.
pub handle_message_logon :
    (app : App) (r : ℕ) (m : Message) (w : World)
    → IsPassive app
    → is_type MsgType.logon m ≡ true
    → (w.sockets (w.objects r).socket).writable ≡ true
    → accepts (w.sockets (w.objects r).socket).answers ≡ true
    → ((handle_message app r m w).0 ≡ ok tt)
      × ((handle_message app r m w).1.objects r ≡ logged_on_session w.now (w.objects r))
      × ((handle_message app r m w).1.registry ≡ w.registry)
      × ((handle_message app r m w).1.rooms ≡ w.rooms)
handle_message_logon app r m w p t writable taken =
    let e = reply_succeeds r w writable taken in
    rw (handle_message_lem app r m w p t e) (
      refl,
      object_logged_on r w,
      registry-send_message r (reply r w) (replying r w),
      rooms-send_message r (reply r w) (replying r w),
    )
