-- ===== src/Session/Stable.antt =====
-- What the methods of a session keep: any property of the world that survives the few ways in which
-- they change it.
use nest_quickfix.Prelude.{
  ℕ, ◌≤◌, Bool, true, false, ◌≡◌, refl, Option, none, some, List, [], ◌∷◌, ◌++◌, arith,
  if◌then◌else◌,
}
use nest_quickfix.Text.{Text}
use nest_quickfix.Result.{Error}
use nest_quickfix.Message.{Message, Value, get_field}
use nest_quickfix.Fields.{msg_type}
use nest_quickfix.Rooms.{join, leave}
use nest_quickfix.World.{World, Session, SessionState, Socket, Handler, MessageHandler, Event}
use nest_quickfix.World.Exec.{pure, modify}
use nest_quickfix.World.Exec.Keeps.{Keeps, keeps_rules, Keeps-bind}
use nest_quickfix.World.Store.{put_session, put_socket, set_state, note}
use nest_quickfix.Session.Registry.{remove_session}
use nest_quickfix.Session.Sending.{send_message, transmit, add_required_fields, write, answer}
use nest_quickfix.Session.{
  App, logon, logout, handle_disconnect, handle_logon, handle_logout, handle_heartbeat,
  handle_session_message, handle_message, heartbeat_tick, call_each, call_message_handlers, wants,
  clear_timers, clear_test_request_timer, remove_all_listeners, end_socket,
}

abbrev pub is_connected : SessionState → Bool
is_connected SessionState.connected = true
is_connected _ = false

-- A session object that may stand in for another: it has its id and its socket, its next sequence
-- number is no less, and it is not CONNECTED unless the other is.
pub record Succeeds (s t : Session) : Type 0 where
  pub id : s.session_id ≡ t.session_id
  pub socket : s.socket ≡ t.socket
  pub seq : t.next_outgoing_seq_num ≤ s.next_outgoing_seq_num
  pub state : is_connected t.state ≡ false → is_connected s.state ≡ false

-- The property survives what the methods of a session do: an object with a successor in its place,
-- a socket that has changed, an entry of the log, a session removed, a room joined or left.
pub record IsStable (I : World → Type 0) : Type 0 where
  pub put :
      (r : ℕ) (s : Session) (w : World) → Succeeds s (w.objects r) → I w → I (put_session r s w)
  pub socket : (k : ℕ) (s : Socket) (w : World) → I w → I (put_socket k s w)
  pub log : (e : Event) (w : World) → I w → I (record w { log = w.log ++ e ∷ [] })
  pub remove : (id : Text) (w : World) → I w → I (remove_session id w)
  pub entered : (room id : Text) (w : World) → I w → I (record w { rooms = join room id w.rooms })
  pub exited : (room id : Text) (w : World) → I w → I (record w { rooms = leave room id w.rooms })

module _ {I : World → Type 0} (stable : IsStable I) where
  -- The object at hand, changed in parts that do not matter.
  put-Keeps :
      (f : World → Session → Session) (r : ℕ)
      → ((w : World) (s : Session) → Succeeds (f w s) s)
      → Keeps I (modify (λ w. put_session r (f w (w.objects r)) w))
  unfolding modify
  put-Keeps f r same = record { after = λ w h. stable.put r _ w (same w (w.objects r)) h }

  set_state-Keeps :
      (r : ℕ) (state : SessionState) → is_connected state ≡ false → Keeps I (set_state r state)
  unfolding set_state modify
  set_state-Keeps r state n = record {
    after = λ w h.
        stable.put r _ w (record { id = refl; socket = refl; seq = omega arith; state = λ _. n }) h;
  }

  pub note-Keeps : (e : Event) → Keeps I (note e)
  unfolding note modify
  note-Keeps e = record { after = λ w h. stable.log e w h }

  add_required_fields-Keeps : (r : ℕ) (m : Message) → Keeps I (add_required_fields r m)
  unfolding add_required_fields
  add_required_fields-Keeps r m = record {
    after = λ w h.
        stable.put r _ w (record { id = refl; socket = refl; seq = omega arith; state = λ e. e }) h;
  }

  answer-Keeps :
      (k : ℕ) (raw : Text) (answers : List (Option Error)) (w : World)
      → I w
      → I (answer k raw answers w).1
  unfolding answer note modify
  answer-Keeps k raw [] w h = stable.log _ w h
  answer-Keeps k raw (none ∷ answers) w h = stable.log _ _ (stable.socket k _ w h)
  answer-Keeps k raw (some e ∷ answers) w h = stable.socket k _ w h

  pub write-Keeps : (k : ℕ) (raw : Text) → Keeps I (write k raw)
  unfolding write
  write-Keeps k raw = record { after = λ w h. answer-Keeps k raw (w.sockets k).answers w h }

  transmit-Keeps : (r : ℕ) (m : Message) → Keeps I (transmit r m)
  unfolding transmit
  transmit-Keeps r m = search (keeps_rules, write-Keeps) depth 12

  pub send_message-Keeps : (r : ℕ) (m : Message) → Keeps I (send_message r m)
  unfolding send_message
  send_message-Keeps r m = search (keeps_rules, add_required_fields-Keeps, transmit-Keeps) depth 12

  pub remove_session-Keeps : (t : Text) → Keeps I (modify (remove_session t))
  unfolding modify
  remove_session-Keeps t = record { after = λ w h. stable.remove t w h }

  clear_timers-Keeps : (r : ℕ) → Keeps I (clear_timers r)
  unfolding clear_timers modify
  clear_timers-Keeps r = record {
    after = λ w h.
        stable.put r _ w (record { id = refl; socket = refl; seq = omega arith; state = λ e. e }) h;
  }

  remove_all_listeners-Keeps : (k : ℕ) → Keeps I (remove_all_listeners k)
  unfolding remove_all_listeners modify
  remove_all_listeners-Keeps k = record { after = λ w h. stable.socket k _ w h }

  pub put_socket-Keeps :
      (k : ℕ) (f : Socket → Socket) → Keeps I (modify (λ w. put_socket k (f (w.sockets k)) w))
  unfolding modify
  put_socket-Keeps k f = record { after = λ w h. stable.socket k _ w h }

  end_socket-Keeps : (k : ℕ) → Keeps I (end_socket k)
  unfolding end_socket
  end_socket-Keeps k =
      Keeps-bind _ _ (put_socket-Keeps k (λ s. record s { writable = false })) (λ _. note-Keeps _)

  ruleset stable_rules = (
    keeps_rules, refl, set_state-Keeps, note-Keeps, send_message-Keeps, remove_session-Keeps,
    clear_timers-Keeps, remove_all_listeners-Keeps, end_socket-Keeps,
  )

  pub logon-Keeps : (r : ℕ) → Keeps I (logon r)
  unfolding logon
  logon-Keeps r = search stable_rules depth 12

  touch-Keeps :
      (r : ℕ)
      → Keeps I (
          modify (λ w. put_session r (record (w.objects r) { last_heartbeat_time = some w.now }) w))
  touch-Keeps r =
      put-Keeps (λ w s. record s { last_heartbeat_time = some w.now }) r
        λ w s. record { id = refl; socket = refl; seq = omega arith; state = λ e. e }

  pub heartbeat_tick-Keeps : (r : ℕ) → Keeps I (heartbeat_tick r)
  unfolding heartbeat_tick
  heartbeat_tick-Keeps r = search stable_rules depth 12

  -- An application whose functions keep the property.
  module _ (app : App)
      (harmless : (h : Handler) (r : ℕ) (m : Option Message) → Keeps I (app.call h r m)) where
    call_each-Keeps :
        (hs : List Handler) (r : ℕ) (m : Option Message) → Keeps I (call_each app hs r m)
    unfolding call_each
    call_each-Keeps [] r m = search stable_rules
    call_each-Keeps (h ∷ hs) r m = Keeps-bind _ _ (harmless h r m) (λ _. call_each-Keeps hs r m)

    call_wanted-Keeps :
        (wanted : Bool) (h : Handler) (r : ℕ) (m : Message)
        → Keeps I (if wanted then app.call h r (some m) else pure tt)
    call_wanted-Keeps wanted h r m = search (stable_rules, harmless)

    call_message_handlers-Keeps :
        (hs : List MessageHandler) (r : ℕ) (m : Message)
        → Keeps I (call_message_handlers app hs r m)
    unfolding call_message_handlers
    call_message_handlers-Keeps [] r m = search stable_rules
    call_message_handlers-Keeps (h ∷ hs) r m =
        Keeps-bind _ _
          (call_wanted-Keeps (wants app h.msg_type (get_field m msg_type)) h.handler r m)
          (λ _. call_message_handlers-Keeps hs r m)

    pub handle_disconnect-Keeps : (r : ℕ) → Keeps I (handle_disconnect app r)
    unfolding handle_disconnect
    handle_disconnect-Keeps r = search (stable_rules, call_each-Keeps) depth 12

    pub logout-Keeps : (r : ℕ) (reason : Value) → Keeps I (logout app r reason)
    unfolding logout
    logout-Keeps r reason = search (stable_rules, handle_disconnect-Keeps) depth 12

    handle_logon-Keeps : (r : ℕ) (m : Message) → Keeps I (handle_logon app r m)
    unfolding handle_logon
    handle_logon-Keeps r m = search (stable_rules, call_each-Keeps) depth 12

    handle_logout-Keeps : (r : ℕ) (m : Message) → Keeps I (handle_logout app r m)
    unfolding handle_logout
    handle_logout-Keeps r m =
        search (stable_rules, call_each-Keeps, handle_disconnect-Keeps) depth 12

    clear_test_request_timer-Succeeds :
        (b : Bool) (s t : Session)
        → Succeeds s t
        → Succeeds (if b then clear_test_request_timer app s else s) t
    unfolding clear_test_request_timer
    clear_test_request_timer-Succeeds b s t p = record {
      id = ground (arith, p.id);
      socket = ground (arith, p.socket);
      seq = ground (arith, p.seq);
      state = λ n. ground (arith, p.state n);
    }

    handle_heartbeat-Keeps : (r : ℕ) (m : Message) → Keeps I (handle_heartbeat app r m)
    unfolding handle_heartbeat modify
    handle_heartbeat-Keeps r m = record {
      after = λ w h.
          stable.put r _ w
            (clear_test_request_timer-Succeeds _ _ _
              (record { id = refl; socket = refl; seq = omega arith; state = λ n. n }))
            h;
    }

    handle_session_message-Keeps : (r : ℕ) (m : Message) → Keeps I (handle_session_message app r m)
    unfolding handle_session_message
    handle_session_message-Keeps r m =
        search (stable_rules, handle_logon-Keeps, handle_logout-Keeps, handle_heartbeat-Keeps) depth
          12

    pub handle_message-Keeps : (r : ℕ) (m : Message) → Keeps I (handle_message app r m)
    unfolding handle_message
    handle_message-Keeps r m =
        search
          (stable_rules, handle_session_message-Keeps, call_message_handlers-Keeps, touch-Keeps)
          depth 12
