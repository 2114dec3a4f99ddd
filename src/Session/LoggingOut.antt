-- ===== src/Session/LoggingOut.antt =====
-- `logout` of src/session/session.ts, for an application whose functions do nothing to the world.
use nest_quickfix.Prelude.{
  ℕ, ◌+◌, false, ◌≡◌, ◌≢◌, refl, sym, ap, ◌∙◌, [], ◌∷◌, ◌++◌, Bool-cases, inl, inr, if◌then◌else◌,
  arith,
}
use nest_quickfix.Text.{text}
use nest_quickfix.Result.{Result, ok, err, error}
use nest_quickfix.Message.{Value}
use nest_quickfix.Message.Templates.{logout_message}
use nest_quickfix.World.{World, Session, SessionState, SessionEvent, emitted}
use nest_quickfix.World.Exec.{Exec, catch, handle, pure, gets, modify, ◌>>=◌, ◌>>◌}
use nest_quickfix.World.Store.{update-same, put_session, set_state, note}
use nest_quickfix.Session.{App, logout, end_socket, is_state}
use nest_quickfix.Session.Registry.{remove_session}
use nest_quickfix.Session.Sending.{send_message}
use nest_quickfix.Session.Sent.{objects-send_message}
use nest_quickfix.Session.Local.{registry-send_message, rooms-send_message}
use nest_quickfix.Session.Ending.{IsPassive, ended_session}
use nest_quickfix.Rooms.Consistency.{IsConsistent}
use nest_quickfix.Session.LoggedOut.{
  IsLoggedOut, disconnected, shut, handle_disconnect_passive, object-disconnected,
  removed-IsLoggedOut, socket-shut, socket-disconnected,
}

-- A session that is DISCONNECTED cannot be logged out: `logout` throws, and changes nothing.
pub logout_refused :
    (app : App) (r : ℕ) (reason : Value) (w : World)
    → (w.objects r).state ≡ SessionState.disconnected
    → logout app r reason w ≡ (err (error (text "Session already disconnected")), w)
unfolding logout ◌>>=◌
logout_refused app r reason w h = rw h refl

-- What the `try` around the sending leaves, whether or not it throws.
tried : (x : Result (Unit {0}) × World) → handle x (λ e. pure tt) ≡ (ok tt, x.1)
unfolding pure
tried (ok y, u) = refl
tried (err e, u) = refl

module _ (app : App) (r : ℕ) (reason : Value) (w : World) where
  abbrev leaving : World
  leaving = put_session r (record (w.objects r) { state = SessionState.logging_out }) w

  abbrev asked : World
  asked = (send_message r (logout_message reason) leaving).1

  abbrev told : World
  told = record asked { log = asked.log ++ emitted r SessionEvent.logging_out ∷ [] }

  -- The socket is ended only if it can be written to.
  abbrev shut_if : World → World
  shut_if u = if (u.sockets (w.objects r).socket).writable then shut (w.objects r).socket u else u

  send_caught :
      catch (send_message r (logout_message reason)) (λ e. pure tt) leaving ≡ (ok tt, asked)
  unfolding catch
  send_caught = tried (send_message r (logout_message reason) leaving)

  -- What `logout` does once the session is disconnected.
  ending : Exec World (Unit {0})
  ending = do
    writable ← gets (λ u. (u.sockets (w.objects r).socket).writable)
    if writable then end_socket (w.objects r).socket else pure tt
    modify (remove_session (w.objects r).session_id)
    note (emitted r SessionEvent.logged_out)

  ending_lem :
      (u : World)
      → ending u ≡ (
        ok tt,
        let v = remove_session (w.objects r).session_id (shut_if u) in
            record v { log = v.log ++ emitted r SessionEvent.logged_out ∷ [] },
      )
  unfolding ending ◌>>=◌ note end_socket
  ending_lem u = elim (Bool-cases (u.sockets (w.objects r).socket).writable) [
    | inl e ↦ rw e refl
    | inr e ↦ rw e refl
  ]

  logout_lem :
      IsPassive app
      → (w.objects r).state ≢ SessionState.disconnected
      → logout app r reason w ≡ ending (disconnected r told)
  unfolding logout ending ◌>>=◌ set_state note
  logout_lem p n =
      rw (not_disconnected, send_caught) (rw (handle_disconnect_passive app r told p) refl)
    where
      not_disconnected : is_state (w.objects r).state SessionState.disconnected ≡ false
      not_disconnected = ground (arith, n)

  object-told : told.objects r ≡ record (w.objects r) {
    state = SessionState.logging_out;
    next_outgoing_seq_num = (w.objects r).next_outgoing_seq_num + 1;
  }
  object-told =
      ap (λ f. f r) (objects-send_message r (logout_message reason) leaving)
      ∙ update-same leaving.objects r _
      ∙ ap (λ (s : Session). record s { next_outgoing_seq_num = s.next_outgoing_seq_num + 1 })
          (update-same w.objects r _)

  -- Either way the socket cannot be written to.
  shut_if_lem :
      (u : World)
      → (((shut_if u).sockets (w.objects r).socket).writable ≡ false)
        × (((shut_if u).sockets (w.objects r).socket).listeners
            ≡ (u.sockets (w.objects r).socket).listeners)
        × ((shut_if u).objects ≡ u.objects)
        × ((shut_if u).registry ≡ u.registry)
        × ((shut_if u).rooms ≡ u.rooms)
  shut_if_lem u = elim (Bool-cases (u.sockets (w.objects r).socket).writable) [
    | inl e ↦
        let same = socket-shut (w.objects r).socket u in
        rw e (ap (λ s. s.writable) same, ap (λ s. s.listeners) same, refl, refl, refl)
    | inr e ↦ rw e (e, refl, refl, refl, refl)
  ]

-- The object of a session that has sent a logout and was ended.
abbrev pub left_session : Session → Session
left_session s = ended_session (record s { next_outgoing_seq_num = s.next_outgoing_seq_num + 1 })

-- If the application's functions do nothing to the world, the session is not DISCONNECTED and the
-- maps of the rooms are consistent, `logout` returns, whether or not its message can be sent: the
-- session is DISCONNECTED with its timers stopped, the message has used up a sequence number, and
-- nothing else of its object changed; its id, and no other, is out of the registry; it is in no
-- room if it was registered, and all others are in the rooms that they were in; its socket cannot
-- be written to and has no listeners.
pub logout-IsLoggedOut :
    (app : App) (r : ℕ) (reason : Value) (w : World)
    → IsPassive app
    → (w.objects r).state ≢ SessionState.disconnected
    → IsConsistent w.rooms
    → ((logout app r reason w).0 ≡ ok tt)
      × IsLoggedOut r (left_session (w.objects r)) w (logout app r reason w).1
logout-IsLoggedOut app r reason w p n tidy =
    let k = (w.objects r).socket in
    let sent = told app r reason w in
    let object = object-told app r reason w in
    let (closed, same, objects, registry, rooms) =
      shut_if_lem app r reason w (disconnected r sent) in
    rw (logout_lem app r reason w p n, ending_lem app r reason w (disconnected r sent))
      (
        refl,
        removed-IsLoggedOut r (left_session (w.objects r)) w
            (shut_if app r reason w (disconnected r sent)) _
            (ap (λ f. f r) objects ∙ object-disconnected r sent ∙ ap ended_session object)
            (registry ∙ registry-send_message r (logout_message reason) (leaving app r reason w))
            (rooms ∙ rooms-send_message r (logout_message reason) (leaving app r reason w)) closed
            (same
              ∙ ap (λ j. ((disconnected r sent).sockets j).listeners)
                  (sym (ap (λ (s : Session). s.socket) object))
              ∙ ap (λ s. s.listeners) (socket-disconnected r sent))
            tidy refl,
      )
