-- ===== src/Session/LoggedOut.antt =====
-- The two ways in which a session is logged out, for an application whose functions do nothing to
-- the world.
use nest_quickfix.Prelude.{
  ℕ, not, ◌&&◌, false, ◌≡◌, refl, sym, ap, ◌∙◌, none, some, Option, [], ◌∷◌, ◌++◌, ◌==◌,
  if◌then◌else◌, nat_eq, arith, Bool-cases, inl, inr,
}
use nest_quickfix.Text.{Text, text_Eq}
use nest_quickfix.OrderedMap
use nest_quickfix.OrderedMap.{has}
use nest_quickfix.OrderedMap.Laws.{has-eq-get, is_some}
use nest_quickfix.Result.{ok}
use nest_quickfix.Message.{Message}
use nest_quickfix.World.{World, Session, Socket, SessionState, SessionEvent, emitted, ended}
use nest_quickfix.World.Exec.{modify, ◌>>=◌}
use nest_quickfix.World.Store.{update, update-same, put_session, put_socket, set_state, note}
use nest_quickfix.Rooms.{leave_all_rooms, is_in_room}
use nest_quickfix.Rooms.Consistency.{IsConsistent, is_in_room-leave_all_rooms}
use nest_quickfix.Session.{
  App, handle_logout, handle_disconnect, clear_timers, remove_all_listeners, end_socket,
}
use nest_quickfix.Session.Registry.{remove_session, remove_found}
use nest_quickfix.Session.Bonds.{get-remove_session}
use nest_quickfix.Session.Ending.{IsPassive, call_each_passive, ended_session}

-- The world after `handleDisconnect`.
abbrev stopped : ℕ → World → World
stopped r w =
    let w1 = put_session r (record (w.objects r) { state = SessionState.disconnected }) w in
    put_session r (record (w1.objects r) { heartbeat_timer = false; test_request_timer = false }) w1

abbrev pub disconnected : ℕ → World → World
disconnected r w =
    let u = stopped r w in
    let k = (u.objects r).socket in
    put_socket k (record (u.sockets k) { listeners = [] })
      (record u { log = u.log ++ emitted r SessionEvent.disconnect ∷ [] })

pub handle_disconnect_passive :
    (app : App) (r : ℕ) (w : World)
    → IsPassive app
    → handle_disconnect app r w ≡ (ok tt, disconnected r w)
unfolding handle_disconnect ◌>>=◌ set_state clear_timers remove_all_listeners note
handle_disconnect_passive app r w p = rw (call_each_passive app) refl

pub object-disconnected :
    (r : ℕ) (w : World) → (disconnected r w).objects r ≡ ended_session (w.objects r)
object-disconnected r w =
    update-same
      (put_session r (record (w.objects r) { state = SessionState.disconnected }) w).objects r _
    ∙ ap (λ (s : Session). record s { heartbeat_timer = false; test_request_timer = false })
        (update-same w.objects r _)

-- The objects of the sessions after one was disconnected.
pub objects-disconnected :
    (r q : ℕ) (w : World)
    → (disconnected r w).objects q
      ≡ (if nat_eq q r then ended_session (w.objects q) else w.objects q)
objects-disconnected r q w = elim (Bool-cases (nat_eq q r)) [
  | inl e ↦
      let same : q ≡ r = ground arith in
      ap (disconnected r w).objects same
      ∙ object-disconnected r w
      ∙ ap (λ j. ended_session (w.objects j)) (sym same)
      ∙ ap (λ b. if b then ended_session (w.objects q) else w.objects q) (sym e)
  | inr e ↦ rw e refl
]

pub socket-disconnected :
    (r : ℕ) (w : World)
    → (disconnected r w).sockets (w.objects r).socket
      ≡ record (w.sockets (w.objects r).socket) { listeners = [] }
socket-disconnected r w =
    ap
      (λ (s : Session).
        update w.sockets s.socket (record (w.sockets s.socket) { listeners = [] })
          (w.objects r).socket)
      (object-disconnected r w)
    ∙ update-same w.sockets (w.objects r).socket _

-- The session's object is `s`, its id is out of the registry, which has no other change, it is in no
-- room if it was registered, nobody else has entered or left a room, and its socket is not writable
-- and has no listeners.
pub record IsLoggedOut (r : ℕ) (s : Session) (w u : World) : Type 0 where
  pub object : u.objects r ≡ s
  pub registry :
      (id : Text)
      → OrderedMap.get u.registry id
        ≡ (if (w.objects r).session_id == id then none else OrderedMap.get w.registry id)
  pub rooms :
      (room id : Text)
      → is_in_room room id u.rooms ≡ (
          not (has w.registry (w.objects r).session_id && ((w.objects r).session_id == id))
          && is_in_room room id w.rooms)
  pub shut : (u.sockets (w.objects r).socket).writable ≡ false
  pub deaf : (u.sockets (w.objects r).socket).listeners ≡ []

rooms-remove_found :
    (x : Option ℕ) (id : Text) (w u : World)
    → u.rooms ≡ w.rooms
    → (remove_found x id u).rooms ≡ (remove_found x id w).rooms
unfolding remove_found
rooms-remove_found none id w u e = e
rooms-remove_found (some r) id w u e = ap (leave_all_rooms id) e

rooms-remove_session :
    (id : Text) (w u : World)
    → u.registry ≡ w.registry
    → u.rooms ≡ w.rooms
    → (remove_session id u).rooms ≡ (remove_session id w).rooms
unfolding remove_session
rooms-remove_session id w u g e =
    ap (λ (m : OrderedMap.OrderedMap Text ℕ). (remove_found (OrderedMap.get m id) id u).rooms) g
    ∙ rooms-remove_found (OrderedMap.get w.registry id) id w u e

rooms_registered :
    (x : Option ℕ) (id room other : Text) (w : World)
    → IsConsistent w.rooms
    → is_in_room room other (remove_found x id w).rooms
      ≡ (not (is_some x && (id == other)) && is_in_room room other w.rooms)
unfolding remove_found
rooms_registered none id room other w c = refl
rooms_registered (some r) id room other w c = is_in_room-leave_all_rooms id room other w.rooms c

is_in_room-remove_session :
    (id room other : Text) (w : World)
    → IsConsistent w.rooms
    → is_in_room room other (remove_session id w).rooms
      ≡ (not (has w.registry id && (id == other)) && is_in_room room other w.rooms)
unfolding remove_session
is_in_room-remove_session id room other w c =
    rw (has-eq-get w.registry id)
      (rooms_registered (OrderedMap.get w.registry id) id room other w c)

rest-remove_found :
    (x : Option ℕ) (id : Text) (w : World)
    → ((remove_found x id w).objects ≡ w.objects) × ((remove_found x id w).sockets ≡ w.sockets)
unfolding remove_found
rest-remove_found none id w = (refl, refl)
rest-remove_found (some r) id w = (refl, refl)

pub rest-remove_session :
    (id : Text) (w : World)
    → ((remove_session id w).objects ≡ w.objects) × ((remove_session id w).sockets ≡ w.sockets)
unfolding remove_session
rest-remove_session id w = rest-remove_found (OrderedMap.get w.registry id) id w

-- A session that was disconnected and removed, over a socket that was shut.
pub removed-IsLoggedOut :
    (r : ℕ) (s : Session) (w u v : World)
    → u.objects r ≡ s
    → u.registry ≡ w.registry
    → u.rooms ≡ w.rooms
    → (u.sockets (w.objects r).socket).writable ≡ false
    → (u.sockets (w.objects r).socket).listeners ≡ []
    → IsConsistent w.rooms
    → v ≡ record (remove_session (w.objects r).session_id u) { log = v.log }
    → IsLoggedOut r s w v
removed-IsLoggedOut r s w u v o g c shut deaf tidy e =
    let id = (w.objects r).session_id in
    let rest = rest-remove_session id u in
    record {
      object = ap (λ x. x.objects r) e ∙ ap (λ f. f r) rest.0 ∙ o;
      registry = λ t.
          ap (λ x. OrderedMap.get x.registry t) e
          ∙ get-remove_session id t u
          ∙ ap (λ m. if id == t then none else OrderedMap.get m t) g;
      rooms = λ room t.
          ap (λ x. is_in_room room t x.rooms) e
          ∙ ap (is_in_room room t) (rooms-remove_session id w u g c)
          ∙ is_in_room-remove_session id room t w tidy;
      shut =
          ap (λ x. (x.sockets (w.objects r).socket).writable) e
          ∙ ap (λ f. (f (w.objects r).socket).writable) rest.1
          ∙ shut;
      deaf =
          ap (λ x. (x.sockets (w.objects r).socket).listeners) e
          ∙ ap (λ f. (f (w.objects r).socket).listeners) rest.1
          ∙ deaf;
    }

-- The socket is ended.
abbrev pub shut : ℕ → World → World
shut k w =
    let u = put_socket k (record (w.sockets k) { writable = false }) w in
    record u { log = u.log ++ ended k ∷ [] }

pub socket-shut :
    (k : ℕ) (w : World) → (shut k w).sockets k ≡ record (w.sockets k) { writable = false }
socket-shut k w = update-same w.sockets k _

module _ (app : App) (r : ℕ) (m : Message) (w : World) where
  abbrev dropped : World
  dropped =
      let u = put_session r (record (w.objects r) { state = SessionState.disconnected }) w in
      record u { log = u.log ++ emitted r SessionEvent.logged_out ∷ [] }

  handle_logout_lem :
      IsPassive app
      → handle_logout app r m w ≡ (
        ok tt,
        remove_session
            (w.objects r).session_id
            (shut (w.objects r).socket (disconnected r dropped)),
      )
  unfolding handle_logout ◌>>=◌ set_state note end_socket modify
  handle_logout_lem p =
      rw (call_each_passive app (w.objects r).handlers.logout r (some m) w p)
        (rw (handle_disconnect_passive app r dropped p) refl)

-- The parts of a socket after its session was disconnected and it was ended.
shut-disconnected :
    (r k : ℕ) (w : World)
    → (w.objects r).socket ≡ k
    → (shut k (disconnected r w)).sockets k
      ≡ record (w.sockets k) { listeners = []; writable = false }
shut-disconnected r k w e =
    socket-shut k (disconnected r w)
    ∙ ap (λ (s : Socket). record s { writable = false })
        (ap (disconnected r w).sockets (sym e)
          ∙ socket-disconnected r w
          ∙ ap (λ j. record (w.sockets j) { listeners = [] }) e)

-- If the application's functions do nothing to the world and the maps of the rooms are consistent,
-- a logout of the peer is handled without an error, whatever the state of the session: the session
-- is DISCONNECTED with its timers stopped and nothing else of its object changed; its id, and no
-- other, is out of the registry; it is in no room if it was registered, and all others are in the
-- rooms that they were in; its socket cannot be written to and has no listeners.
pub handle_logout-IsLoggedOut :
    (app : App) (r : ℕ) (m : Message) (w : World)
    → IsPassive app
    → IsConsistent w.rooms
    → ((handle_logout app r m w).0 ≡ ok tt)
      × IsLoggedOut r (ended_session (w.objects r)) w (handle_logout app r m w).1
handle_logout-IsLoggedOut app r m w p tidy =
    let k = (w.objects r).socket in
    let told = dropped app r m w in
    let same : (told.objects r).socket ≡ k = ap (λ s. s.socket) (update-same w.objects r _) in
    let off = shut-disconnected r k told same in
    rw (handle_logout_lem app r m w p) (
      refl,
      removed-IsLoggedOut r (ended_session (w.objects r)) w (shut k (disconnected r told)) _
          (object-disconnected r told ∙ ap ended_session (update-same w.objects r _)) refl refl
          (ap (λ s. s.writable) off) (ap (λ s. s.listeners) off) tidy refl,
    )
