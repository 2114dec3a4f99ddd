-- ===== src/Acceptor/Admitted.antt =====
-- src/acceptor/message.handler.ts: what a logon that is let in leaves.
use nest_quickfix.Prelude.{ℕ, ◌≡◌, refl, sym, ap, ap₂, ◌∙◌, true, false, none, some, List, []}
use mathlib.Core.Path.{subst}
use nest_quickfix.Text.{Text, text_Eq}
use nest_quickfix.Result.{Result, Error, ok, err}
use nest_quickfix.Fields.MsgType
use nest_quickfix.Message.{Message}
use nest_quickfix.World.{World, Session, Socket, Handlers}
use nest_quickfix.OrderedMap
use nest_quickfix.World.Exec.{Exec, handle, ◌>>=◌, pure, catch, modify}
use nest_quickfix.World.Store.{update-same}
use nest_quickfix.Session.{
  App, new_session, initial_session, session_id_of, handle_message, is_type, no_handlers,
}
use nest_quickfix.Session.Success.{accepts}
use nest_quickfix.Session.Ending.{IsPassive}
use nest_quickfix.Session.LoggedOn.{logged_on_session, handle_message_logon}
use nest_quickfix.Manager.{is_full, register, get_session_by_id, register_session}
use nest_quickfix.Manager.Bound.{register_session_new, get-register}
use nest_quickfix.Metadata.{FixMetadata}
use nest_quickfix.Metadata.Setup.{setup_session_handlers, with_methods, handlers-setup}
use nest_quickfix.Metadata.Only.{OnlyHandlers, setup-OnlyHandlers}
use nest_quickfix.Acceptor.Guard.{AcceptorConfig, validate_logon, valid}
use nest_quickfix.Acceptor.Handler.{
  build_session_config, setup_disconnect_handler, create_new_session, admit_logon, let_in,
  validate_and_handle_logon, handle_logon,
}

module _ (app : App) (config : AcceptorConfig) (metadata : List FixMetadata) (k : ℕ) (m : Message)
    (w : World) where
  abbrev pub id : Text
  id = session_id_of (build_session_config config m)

  -- The world when the session is registered.
  abbrev registered : World
  registered = register id w.next_object (new_session (build_session_config config m) k w).1

  -- The world when its handlers and that of its end are registered too.
  abbrev ready : World
  ready =
      setup_disconnect_handler k w.next_object
        (setup_session_handlers w.next_object metadata registered)

  object-new :
      (new_session (build_session_config config m) k w).1.objects w.next_object
      ≡ initial_session (build_session_config config m) k
  unfolding new_session
  object-new = update-same w.objects w.next_object _

  abbrev made : World
  made = (new_session (build_session_config config m) k w).1

  id-new : (made.objects w.next_object).session_id ≡ id
  id-new = ap (λ (s : Session). s.session_id) object-new

  unknown-new : get_session_by_id id w ≡ none → get_session_by_id id made ≡ none
  unfolding new_session get_session_by_id
  unknown-new h = h

  room-new : is_full w ≡ false → is_full made ≡ false
  unfolding new_session
  room-new h = h

  register_session-made :
      get_session_by_id id w ≡ none
      → is_full w ≡ false
      → register_session app w.next_object made ≡ (ok tt, registered)
  register_session-made unknown room =
      let e =
        register_session_new app w.next_object made
          (subst (λ t. get_session_by_id t made ≡ none) (sym id-new) (unknown-new unknown)) in
      rw (e, room-new room, id-new) refl

  new_session_lem : new_session (build_session_config config m) k w ≡ (ok w.next_object, made)
  unfolding new_session
  new_session_lem = refl

  admit_logon_lem :
      get_session_by_id id w ≡ none
      → is_full w ≡ false
      → admit_logon app config metadata k m w ≡ handle_message app w.next_object m ready
  unfolding admit_logon create_new_session ◌>>=◌ catch modify pure
  admit_logon_lem unknown room = rw (new_session_lem, register_session-made unknown room) refl

  -- The session's object when it is handed the logon.
  abbrev pub fresh : Session
  fresh = record (initial_session (build_session_config config m) k) {
    handlers = with_methods metadata no_handlers;
  }

  set_up :
      OnlyHandlers w.next_object registered
        (setup_session_handlers w.next_object metadata registered)
  set_up = setup-OnlyHandlers w.next_object metadata registered

  object-registered :
      registered.objects w.next_object ≡ initial_session (build_session_config config m) k
  unfolding register
  object-registered = object-new

  object-ready : ready.objects w.next_object ≡ fresh
  unfolding setup_disconnect_handler
  object-ready =
      ap₂ (λ (s : Session) (hs : Handlers). record s { handlers = hs })
        (set_up.object
          ∙ ap (λ (s : Session). record s { handlers = no_handlers }) object-registered)
        (handlers-setup w.next_object metadata registered
          ∙ ap (λ (s : Session). with_methods metadata s.handlers) object-registered)

  sockets-registered : registered.sockets ≡ w.sockets
  unfolding register new_session
  sockets-registered = refl

  -- The disconnect handler joins the listeners of the socket; nothing else of the socket changes.
  socket-ready :
      record (ready.sockets k) { listeners = [] } ≡ record (w.sockets k) { listeners = [] }
  unfolding setup_disconnect_handler
  socket-ready =
      ap (λ (s : Socket). record s { listeners = [] })
        (update-same (setup_session_handlers w.next_object metadata registered).sockets k _)
      ∙ ap (λ (u : World). record (u.sockets k) { listeners = [] }) set_up.rest
      ∙ ap (λ (f : ℕ → Socket). record (f k) { listeners = [] }) sockets-registered

  registry-ready : get_session_by_id id ready ≡ some w.next_object
  unfolding get_session_by_id setup_disconnect_handler
  registry-ready =
      ap (λ (u : World). OrderedMap.get u.registry id) set_up.rest
      ∙ get-register id w.next_object made

  rooms-ready : ready.rooms ≡ w.rooms
  unfolding setup_disconnect_handler register new_session
  rooms-ready = ap (λ (u : World). u.rooms) set_up.rest

  now-ready : ready.now ≡ w.now
  unfolding setup_disconnect_handler register new_session
  now-ready = ap (λ (u : World). u.now) set_up.rest

-- What a logon that is let in leaves, from the world `v` after its validation.
abbrev pub IsAdmitted :
    AcceptorConfig → List FixMetadata → ℕ → Message → World → Result (Unit {0}) × World → Type 0
IsAdmitted config metadata k m v (r, u) =
    (r ≡ ok tt)
    × (get_session_by_id (session_id_of (build_session_config config m)) u ≡ some v.next_object)
    × (u.objects v.next_object
        ≡ logged_on_session v.now (record (initial_session (build_session_config config m) k) {
          handlers = with_methods metadata no_handlers;
        }))
    × (u.rooms ≡ v.rooms)

admit_logon-IsAdmitted :
    (app : App) (config : AcceptorConfig) (metadata : List FixMetadata) (k : ℕ) (m : Message)
    (w : World)
    → IsPassive app
    → is_type MsgType.logon m ≡ true
    → get_session_by_id (session_id_of (build_session_config config m)) w ≡ none
    → is_full w ≡ false
    → (w.sockets k).writable ≡ true
    → accepts (w.sockets k).answers ≡ true
    → IsAdmitted config metadata k m w (admit_logon app config metadata k m w)
unfolding get_session_by_id
admit_logon-IsAdmitted app config metadata k m w p t unknown room writable taken =
    let ready' = ready app config metadata k m w in
    let socket = ap (λ (s : Session). s.socket) (object-ready app config metadata k m w) in
    let same = socket-ready app config metadata k m w in
    let (r, object, registry, rooms) =
      handle_message_logon app w.next_object m ready' p t
        (ap (λ j. (ready'.sockets j).writable) socket
          ∙ ap (λ (s : Socket). s.writable) same
          ∙ writable)
        (ap (λ j. accepts (ready'.sockets j).answers) socket
          ∙ ap (λ (s : Socket). accepts s.answers) same
          ∙ taken) in
    rw (admit_logon_lem app config metadata k m w unknown room) (
      r,
      ap (λ x. OrderedMap.get x (session_id_of (build_session_config config m))) registry
          ∙ registry-ready app config metadata k m w,
      object
          ∙ ap₂ logged_on_session (now-ready app config metadata k m w)
              (object-ready app config metadata k m w),
      rooms ∙ rooms-ready app config metadata k m w,
    )

let_in_lem :
    (app : App) (config : AcceptorConfig) (metadata : List FixMetadata) (k : ℕ) (m : Message)
    (w v : World)
    → validate_logon config m w ≡ (ok valid, v)
    → let_in app config metadata k m w ≡ (ok true, v)
unfolding let_in ◌>>=◌ catch pure
let_in_lem app config metadata k m w v e = rw e refl

-- A try that has nothing to catch.
handle_ok :
    (x : Result (Unit {0}) × World) (h : Error → Exec World (Unit {0}))
    → x.0 ≡ ok tt
    → handle x h ≡ x
handle_ok (ok tt, u) h e = refl
handle_ok (err y, u) h e = absurd (cc)

-- A logon that passes the validation, of parties that have no session yet, over a socket that is
-- writable and takes the reply, while the limit on sessions is not reached and the application's
-- functions do nothing to the world, is let in: a new session is registered under the id of its
-- parties, bound to that socket, with the handlers of the application in their order, and LOGGED_ON,
-- its sequence number past the reply; the rooms are as they were.
pub handle_logon-IsAdmitted :
    (app : App) (config : AcceptorConfig) (metadata : List FixMetadata) (k : ℕ) (m : Message)
    (w v : World)
    → IsPassive app
    → is_type MsgType.logon m ≡ true
    → validate_logon config m w ≡ (ok valid, v)
    → get_session_by_id (session_id_of (build_session_config config m)) v ≡ none
    → is_full v ≡ false
    → (v.sockets k).writable ≡ true
    → accepts (v.sockets k).answers ≡ true
    → IsAdmitted config metadata k m v (handle_logon app config metadata k m w)
unfolding handle_logon validate_and_handle_logon ◌>>=◌ catch
handle_logon-IsAdmitted app config metadata k m w v p t e unknown room writable taken =
    let done = admit_logon-IsAdmitted app config metadata k m v p t unknown room writable taken in
    rw
      (
        let_in_lem app config metadata k m w v e,
        handle_ok (admit_logon app config metadata k m v) _ done.0,
      )
      done
