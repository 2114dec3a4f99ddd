-- ===== src/Metadata/Setup.antt =====
-- `setupSessionHandlers` of src/acceptor/message.handler.ts, and which functions it gives a session.
use nest_quickfix.Prelude.{
  ℕ, ◌≡◌, refl, sym, append-nil, ap, ◌∙◌, Option, none, some, List, [], ◌∷◌, ◌++◌, nat_Eq,
}
use nest_quickfix.Text.{Text}
use nest_quickfix.OrderedSet.{add}
use nest_quickfix.World.{World, Handler, Handlers, MessageHandler}
use nest_quickfix.World.Store.{update-same}
use nest_quickfix.Session.Registration.{
  register_logon_handler, register_logout_handler, register_connected_handler,
  register_disconnected_handler, register_message_handler,
}
use nest_quickfix.Metadata.{FixMetadata}

-- `if (handler) register(handler)`
abbrev pub if_given {ℓ} : {A : Type ℓ} → (ℕ → A → World → World) → ℕ → Option A → World → World
if_given register ref none w = w
if_given register ref (some h) w = register ref h w

-- `registerSessionHandlers(session, meta)`
unfoldable pub register_session_handlers : ℕ → FixMetadata → World → World
register_session_handlers ref meta w =
    let w1 = if_given register_logon_handler ref meta.on_logon_handler w in
    let w2 = if_given register_logout_handler ref meta.on_logout_handler w1 in
    let w3 = if_given register_connected_handler ref meta.on_connected_handler w2 in
    let w4 = if_given register_disconnected_handler ref meta.on_disconnected_handler w3 in
    if_given (λ r (h, type). register_message_handler r h type) ref meta.on_message_handler w4

-- `setupSessionHandlers(session)`, from what `explore()` has found
unfoldable pub setup_session_handlers : ℕ → List FixMetadata → World → World
unfolding register_session_handlers
setup_session_handlers ref [] w = w
setup_session_handlers ref (meta ∷ rest) w =
    setup_session_handlers ref rest (register_session_handlers ref meta w)

-- The five registrations each change one set of handlers of the session's object.
abbrev pub handlers_of : ℕ → World → Handlers
handlers_of ref w = (w.objects ref).handlers

module _ (ref : ℕ) (h : Handler) (w : World) where
  handlers-logon :
      handlers_of ref (register_logon_handler ref h w)
      ≡ record (handlers_of ref w) { logon = add (handlers_of ref w).logon h }
  unfolding register_logon_handler
  handlers-logon = ap (λ s. s.handlers) (update-same w.objects ref _)

  handlers-logout :
      handlers_of ref (register_logout_handler ref h w)
      ≡ record (handlers_of ref w) { logout = add (handlers_of ref w).logout h }
  unfolding register_logout_handler
  handlers-logout = ap (λ s. s.handlers) (update-same w.objects ref _)

  handlers-connected :
      handlers_of ref (register_connected_handler ref h w)
      ≡ record (handlers_of ref w) { connected = add (handlers_of ref w).connected h }
  unfolding register_connected_handler
  handlers-connected = ap (λ s. s.handlers) (update-same w.objects ref _)

  handlers-disconnected :
      handlers_of ref (register_disconnected_handler ref h w)
      ≡ record (handlers_of ref w) { disconnected = add (handlers_of ref w).disconnected h }
  unfolding register_disconnected_handler
  handlers-disconnected = ap (λ s. s.handlers) (update-same w.objects ref _)

  handlers-message :
      (type : Option Text)
      → handlers_of ref (register_message_handler ref h type w) ≡ record (handlers_of ref w) {
        message = (handlers_of ref w).message ++ record { handler = h; msg_type = type } ∷ [];
      }
  unfolding register_message_handler
  handlers-message type = ap (λ s. s.handlers) (update-same w.objects ref _)

-- A set with the element that is given, if one is.
abbrev pub add_given : List Handler → Option Handler → List Handler
add_given hs none = hs
add_given hs (some h) = add hs h

abbrev pub messages_given : Option (Handler × Option Text) → List MessageHandler
messages_given none = []
messages_given (some (h, type)) = record { handler = h; msg_type = type } ∷ []

-- The handlers of a session to which those of one method are added.
abbrev pub with_method : FixMetadata → Handlers → Handlers
with_method meta hs = record {
  logon = add_given hs.logon meta.on_logon_handler;
  logout = add_given hs.logout meta.on_logout_handler;
  connected = add_given hs.connected meta.on_connected_handler;
  disconnected = add_given hs.disconnected meta.on_disconnected_handler;
  message = hs.message ++ messages_given meta.on_message_handler;
}

-- What a registration that may be left out does.
module _ (ref : ℕ) (w : World) where
  given-logon :
      (given : Option Handler)
      → handlers_of ref (if_given register_logon_handler ref given w)
        ≡ record (handlers_of ref w) { logon = add_given (handlers_of ref w).logon given }
  given-logon none = refl
  given-logon (some h) = handlers-logon ref h w

  given-logout :
      (given : Option Handler)
      → handlers_of ref (if_given register_logout_handler ref given w)
        ≡ record (handlers_of ref w) { logout = add_given (handlers_of ref w).logout given }
  given-logout none = refl
  given-logout (some h) = handlers-logout ref h w

  given-connected :
      (given : Option Handler)
      → handlers_of ref (if_given register_connected_handler ref given w)
        ≡ record (handlers_of ref w) { connected = add_given (handlers_of ref w).connected given }
  given-connected none = refl
  given-connected (some h) = handlers-connected ref h w

  given-disconnected :
      (given : Option Handler)
      → handlers_of ref (if_given register_disconnected_handler ref given w)
        ≡ record (handlers_of ref w) {
          disconnected = add_given (handlers_of ref w).disconnected given;
        }
  given-disconnected none = refl
  given-disconnected (some h) = handlers-disconnected ref h w

  given-message :
      (given : Option (Handler × Option Text))
      → handlers_of ref (if_given (λ r (h, type). register_message_handler r h type) ref given w)
        ≡ record (handlers_of ref w) {
          message = (handlers_of ref w).message ++ messages_given given;
        }
  given-message none =
      ap (λ l. record (handlers_of ref w) { message = l })
        (sym (append-nil (handlers_of ref w).message))
  given-message (some (h, type)) = handlers-message ref h w type

handlers-register :
    (ref : ℕ) (meta : FixMetadata) (w : World)
    → handlers_of ref (register_session_handlers ref meta w) ≡ with_method meta (handlers_of ref w)
unfolding register_session_handlers
handlers-register ref meta w = rw (
  given-message ref _ meta.on_message_handler,
  given-disconnected ref _ meta.on_disconnected_handler,
  given-connected ref _ meta.on_connected_handler,
  given-logout ref _ meta.on_logout_handler,
  given-logon ref w meta.on_logon_handler,
)

-- The handlers with those of all methods, one after the other.
abbrev pub with_methods : List FixMetadata → Handlers → Handlers
with_methods [] hs = hs
with_methods (meta ∷ rest) hs = with_methods rest (with_method meta hs)

pub handlers-setup :
    (ref : ℕ) (metas : List FixMetadata) (w : World)
    → handlers_of ref (setup_session_handlers ref metas w) ≡ with_methods metas (handlers_of ref w)
unfolding setup_session_handlers
handlers-setup ref [] w = refl
handlers-setup ref (meta ∷ rest) w =
    handlers-setup ref rest (register_session_handlers ref meta w)
    ∙ ap (with_methods rest) (handlers-register ref meta w)
