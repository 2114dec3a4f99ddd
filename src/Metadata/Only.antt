-- ===== src/Metadata/Only.antt =====
-- `setupSessionHandlers` of src/acceptor/message.handler.ts: what it leaves as it was.
use nest_quickfix.Prelude.{nat_Eq, ℕ, ◌≡◌, refl, ap, ◌∙◌, Option, none, some, List, [], ◌∷◌, ◌++◌}
use nest_quickfix.OrderedSet.{add}
use nest_quickfix.World.{World, Session, Handlers}
use nest_quickfix.World.Store.{update-same}
use nest_quickfix.Session.{no_handlers}
use nest_quickfix.Session.Registration.{
  on_handlers, register_logon_handler, register_logout_handler, register_connected_handler,
  register_disconnected_handler, register_message_handler,
}
use nest_quickfix.Metadata.{FixMetadata}
use nest_quickfix.Metadata.Setup.{if_given, register_session_handlers, setup_session_handlers}

-- Only the handlers of the session are changed.
pub record OnlyHandlers (ref : ℕ) (w u : World) : Type 0 where
  pub rest : u ≡ record w { objects = u.objects }
  pub object :
      record (u.objects ref) { handlers = no_handlers }
      ≡ record (w.objects ref) { handlers = no_handlers }

OnlyHandlers-refl : (ref : ℕ) (w : World) → OnlyHandlers ref w w
OnlyHandlers-refl ref w = record { rest = refl; object = refl }

OnlyHandlers-trans :
    (ref : ℕ) (w v u : World) → OnlyHandlers ref w v → OnlyHandlers ref v u → OnlyHandlers ref w u
OnlyHandlers-trans ref w v u p q = record {
  rest = q.rest ∙ ap (λ (x : World). record x { objects = u.objects }) p.rest;
  object = q.object ∙ p.object;
}

on_handlers-OnlyHandlers :
    (f : Handlers → Handlers) (ref : ℕ) (w : World) → OnlyHandlers ref w (on_handlers f ref w)
on_handlers-OnlyHandlers f ref w = record {
  rest = refl;
  object = ap (λ (s : Session). record s { handlers = no_handlers }) (update-same w.objects ref _);
}

if_given-OnlyHandlers {ℓ} :
    {A : Type ℓ} (f : A → Handlers → Handlers) (ref : ℕ) (given : Option A) (w : World)
    → OnlyHandlers ref w (if_given (λ r a. on_handlers (f a) r) ref given w)
if_given-OnlyHandlers f ref none w = OnlyHandlers-refl ref w
if_given-OnlyHandlers f ref (some a) w = on_handlers-OnlyHandlers (f a) ref w

register-OnlyHandlers :
    (ref : ℕ) (meta : FixMetadata) (w : World)
    → OnlyHandlers ref w (register_session_handlers ref meta w)
unfolding register_session_handlers register_logon_handler register_logout_handler
    register_connected_handler register_disconnected_handler register_message_handler
register-OnlyHandlers ref meta w =
    let w1 = if_given register_logon_handler ref meta.on_logon_handler w in
    let w2 = if_given register_logout_handler ref meta.on_logout_handler w1 in
    let w3 = if_given register_connected_handler ref meta.on_connected_handler w2 in
    let w4 = if_given register_disconnected_handler ref meta.on_disconnected_handler w3 in
    let u =
      if_given (λ r (h, type). register_message_handler r h type) ref meta.on_message_handler w4 in
    OnlyHandlers-trans ref w w1 u
      (if_given-OnlyHandlers (λ h hs. record hs { logon = add hs.logon h }) ref _ w)
      (OnlyHandlers-trans ref w1 w2 u
        (if_given-OnlyHandlers (λ h hs. record hs { logout = add hs.logout h }) ref _ w1)
        (OnlyHandlers-trans ref w2 w3 u
          (if_given-OnlyHandlers (λ h hs. record hs { connected = add hs.connected h }) ref _ w2)
          (OnlyHandlers-trans ref w3 w4 u
            (if_given-OnlyHandlers (λ h hs. record hs { disconnected = add hs.disconnected h }) ref
              _ w3)
            (if_given-OnlyHandlers
              (λ (h, type) hs. record hs {
                message = hs.message ++ record { handler = h; msg_type = type } ∷ [];
              })
              ref _ w4))))

pub setup-OnlyHandlers :
    (ref : ℕ) (metas : List FixMetadata) (w : World)
    → OnlyHandlers ref w (setup_session_handlers ref metas w)
unfolding setup_session_handlers
setup-OnlyHandlers ref [] w = OnlyHandlers-refl ref w
setup-OnlyHandlers ref (meta ∷ rest) w =
    OnlyHandlers-trans ref w (register_session_handlers ref meta w) _
      (register-OnlyHandlers ref meta w)
      (setup-OnlyHandlers ref rest (register_session_handlers ref meta w))
