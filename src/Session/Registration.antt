-- ===== src/Session/Registration.antt =====
-- src/session/session.ts: the registration of handlers, and the calls that pass on to the rooms.
use nest_quickfix.Prelude.{ℕ, Option, List, [], ◌∷◌, ◌++◌, nat_Eq}
use nest_quickfix.Text.{Text}
use nest_quickfix.OrderedSet.{add}
use nest_quickfix.Rooms
use nest_quickfix.World.{World, SessionConfig, Handler, Handlers}
use nest_quickfix.World.Store.{put_session}

abbrev pub on_handlers : (Handlers → Handlers) → ℕ → World → World
on_handlers f ref w =
    put_session ref (record (w.objects ref) { handlers = f (w.objects ref).handlers }) w

-- `registerLogonHandler(handler)`
unfoldable pub register_logon_handler : ℕ → Handler → World → World
register_logon_handler ref h = on_handlers (λ hs. record hs { logon = add hs.logon h }) ref

-- `registerLogoutHandler(handler)`
unfoldable pub register_logout_handler : ℕ → Handler → World → World
register_logout_handler ref h = on_handlers (λ hs. record hs { logout = add hs.logout h }) ref

-- `registerConnectedHandler(handler)`
unfoldable pub register_connected_handler : ℕ → Handler → World → World
register_connected_handler ref h =
    on_handlers (λ hs. record hs { connected = add hs.connected h }) ref

-- `registerDisconnectedHandler(handler)`
unfoldable pub register_disconnected_handler : ℕ → Handler → World → World
register_disconnected_handler ref h =
    on_handlers (λ hs. record hs { disconnected = add hs.disconnected h }) ref

-- `registerMessageHandler(handler, msgType)`: the object that is added is a new one each time.
unfoldable pub register_message_handler : ℕ → Handler → Option Text → World → World
register_message_handler ref h type =
    on_handlers
      (λ hs. record hs { message = hs.message ++ record { handler = h; msg_type = type } ∷ [] }) ref

-- `getSessionId()`, `getConfig()`, `getSocket()` and `getNextOutgoingSeqNum()`
unfoldable pub get_session_id : ℕ → World → Text
get_session_id ref w = (w.objects ref).session_id

unfoldable pub get_config : ℕ → World → SessionConfig
get_config ref w = (w.objects ref).config

unfoldable pub get_socket : ℕ → World → ℕ
get_socket ref w = (w.objects ref).socket

unfoldable pub get_next_outgoing_seq_num : ℕ → World → ℕ
get_next_outgoing_seq_num ref w = (w.objects ref).next_outgoing_seq_num

-- `join(roomId)`, `leave(roomId)` and `getRooms()`
unfoldable pub join_room : ℕ → Text → World → World
join_room ref room w = record w { rooms = Rooms.join room (w.objects ref).session_id w.rooms }

unfoldable pub leave_room : ℕ → Text → World → World
leave_room ref room w = record w { rooms = Rooms.leave room (w.objects ref).session_id w.rooms }

unfoldable pub get_rooms : ℕ → World → List Text
get_rooms ref w = Rooms.get_session_rooms (w.objects ref).session_id w.rooms
