-- ===== src/Lib.antt =====
-- A model of the FIX engine of this repository: its messages and their text on the wire, the parser
-- of incoming data, sessions, the registry of sessions, and rooms.
--
-- The parts and their files:
--
-- - Message (src/message/message.ts, class Message): a map from fields to values, with `toString`
--   as `to_string` and every other method under its own name. Message/Templates holds the messages
--   of the session layer (src/protocol/messages/*.ts, src/message/reject.message.ts), Message/Objects
--   the conversions to plain objects and back; `Number(text)` is a parameter there.
-- - Fields (src/fields/Field.ts, src/fields/MsgType.ts): the tags that the program names and the
--   types of messages.
-- - Parser (src/message/fix.message.parser.ts, class FixMessageParser): `process_data` takes the
--   text of a chunk and returns the messages in it.
-- - Rooms (src/services/room.manager.ts, class RoomManager): `join`, `leave`, `leave_all_rooms` and
--   the queries, on two maps that mirror each other.
-- - World: what the sessions share. Session objects and sockets stand in stores behind references,
--   since the registry, the handlers and the timers hold the same object; a log keeps what can be
--   seen from outside (events emitted, texts written, sockets ended). World/Exec gives methods that
--   change this state and may throw: what was changed before a throw stays changed.
-- - Session (src/session/session.ts, class Session): each method as a definition of the same name;
--   Session/Sending has `send_message` with `add_required_fields`, Session/Registry the
--   `remove_session` of the registry that a session calls back.
-- - Manager (src/session/session.manager.ts, class SessionManager): `create_session`,
--   `register_session` with the logout of a duplicate, `close_all` and the lookups.
-- - Acceptor (src/acceptor/acceptor.ts, class FIXAcceptor): sockets, incoming data and their end.
--   Acceptor/Guard, Refusal and Handler are src/acceptor/message.handler.ts, class
--   AcceptorMessageHandler: the validation of a logon, the logout sent to a peer that is refused, and
--   the creation of sessions with the routing of messages.
-- - Metadata (src/services/fix.metadata.explorer.ts, src/decorators/fix.decorators.ts): which methods
--   of the application are called on which event; Metadata/Setup gives them to a session.
-- - Initiator (src/initiator/initiator.ts, class FIXInitiator): connecting, and the timer that
--   connects again.
-- - Service (src/services/fix.service.ts, class FixService): `send` to all sessions of a room.
-- - Queue (src/common/priority.queue.ts) is the priority queue, Queue/Sender the queue of outgoing
--   messages with its batches and retries (src/protocol/flow/message.queue.ts, class MessageQueue).
-- - Protocol (src/protocol/manager.ts, src/protocol/validator.ts): messages that wait for a logon.
--   Protocol/Parser and Protocol/Checksum are the second parser, which keeps a buffer, and the
--   validator of checksums (src/protocol/parser/*.ts).
-- - Orders (src/protocol/messages/order.single.ts, execution.report.ts) with the enumerations of
--   Fields/Side, OrdType, TimeInForce, ExecType and OrdStatus.
-- - Server: the acceptor, the sessions, the registry and the service on one world, with a step for
--   each call of a method and each change from outside. Session/Stable and Server/Open are the
--   interfaces of the properties that all these methods keep: an invariant is an instance of them.
--   Acceptor/Wired puts the parser and the acceptor together.
-- - Wiring (src/fix.module.ts, class FIXModule): the storage of the configuration, and which part of
--   the engine an application gets when it has started.
-- - Date (src/common/date/fix.date.ts), Result (src/common/errors/index.ts).
-- - Text, OrderedMap, OrderedSet: the strings, `Map` and `Set` of the language, as far as the
--   program uses them. A text is a list of UTF-16 code units; a `Map` keeps the order of insertion.
--
-- How they interact: a chunk of a socket becomes messages by the parser; the acceptor validates a
-- logon, creates a session over the socket, registers it and gives it the application's methods, and
-- hands every other message to the session of its parties. A session handles each message, calls the
-- functions that the application has registered, and answers by `send_message`, which prints the
-- message with its parties swapped. Ending a session removes it from the registry, which makes it
-- leave its rooms.
--
-- What is chosen: the functions of the application are a parameter (`Session.App`) that may change
-- the whole world and may throw. What a socket answers to each `write` is part of the world
-- (`Socket.answers`). An asynchronous method runs to its end before the next begins;
-- Session/Lifecycle and Server interleave whole methods in any order, with steps of the environment
-- between them. A value of a field is a string, a number or `undefined`. Numbers are whole; `parseInt` of a
-- text without digits is `nan`. Loops over lists are recursion on the list; the one loop on fuel,
-- that of Protocol/Parser, is given the length of its buffer, of which each round takes a character
-- at least. `send_message` takes the message by value: that the caller's object also gets the
-- missing fields is not kept.
--
-- Not modelled: logging, the decoding of a Buffer, what the framework does with the declarations of
-- src/fix.module.ts, the validation of configuration by decorators, the text of JSON and the names of
-- fields in `toFieldNameObject`, the event emitter's delivery of session events to listeners of the
-- initiator, and the other enumerations of src/fields, which are tables.
pub mod Prelude
pub mod Text
pub mod OrderedMap
pub mod OrderedSet
pub mod Rooms
pub mod Fields
pub mod Result
pub mod Message
pub mod Parser
pub mod Date
pub mod World
pub mod Session
pub mod Metadata
pub mod Manager
pub mod Examples
pub mod Acceptor
pub mod Initiator
pub mod Protocol
pub mod Queue
pub mod Server
pub mod Service
pub mod Wiring
pub mod Orders
