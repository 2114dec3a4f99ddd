-- ===== src/Queue/Sender.antt =====
-- src/protocol/flow/message.queue.ts, `class MessageQueue`: batches of messages on a timer, and
-- what is done with a batch that fails.
use nest_quickfix.Prelude.{
  ℕ, zero, suc, ◌+◌, Bool, true, false, ◌||◌, Option, none, some, List, [], ◌∷◌, ◌++◌, leb, nat_eq,
  if◌then◌else◌,
}
use nest_quickfix.Text.{text}
use nest_quickfix.Result.{Result, ok, err, error}
use nest_quickfix.Fields.{msg_type}
use nest_quickfix.Message.{Message, has_field}
use nest_quickfix.Date.{format_date_time}
use nest_quickfix.World.{World}
use nest_quickfix.Session.Sending.{send_message, set_missing, default_fields}
use nest_quickfix.Manager.{get_session_from_logon}
use nest_quickfix.Queue.{PriorityQueue, enqueue, is_empty}

-- `interface QueueMessage`
pub record QueueMessage : Type 0 where
  pub message : Message
  pub retry_count : Option ℕ

-- The fields of the class that decide what is sent; `failed` holds the messages of the events
-- `messageFailed`, and `managed` says whether a session manager was given.
pub record MessageQueue : Type 0 where
  pub queue : PriorityQueue QueueMessage
  pub processing : Bool
  pub paused : Bool
  pub managed : Bool
  pub max_batch_size : ℕ
  pub max_retries : ℕ
  pub processed_count : ℕ
  pub error_count : ℕ
  pub failed : List QueueMessage

-- `option || default`
abbrev or_default : Option ℕ → ℕ → ℕ
or_default none d = d
or_default (some n) d = if nat_eq n 0 then d else n

unfoldable pub new_queue : Option ℕ → Option ℕ → Bool → MessageQueue
new_queue batch retries managed = record {
  queue = [];
  processing = false;
  paused = false;
  managed = managed;
  max_batch_size = or_default batch 100;
  max_retries = or_default retries 3;
  processed_count = 0;
  error_count = 0;
  failed = [];
}

-- `enqueue(message, priority)`
unfoldable pub submit : QueueMessage → ℕ → MessageQueue → MessageQueue
submit m priority s = record s { queue = enqueue s.queue m priority }

-- `getSession(message)`
unfoldable pub session_for : Bool → Message → World → Option ℕ
session_for managed m w = if managed then get_session_from_logon m w else none

-- `sendToSession(message)`, with the object of the message as it is left: a session that sends it
-- has set the fields that it lacked.
unfoldable pub send_to_session : Option ℕ → Message → World → Result (Unit {0}) × Message × World
send_to_session none m w = (err (error (text "No session available")), m, w)
send_to_session (some ref) m w =
    let (r, u) = send_message ref m w in
    (r, set_missing m (default_fields (w.objects ref) (format_date_time w.date)), u)

-- `validateMessage(message)` and `sendToSession(message)`
unfoldable pub attempt : Bool → Message → World → Result (Unit {0}) × Message × World
unfolding send_to_session session_for
attempt managed m w =
    if has_field m msg_type
    then send_to_session (session_for managed m w) m w
    else (err (error (text "Missing MsgType field")), m, w)

unfoldable pub count : Result (Unit {0}) → MessageQueue → MessageQueue
count (ok x) s = record s { processed_count = s.processed_count + 1 }
count (err e) s = record s { error_count = s.error_count + 1 }

-- `processMessage(message)`
unfoldable pub process_message :
    QueueMessage → MessageQueue → World → Result (Unit {0}) × QueueMessage × MessageQueue × World
unfolding attempt count
process_message q s w =
    let (r, m, u) = attempt s.managed q.message w in (r, record q { message = m }, count r s, u)

-- What sending a batch leaves: the outcome, the batch, the queue and the world.
abbrev pub Outcome : Type 0
Outcome = Result (Unit {0}) × List QueueMessage × MessageQueue × World

unfoldable pub go_on :
    Result (Unit {0}) × QueueMessage × MessageQueue × World → List QueueMessage → Outcome → Outcome
go_on (ok x, q, t, u) qs (r, qs', t', u') = (r, q ∷ qs', t', u')
go_on (err e, q, t, u) qs later = (err e, q ∷ qs, t, u)

-- The loop of `sendBatch`, which ends at the first error.
unfoldable pub send_each : List QueueMessage → MessageQueue → World → Outcome
unfolding process_message go_on
send_each [] s w = (ok tt, [], s, w)
send_each (q ∷ qs) s w =
    let first = process_message q s w in go_on first qs (send_each qs first.2 first.3)

abbrev pub retries_of : Option ℕ → ℕ
retries_of none = 0
retries_of (some n) = n

-- One round of the loop of `handleSendError`.
unfoldable pub retry : QueueMessage → MessageQueue → MessageQueue
unfolding submit
retry q s =
    let n = retries_of q.retry_count in
    if leb n s.max_retries
    then submit (record q { retry_count = some (n + 1) }) (n + 1) s
    else record s { failed = s.failed ++ q ∷ []; error_count = s.error_count + 1 }

-- `handleSendError(error, messages)`
unfoldable pub handle_send_error : List QueueMessage → MessageQueue → MessageQueue
unfolding retry
handle_send_error [] s = s
handle_send_error (q ∷ qs) s = handle_send_error qs (retry q s)

-- The loop of `processBatch` that fills the batch.
unfoldable pub take_batch :
    ℕ → PriorityQueue QueueMessage → List QueueMessage × PriorityQueue QueueMessage
take_batch zero items = ([], items)
take_batch (suc n) [] = ([], [])
take_batch (suc n) (e ∷ items) = let (batch, rest) = take_batch n items in (e.item ∷ batch, rest)

unfoldable pub settle : Outcome → MessageQueue × World
unfolding handle_send_error
settle (ok x, batch, s, w) = (s, w)
settle (err e, batch, s, w) = (handle_send_error batch s, w)

-- `processBatch()` and `sendBatch(messages)`; a batch of none is sent by doing nothing
unfoldable pub process_batch : MessageQueue → World → MessageQueue × World
unfolding settle send_each take_batch
process_batch s w =
    let (batch, rest) = take_batch s.max_batch_size s.queue in
    settle (send_each batch (record s { queue = rest }) w)

-- The callback of the interval; `processing` is set while a batch is under way.
unfoldable pub process_tick : MessageQueue → World → MessageQueue × World
unfolding process_batch is_empty
process_tick s w =
    if s.paused || s.processing || is_empty s.queue
    then (s, w)
    else (let (t, u) = process_batch (record s { processing = true }) w in
        (record t { processing = false }, u))

unfoldable pub pause : MessageQueue → MessageQueue
pause s = record s { paused = true }

unfoldable pub resume : MessageQueue → MessageQueue
resume s = record s { paused = false }

-- `shutdown()`, from the point where no batch is under way
unfoldable pub shutdown : MessageQueue → World → MessageQueue × World
unfolding process_batch is_empty
shutdown s w =
    let t = record s { paused = true; processing = false } in
    if is_empty t.queue then (t, w) else process_batch t w
