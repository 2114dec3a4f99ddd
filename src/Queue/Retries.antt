-- ===== src/Queue/Retries.antt =====
-- What becomes of the messages of a batch.
use nest_quickfix.Prelude.{◌≡◌, refl, ◌∙◌, List, [], ◌∷◌, ◌++◌, arith, take, drop, inl, inr, ◌⊎◌}
use mathlib.Core.List.{Perm}
use nest_quickfix.Result.{Error, ok, err}
use nest_quickfix.World.{World}
use nest_quickfix.Queue.Sender.{
  QueueMessage, MessageQueue, Outcome, attempt, send_each, handle_send_error, settle, process_batch,
  retry, submit, take_batch,
}
use nest_quickfix.Queue.Batch.{AllSent, AllExtend, Ran, send_each-Ran}
use nest_quickfix.Queue.Stored.{messages, items, waiting, held-handle_send_error, take_batch_lem}

-- The queue after a batch that was sent.
pub record IsSentWhole (s : MessageQueue) (w : World) (t : MessageQueue) (u : World) : Type 0 where
  pub sent : AllSent s.managed (items (take s.max_batch_size s.queue)) w u
  pub queue : t.queue ≡ drop s.max_batch_size s.queue
  pub failed : t.failed ≡ s.failed

-- The queue after a batch with a message that could not be sent.
pub record IsPutBack (s : MessageQueue) (w : World) (t : MessageQueue) (u : World) : Type 0 where
  pub front : List QueueMessage
  pub failing : QueueMessage
  pub back : List QueueMessage
  pub parts : items (take s.max_batch_size s.queue) ≡ front ++ failing ∷ back
  pub between : World
  pub sent : AllSent s.managed front w between
  pub error : Error
  pub wrong : (attempt s.managed failing.message between).0 ≡ err error
  pub world : u ≡ (attempt s.managed failing.message between).2
  pub batch : List QueueMessage
  pub extended : AllExtend (items (take s.max_batch_size s.queue)) batch
  pub held :
      Perm
        (waiting t.queue ++ messages t.failed)
        (messages batch ++ (waiting (drop s.max_batch_size s.queue) ++ messages s.failed))

-- Both outcomes of a batch.
abbrev pub IsAccounted : MessageQueue → World → MessageQueue → World → Type 0
IsAccounted s w t u = IsSentWhole s w t u ⊎ IsPutBack s w t u

settle-IsAccounted :
    (s r : MessageQueue) (w : World) (o : Outcome)
    → r.queue ≡ drop s.max_batch_size s.queue
    → r.failed ≡ s.failed
    → r.managed ≡ s.managed
    → Ran r (items (take s.max_batch_size s.queue)) w o
    → IsAccounted s w (settle o).0 (settle o).1
unfolding settle
settle-IsAccounted s r w (ok x, batch, t, u) g f m (inl (e, all), (extended, c)) =
    inl (record { sent = rw (← m) all; queue = c.queue_kept ∙ g; failed = c.failed_kept ∙ f })
settle-IsAccounted s r w (ok x, batch, t, u) g f m (inr b, rest) = absurd (cc (b.outcome))
settle-IsAccounted s r w (err x, batch, t, u) g f m (inl (e, all), rest) = absurd (cc e)
settle-IsAccounted s r w (err x, batch, t, u) g f m (inr b, (extended, c)) = inr (record {
  front = b.front;
  failing = b.failing;
  back = b.back;
  parts = b.parts;
  between = b.between;
  sent = rw (← m) b.sent;
  error = b.error;
  wrong = rw (← m) b.wrong;
  world = rw (← m) b.world;
  batch = batch;
  extended = extended;
  held = rw (← g, ← f, ← c.queue_kept, ← c.failed_kept) (held-handle_send_error batch t);
})

-- A batch of a queue that differs in the marks and counters only.
pub batch-IsAccounted :
    (s t : MessageQueue) (w : World)
    → t.queue ≡ s.queue
    → t.max_batch_size ≡ s.max_batch_size
    → t.failed ≡ s.failed
    → t.managed ≡ s.managed
    → IsAccounted s w (process_batch t w).0 (process_batch t w).1
unfolding process_batch
batch-IsAccounted s t w g n f m =
    let batch = items (take s.max_batch_size s.queue) in
    let rest = record t {
      queue = drop s.max_batch_size s.queue;
      max_batch_size = s.max_batch_size;
    } in
    rw (take_batch_lem t.max_batch_size t.queue, n, g)
      (settle-IsAccounted s rest w (send_each batch rest w) refl f m (send_each-Ran batch rest w))

-- `processBatch` takes the first messages of the queue, as many as a batch holds. Either each of
-- them is sent without an error, in their order, the queue is what stood behind them, and no
-- message is given up; or those in front of one are sent, that one fails, none behind it is tried,
-- and the messages that wait or were given up are then, but for their order, those of the batch, with
-- fields that were missing added at most, those behind it in the queue, and those given up before.
pub process_batch-IsAccounted :
    (s : MessageQueue) (w : World) → IsAccounted s w (process_batch s w).0 (process_batch s w).1
process_batch-IsAccounted s w = batch-IsAccounted s s w refl refl refl refl

paused-retry : (q : QueueMessage) (s : MessageQueue) → (retry q s).paused ≡ s.paused
unfolding retry submit
paused-retry q s = ground arith

paused-handle_send_error :
    (qs : List QueueMessage) (s : MessageQueue) → (handle_send_error qs s).paused ≡ s.paused
unfolding handle_send_error
paused-handle_send_error [] s = refl
paused-handle_send_error (q ∷ qs) s = paused-handle_send_error qs (retry q s) ∙ paused-retry q s

paused-settle : (o : Outcome) → (settle o).0.paused ≡ o.2.paused
unfolding settle
paused-settle (ok x, batch, s, w) = refl
paused-settle (err e, batch, s, w) = paused-handle_send_error batch s

pub paused-process_batch : (s : MessageQueue) (w : World) → (process_batch s w).0.paused ≡ s.paused
unfolding process_batch
paused-process_batch s w =
    let (batch, rest) = take_batch s.max_batch_size s.queue in
    let sent = send_each batch (record s { queue = rest }) w in
    paused-settle sent ∙ (send_each-Ran batch (record s { queue = rest }) w).1.1.paused_kept
