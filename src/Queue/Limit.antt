-- ===== src/Queue/Limit.antt =====
-- How often a message that cannot be sent is tried again.
use nest_quickfix.Prelude.{
  true, false, ℕ, zero, suc, ◌+◌, ◌-◌, ◌≤◌, ◌≡◌, refl, ap, ◌∙◌, ◌||◌, Option, none, some, [], ◌∷◌,
  ◌++◌, leb, arith,
}
use mathlib.Core.Path.{subst}
use nest_quickfix.Message.{Message}
use nest_quickfix.Result.{Error, err}
use nest_quickfix.World.{World}
use nest_quickfix.Queue.{Entry, is_empty, enqueue, sort, place}
use nest_quickfix.Queue.Sender.{
  QueueMessage, MessageQueue, attempt, count, go_on, process_message, send_each, submit, retry,
  retries_of, handle_send_error, take_batch, settle, process_batch, process_tick,
}
use nest_quickfix.Queue.Shutdown.{take_batch_none}

process_batch_alone :
    (t : MessageQueue) (u : World) (q : QueueMessage) (p n : ℕ) (e : Error)
    → t.queue ≡ record { item = q; priority = p } ∷ []
    → t.max_batch_size ≡ suc n
    → attempt t.managed q.message u ≡ (err e, q.message, u)
    → process_batch t u ≡ (retry q (record t { queue = []; error_count = t.error_count + 1 }), u)
unfolding process_batch send_each process_message go_on count settle handle_send_error take_batch
process_batch_alone t u q p n e g size same = rw (g, size, take_batch_none n, same) refl

process_tick_free :
    (t : MessageQueue) (u : World) (x : Entry QueueMessage)
    → t.paused ≡ false
    → t.processing ≡ false
    → t.queue ≡ x ∷ []
    → process_tick t u ≡ (
      record (process_batch (record t { processing = true }) u).0 { processing = false },
      (process_batch (record t { processing = true }) u).1,
    )
unfolding process_tick process_batch is_empty
process_tick_free t u x running free g =
    let full : is_empty t.queue ≡ false = ap is_empty g in
    let stop : (t.paused || t.processing || is_empty t.queue) ≡ false = rw (running, free) full in
    rw stop refl

-- The queue holds one message, which was tried again `c` times, and is otherwise as it was.
record IsTrying (s : MessageQueue) (m : Message) (c : Option ℕ) (p : ℕ) (t : MessageQueue)
    : Type 0 where
  queue : t.queue ≡ record { item = record { message = m; retry_count = c }; priority = p } ∷ []
  failed : t.failed ≡ s.failed
  managed : t.managed ≡ s.managed
  retries : t.max_retries ≡ s.max_retries
  size : t.max_batch_size ≡ s.max_batch_size
  running : t.paused ≡ false
  free : t.processing ≡ false

-- The message of the queue was put back for the `n`-th time, and none was given up.
abbrev pub IsRetried : MessageQueue → Message → ℕ → MessageQueue → Type 0
IsRetried s m n t =
    (t.queue ≡ record { item = record { message = m; retry_count = some n }; priority = n } ∷ [])
    × (t.failed ≡ s.failed)

-- The message was put back once more than the limit of retries says, and was given up.
abbrev pub IsGivenUp : MessageQueue → Message → MessageQueue → Type 0
IsGivenUp s m t =
    (t.queue ≡ [])
    × (t.failed ≡ s.failed ++ record { message = m; retry_count = some (s.max_retries + 1) } ∷ [])

-- A number of ticks of the timer.
abbrev pub ticks : ℕ → MessageQueue → World → MessageQueue × World
ticks zero s w = (s, w)
ticks (suc n) s w = process_tick (ticks n s w).0 (ticks n s w).1

module _ (s : MessageQueue) (w : World) (m : Message) (e : Error)
    (fails : attempt s.managed m w ≡ (err e, m, w)) (n : ℕ)
    (some_size : s.max_batch_size ≡ suc n) where
  abbrev tried : MessageQueue → Option ℕ → MessageQueue
  tried t c =
      record (retry (record { message = m; retry_count = c })
        (record t { processing = true; queue = []; error_count = t.error_count + 1 })) {
          processing = false;
        }

  process_tick_trying :
      (c : Option ℕ) (p : ℕ) (t : MessageQueue)
      → IsTrying s m c p t
      → process_tick t w ≡ (tried t c, w)
  process_tick_trying c p t h =
      let batch =
        process_batch_alone (record t { processing = true }) w
          (record { message = m; retry_count = c }) p n e h.queue (h.size ∙ some_size)
          (ap (λ b. attempt b m w) h.managed ∙ fails) in
      process_tick_free t w _ h.running h.free h.queue
      ∙ ap (λ x. (record x.0 { processing = false }, x.1)) batch

  tried-IsTrying :
      (c : Option ℕ) (p : ℕ) (t : MessageQueue)
      → IsTrying s m c p t
      → leb (retries_of c) s.max_retries ≡ true
      → IsTrying s m (some (retries_of c + 1)) (retries_of c + 1) (tried t c)
  unfolding retry submit enqueue sort place
  tried-IsTrying c p t h l =
      let again : leb (retries_of c) t.max_retries ≡ true = ap (leb (retries_of c)) h.retries ∙ l in
      record {
        queue = rw again refl;
        failed = rw again h.failed;
        managed = rw again h.managed;
        retries = rw again h.retries;
        size = rw again h.size;
        running = rw again h.running;
        free = refl;
      }

  tried-IsGivenUp :
      (p : ℕ) (t : MessageQueue)
      → IsTrying s m (some (s.max_retries + 1)) p t
      → IsGivenUp s m (tried t (some (s.max_retries + 1)))
  unfolding retry
  tried-IsGivenUp p t h =
      let over : leb (s.max_retries + 1) s.max_retries ≡ false = ground arith in
      (rw (h.retries, over) refl, rw (h.retries, over, h.failed) refl)

  ticks_lem :
      (p k : ℕ)
      → IsTrying s m none p s
      → k ≤ s.max_retries
      → (IsTrying s m (some (k + 1)) (k + 1) (ticks (suc k) s w).0) × ((ticks (suc k) s w).1 ≡ w)
  ticks_lem p zero h l =
      rw (process_tick_trying none p s h) (tried-IsTrying none p s h (ground arith), refl)
  ticks_lem p (suc k) h l =
      let (before, still) = ticks_lem p k h (omega arith) in
      let t = (ticks (suc k) s w).0 in
      let one : k + 1 ≡ suc k = omega arith in
      rw (still, process_tick_trying (some (k + 1)) (k + 1) t before)
        (
          subst (λ j. IsTrying s m (some (j + 1)) (j + 1) (tried t (some (k + 1)))) one
              (tried-IsTrying (some (k + 1)) (k + 1) t before (ground arith)),
          refl,
        )

-- If a queue that is not paused and has no batch under way, and whose batches hold at least one
-- message, has one message, which was not tried yet, and an attempt to send it fails and changes
-- nothing, then each tick of the timer up to the limit of retries, and one tick more, puts it back,
-- with the number of times as its count and its priority, and gives none up; the next tick takes it
-- from the queue and gives it up, with a count of one more than the limit.
pub ticks-IsRetried :
    (s : MessageQueue) (w : World) (m : Message) (p k : ℕ) (e : Error)
    → s.queue ≡ record { item = record { message = m; retry_count = none }; priority = p } ∷ []
    → s.paused ≡ false
    → s.processing ≡ false
    → 1 ≤ s.max_batch_size
    → attempt s.managed m w ≡ (err e, m, w)
    → k ≤ s.max_retries
    → IsRetried s m (k + 1) (ticks (suc k) s w).0
      × IsGivenUp s m (ticks (suc (suc s.max_retries)) s w).0
ticks-IsRetried s w m p k e g running free size fails l =
    let some_size : s.max_batch_size ≡ suc (s.max_batch_size - 1) = omega arith in
    let start : IsTrying s m none p s = record {
      queue = g;
      failed = refl;
      managed = refl;
      retries = refl;
      size = refl;
      running = running;
      free = free;
    } in
    let now = (ticks_lem s w m e fails (s.max_batch_size - 1) some_size p k start l).0 in
    let (last, still) =
      ticks_lem s w m e fails (s.max_batch_size - 1) some_size p s.max_retries start
        (omega arith) in
    (
      (now.queue, now.failed),
      rw
          (
            still,
            process_tick_trying s w m e fails (s.max_batch_size - 1) some_size
                (some (s.max_retries + 1)) (s.max_retries + 1) (ticks (suc s.max_retries) s w).0
                last,
          )
          (tried-IsGivenUp s w m e fails (s.max_batch_size - 1) some_size (s.max_retries + 1)
            (ticks (suc s.max_retries) s w).0 last),
    )
