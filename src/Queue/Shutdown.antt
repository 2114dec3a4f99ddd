-- ===== src/Queue/Shutdown.antt =====
-- What `shutdown` does with the messages that wait.
use nest_quickfix.Prelude.{
  true, false, ℕ, zero, suc, ◌≡◌, refl, sym, ap, ◌∙◌, [], ◌∷◌, Bool-cases, arith, inl, inr,
}
use nest_quickfix.World.{World}
use nest_quickfix.Queue.{PriorityQueue, is_empty}
use nest_quickfix.Queue.Sender.{
  QueueMessage, MessageQueue, take_batch, settle, send_each, process_batch, process_tick, shutdown,
}
use nest_quickfix.Queue.Retries.{IsAccounted, batch-IsAccounted, paused-process_batch}

pub take_batch_none : (n : ℕ) → take_batch n [] ≡ ([], [])
unfolding take_batch
take_batch_none zero = refl
take_batch_none (suc n) = refl

is_empty-nil : (q : PriorityQueue QueueMessage) → is_empty q ≡ true → q ≡ []
unfolding is_empty
is_empty-nil [] e = refl
is_empty-nil (x ∷ q) e = absurd (ground (arith, e))

-- The queue at the time of its last batch.
abbrev closing : MessageQueue → MessageQueue
closing s = record s { paused = true; processing = false }

process_batch_none : (s : MessageQueue) (w : World) → s.queue ≡ [] → process_batch s w ≡ (s, w)
unfolding process_batch send_each settle
process_batch_none s w e = rw (e, take_batch_none s.max_batch_size) refl

shutdown_lem : (s : MessageQueue) (w : World) → shutdown s w ≡ process_batch (closing s) w
unfolding shutdown
shutdown_lem s w = elim (Bool-cases (is_empty s.queue)) [
  | inl t ↦ rw t (sym (process_batch_none (closing s) w (is_empty-nil s.queue t)))
  | inr t ↦ rw t refl
]

paused-shutdown : (s : MessageQueue) (w : World) → (shutdown s w).0.paused ≡ true
paused-shutdown s w = ap (λ x. x.0.paused) (shutdown_lem s w) ∙ paused-process_batch (closing s) w

process_tick_paused : (s : MessageQueue) (w : World) → s.paused ≡ true → process_tick s w ≡ (s, w)
unfolding process_tick
process_tick_paused s w e = rw e refl

-- `shutdown` handles one batch, as `processBatch` does: the first messages of the queue are sent and
-- those behind them still wait, or one fails and none is lost. The queue is paused then, so that a
-- later tick of the timer sends nothing: what waits after the batch stays where it is.
pub shutdown-IsAccounted :
    (s : MessageQueue) (w : World)
    → IsAccounted s w (shutdown s w).0 (shutdown s w).1
      × ((shutdown s w).0.paused ≡ true)
      × (process_tick (shutdown s w).0 (shutdown s w).1 ≡ shutdown s w)
shutdown-IsAccounted s w = (
  rw (shutdown_lem s w) (batch-IsAccounted s (closing s) w refl refl refl refl),
  paused-shutdown s w,
  process_tick_paused (shutdown s w).0 (shutdown s w).1 (paused-shutdown s w),
)
