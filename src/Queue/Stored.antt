-- ===== src/Queue/Stored.antt =====
-- The messages that a queue holds: those that wait, and those that were given up.
use nest_quickfix.Prelude.{
  ℕ, zero, suc, ◌+◌, ◌≡◌, refl, ap, some, List, [], ◌∷◌, ◌++◌, leb, take, drop, Bool-cases, inl,
  inr,
}
use mathlib.Core.List.{Perm, perm_middle}
use mathlib.Core.List.Perm
use nest_quickfix.Message.{Message}
use nest_quickfix.Queue.{Entry, PriorityQueue, place, sort, enqueue}
use nest_quickfix.Queue.Sender.{
  QueueMessage, MessageQueue, submit, retry, retries_of, handle_send_error, take_batch,
}

-- The messages of a batch, the items of the entries of a queue, and their messages.
abbrev pub messages : List QueueMessage → List Message
messages [] = []
messages (q ∷ qs) = q.message ∷ messages qs

abbrev pub items : PriorityQueue QueueMessage → List QueueMessage
items [] = []
items (e ∷ es) = e.item ∷ items es

abbrev pub waiting : PriorityQueue QueueMessage → List Message
waiting es = messages (items es)

-- All messages that wait or were given up.
abbrev pub held : MessageQueue → List Message
held s = waiting s.queue ++ messages s.failed

messages-append : (ps qs : List QueueMessage) → messages (ps ++ qs) ≡ messages ps ++ messages qs
messages-append [] qs = refl
messages-append (p ∷ ps) qs = ap (λ ms. p.message ∷ ms) (messages-append ps qs)

waiting-append :
    (xs ys : PriorityQueue QueueMessage) → waiting (xs ++ ys) ≡ waiting xs ++ waiting ys
waiting-append [] ys = refl
waiting-append (x ∷ xs) ys = ap (λ ms. x.item.message ∷ ms) (waiting-append xs ys)

waiting-place :
    (e : Entry QueueMessage) (xs : PriorityQueue QueueMessage)
    → Perm (waiting (place e xs)) (e.item.message ∷ waiting xs)
unfolding place
waiting-place e [] = Perm.refl (e.item.message ∷ [])
waiting-place e (x ∷ xs) = elim (Bool-cases (leb x.priority e.priority)) [
  | inl t ↦ rw t (Perm.refl (e.item.message ∷ x.item.message ∷ waiting xs))
  | inr t ↦ rw t (
      Perm.trans (Perm.cons x.item.message (waiting-place e xs))
        (Perm.swap e.item.message x.item.message (waiting xs)))
]

waiting-sort : (xs : PriorityQueue QueueMessage) → Perm (waiting (sort xs)) (waiting xs)
unfolding sort
waiting-sort [] = Perm.refl []
waiting-sort (x ∷ xs) =
    Perm.trans (waiting-place x (sort xs)) (Perm.cons x.item.message (waiting-sort xs))

waiting-enqueue :
    (xs : PriorityQueue QueueMessage) (q : QueueMessage) (p : ℕ)
    → Perm (waiting (enqueue xs q p)) (q.message ∷ waiting xs)
unfolding enqueue
waiting-enqueue xs q p =
    let e : Entry QueueMessage = record { item = q; priority = p } in
    let end : Perm (waiting (xs ++ e ∷ [])) (q.message ∷ waiting xs) =
      rw (waiting-append xs (e ∷ [])) (
        Perm.trans (perm_middle (waiting xs) [])
          (Perm.cons q.message (rw (mathlib.Core.List.append-nil (waiting xs)) (Perm.refl _)))) in
    Perm.trans (waiting-sort (xs ++ e ∷ [])) end

-- A message that is tried again, or given up, is held.
held-retry : (q : QueueMessage) (s : MessageQueue) → Perm (held (retry q s)) (q.message ∷ held s)
unfolding retry submit
held-retry q s = elim (Bool-cases (leb (retries_of q.retry_count) s.max_retries)) [
  | inl t ↦
      let n = retries_of q.retry_count + 1 in
      rw t (
        Perm.append_right (messages s.failed)
          (waiting-enqueue s.queue (record q { retry_count = some n }) n))
  | inr t ↦
      rw (t, messages-append s.failed (q ∷ []))
        (Perm.trans
          (Perm.append_left (waiting s.queue) (
            Perm.trans (perm_middle (messages s.failed) []) (
              Perm.cons q.message
                (rw (mathlib.Core.List.append-nil (messages s.failed)) (Perm.refl _)))))
          (perm_middle (waiting s.queue) (messages s.failed)))
]

-- After a failure all messages of the batch are held, and those that were.
pub held-handle_send_error :
    (qs : List QueueMessage) (s : MessageQueue)
    → Perm (held (handle_send_error qs s)) (messages qs ++ held s)
unfolding handle_send_error
held-handle_send_error [] s = Perm.refl (held s)
held-handle_send_error (q ∷ qs) s = Perm.trans (held-handle_send_error qs (retry q s)) (
    Perm.trans (Perm.append_left (messages qs) (held-retry q s))
      (perm_middle (messages qs) (held s)))

pub take_batch_lem :
    (n : ℕ) (es : PriorityQueue QueueMessage) → take_batch n es ≡ (items (take n es), drop n es)
unfolding take_batch
take_batch_lem zero es = refl
take_batch_lem (suc n) [] = refl
take_batch_lem (suc n) (e ∷ es) = rw (take_batch_lem n es) refl
