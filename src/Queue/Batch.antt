-- ===== src/Queue/Batch.antt =====
-- How the messages of a batch are sent, one by one, until one fails.
use nest_quickfix.Prelude.{
  ◌≡◌, refl, sym, ap, ◌∙◌, Bool, true, ℕ, Option, List, [], ◌∷◌, ◌++◌, Bool-cases, none, some, inl,
  inr, ◌⊎◌,
}
use nest_quickfix.Fields.{FieldType, msg_type}
use nest_quickfix.Message.{Message, has_field, get_field}
use nest_quickfix.Result.{Result, Error, ok, err}
use nest_quickfix.World.{World}
use nest_quickfix.Session.Completed.{get_field-set_missing}
use nest_quickfix.Queue.Sender.{
  QueueMessage, MessageQueue, Outcome, attempt, send_to_session, session_for, count, go_on,
  process_message, send_each,
}

-- Each message of a list is sent, in turn, without an error.
pub data AllSent (managed : Bool) : List QueueMessage → World → World → Type 0 where
  all_sent : (w : World) → AllSent managed [] w w
  one_sent :
      (q : QueueMessage) (qs : List QueueMessage) (w u : World)
      → (attempt managed q.message w).0 ≡ ok tt
      → AllSent managed qs (attempt managed q.message w).2 u
      → AllSent managed (q ∷ qs) w u

-- A message with all fields of another, as it had them, and perhaps more; tried as often.
abbrev pub Extends : QueueMessage → QueueMessage → Type 0
Extends q p =
    (p.retry_count ≡ q.retry_count)
    × ((f : FieldType)
        → has_field q.message f ≡ true
        → get_field p.message f ≡ get_field q.message f)

abbrev pub AllExtend : List QueueMessage → List QueueMessage → Type 0
AllExtend [] [] = Unit
AllExtend [] (p ∷ ps) = ⊥
AllExtend (q ∷ qs) [] = ⊥
AllExtend (q ∷ qs) (p ∷ ps) = Extends q p × AllExtend qs ps

-- Sending changes the counters only.
pub record IsCounting (s t : MessageQueue) : Type 0 where
  pub queue_kept : t.queue ≡ s.queue
  pub failed_kept : t.failed ≡ s.failed
  pub managed_kept : t.managed ≡ s.managed
  pub paused_kept : t.paused ≡ s.paused

count-IsCounting : (r : Result (Unit {0})) (s : MessageQueue) → IsCounting s (count r s)
unfolding count
count-IsCounting (ok x) s = record {
  queue_kept = refl;
  failed_kept = refl;
  managed_kept = refl;
  paused_kept = refl;
}
count-IsCounting (err e) s = record {
  queue_kept = refl;
  failed_kept = refl;
  managed_kept = refl;
  paused_kept = refl;
}

send_to_session-Extends :
    (x : Option ℕ) (m : Message) (w : World) (f : FieldType)
    → has_field m f ≡ true
    → get_field (send_to_session x m w).1 f ≡ get_field m f
unfolding send_to_session
send_to_session-Extends none m w f h = refl
send_to_session-Extends (some r) m w f h = get_field-set_missing m _ f ∙ rw h refl

attempt-Extends :
    (managed : Bool) (m : Message) (w : World) (f : FieldType)
    → has_field m f ≡ true
    → get_field (attempt managed m w).1 f ≡ get_field m f
unfolding attempt
attempt-Extends managed m w f h = elim (Bool-cases (has_field m msg_type)) [
  | inl t ↦ rw t (send_to_session-Extends (session_for managed m w) m w f h)
  | inr t ↦ rw t refl
]

AllExtend-refl : (qs : List QueueMessage) → AllExtend qs qs
AllExtend-refl [] = tt
AllExtend-refl (q ∷ qs) = ((refl, λ f h. refl), AllExtend-refl qs)

-- The run of a list of messages that ends at an error.
pub record IsBroken (managed : Bool) (qs : List QueueMessage) (w : World) (o : Outcome)
    : Type 0 where
  pub front : List QueueMessage
  pub failing : QueueMessage
  pub back : List QueueMessage
  pub parts : qs ≡ front ++ failing ∷ back
  pub between : World
  pub sent : AllSent managed front w between
  pub error : Error
  pub wrong : (attempt managed failing.message between).0 ≡ err error
  pub world : o.3 ≡ (attempt managed failing.message between).2
  pub outcome : o.0 ≡ err error

abbrev pub Run : Bool → List QueueMessage → World → Outcome → Type 0
Run managed qs w o = ((o.0 ≡ ok tt) × AllSent managed qs w o.3) ⊎ IsBroken managed qs w o

-- What `send_each` leaves: how the run ended, the batch with fields added, and other counters.
abbrev pub Ran : MessageQueue → List QueueMessage → World → Outcome → Type 0
Ran s qs w o = Run s.managed qs w o × (AllExtend qs o.1 × IsCounting s o.2)

-- One message more in front of a run.
longer-Run :
    (managed : Bool) (q : QueueMessage) (qs : List QueueMessage) (w : World) (o p : Outcome)
    → (attempt managed q.message w).0 ≡ ok tt
    → p.0 ≡ o.0
    → p.3 ≡ o.3
    → Run managed qs (attempt managed q.message w).2 o
    → Run managed (q ∷ qs) w p
longer-Run managed q qs w o p e same there (inl (f, all)) =
    inl (same ∙ f, one_sent q qs w p.3 e (rw there all))
longer-Run managed q qs w o p e same there (inr b) = inr (record {
  front = q ∷ b.front;
  failing = b.failing;
  back = b.back;
  parts = ap (λ ps. q ∷ ps) b.parts;
  between = b.between;
  sent = one_sent q b.front w b.between e b.sent;
  error = b.error;
  wrong = b.wrong;
  world = there ∙ b.world;
  outcome = same ∙ b.outcome;
})

go_on-Ran :
    (s : MessageQueue) (q : QueueMessage) (qs : List QueueMessage) (w : World)
    (a : Result (Unit {0}) × Message × World) (later : Outcome)
    → attempt s.managed q.message w ≡ a
    → Extends q (record q { message = a.1 })
    → Ran (count a.0 s) qs a.2 later
    → Ran s (q ∷ qs) w (go_on (a.0, record q { message = a.1 }, count a.0 s, a.2) qs later)
unfolding go_on count
go_on-Ran s q qs w (ok x, m, u) (r, qs', t, v) same more (run, (extended, c)) = (
  longer-Run s.managed q qs w (r, qs', t, v) (r, record q { message = m } ∷ qs', t, v)
      (ap (λ a. a.0) same) refl refl (rw same run),
  (
    (more, extended),
    record {
      queue_kept = c.queue_kept;
      failed_kept = c.failed_kept;
      managed_kept = c.managed_kept;
      paused_kept = c.paused_kept;
    },
  ),
)
go_on-Ran s q qs w (err x, m, u) later same more ran = (
  inr (record {
    front = [];
    failing = q;
    back = qs;
    parts = refl;
    between = w;
    sent = all_sent w;
    error = x;
    wrong = ap (λ a. a.0) same;
    world = ap (λ a. a.2) (sym same);
    outcome = refl;
  }),
  ((more, AllExtend-refl qs), count-IsCounting (err x) s),
)

pub send_each-Ran :
    (qs : List QueueMessage) (s : MessageQueue) (w : World) → Ran s qs w (send_each qs s w)
unfolding send_each process_message
send_each-Ran [] s w = (
  inl (refl, all_sent w),
  (tt, record { queue_kept = refl; failed_kept = refl; managed_kept = refl; paused_kept = refl }),
)
send_each-Ran (q ∷ qs) s w =
    let a = attempt s.managed q.message w in
    go_on-Ran s q qs w a (send_each qs (count a.0 s) a.2) refl
      (refl, attempt-Extends s.managed q.message w) (send_each-Ran qs (count a.0 s) a.2)
