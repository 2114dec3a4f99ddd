-- ===== src/Protocol/Flow.antt =====
-- When messages wait, and what a logon makes of those that have waited.
use nest_quickfix.Prelude.{
  ◌≡◌, refl, ◌∙◌, Bool, true, false, not, ◌&&◌, ◌||◌, ◌⊎◌, inl, inr, List, [], ◌∷◌, ◌++◌, All,
  All-append, arith, if◌then◌else◌, Bool-cases,
}
use nest_quickfix.Result.{ok, ◌>>=◌}
use nest_quickfix.Fields.MsgType
use nest_quickfix.Message.{Message, require_fields}
use nest_quickfix.Protocol.{
  ProtocolManager, has_type, mark, drain, dispatch, process_incoming, should_queue_message,
  validated_fields, validate_field_values,
}

abbrev IsNoLogon : Message → Type 0
IsNoLogon m = has_type MsgType.logon m ≡ false

-- Messages wait only while there was no logon, and no logon is among them.
pub record IsOrderly (p : ProtocolManager) : Type 0 where
  pub idle : (p.is_logged_on ≡ false) ⊎ (p.message_queue ≡ [])
  pub waiting : All IsNoLogon p.message_queue

-- Some message of the list is a logout.
abbrev pub has_logout : List Message → Bool
has_logout [] = false
has_logout (m ∷ ms) = has_type MsgType.logout m || has_logout ms

drain_lem :
    (queue : List Message) (on : Bool)
    → All IsNoLogon queue
    → drain queue on ≡ (on && not (has_logout queue))
unfolding drain mark
drain_lem [] on h = ground arith
drain_lem (m ∷ queue) on (n, h) = ground (arith, drain_lem queue (mark m on) h)

dispatch-IsOrderly :
    (m : Message) (p : ProtocolManager)
    → IsOrderly p
    → should_queue_message m p ≡ false
    → IsOrderly (dispatch m p)
unfolding dispatch should_queue_message mark
dispatch-IsOrderly m p o h = elim (Bool-cases (has_type MsgType.logon m)) [
  | inl e ↦ rw e (record { idle = inr refl; waiting = tt })
  | inr e ↦ rw e (record { idle = still o.idle; waiting = o.waiting })
]
  where
    still :
        (p.is_logged_on ≡ false) ⊎ (p.message_queue ≡ [])
        → ((if has_type MsgType.logout m then false else p.is_logged_on) ≡ false)
          ⊎ (p.message_queue ≡ [])
    still (inl off) = inl (ground arith)
    still (inr none_waiting) = inr none_waiting

queue-IsOrderly :
    (m : Message) (p : ProtocolManager)
    → IsOrderly p
    → should_queue_message m p ≡ true
    → IsOrderly (record p { message_queue = p.message_queue ++ m ∷ [] })
unfolding should_queue_message
queue-IsOrderly m p o h = record {
  idle = inl (ground arith);
  waiting = All-append IsNoLogon p.message_queue (m ∷ []) o.waiting (ground arith, tt);
}

-- What a message that passes the validation does.
process_incoming_valid :
    (m : Message) (p : ProtocolManager)
    → require_fields validated_fields m ≡ ok tt
    → validate_field_values m ≡ ok tt
    → process_incoming m p ≡ (
        if should_queue_message m p
        then ok (record p { message_queue = p.message_queue ++ m ∷ [] })
        else ok (dispatch m p))
unfolding process_incoming
process_incoming_valid m p r v = rw (r, v)

accepted :
    (b : Bool) (m : Message) (p q : ProtocolManager)
    → (require_fields validated_fields m >>= λ x. validate_field_values m >>= λ y.
        if b
        then ok (record p { message_queue = p.message_queue ++ m ∷ [] })
        else ok (dispatch m p))
      ≡ ok q
    → q ≡ (if b then record p { message_queue = p.message_queue ++ m ∷ [] } else dispatch m p)
accepted b m p q e = ground arith

-- `processIncoming` keeps the manager orderly: while messages wait it is not logged on, and none of
-- those that wait is a logon.
pub process_incoming-IsOrderly :
    (m : Message) (p q : ProtocolManager) → IsOrderly p → process_incoming m p ≡ ok q → IsOrderly q
unfolding process_incoming
process_incoming-IsOrderly m p q o e =
    rw (accepted (should_queue_message m p) m p q e) (elim (Bool-cases (should_queue_message m p)) [
      | inl h ↦ rw h (queue-IsOrderly m p o h)
      | inr h ↦ rw h (dispatch-IsOrderly m p o h)
    ])

-- A valid logon empties the queue; afterwards the manager is logged on, unless a logout was among
-- the messages that waited.
pub process_incoming_logon :
    (m : Message) (p : ProtocolManager)
    → IsOrderly p
    → has_type MsgType.logon m ≡ true
    → require_fields validated_fields m ≡ ok tt
    → validate_field_values m ≡ ok tt
    → process_incoming m p
      ≡ ok (record { message_queue = []; is_logged_on = not (has_logout p.message_queue) })
unfolding should_queue_message dispatch
process_incoming_logon m p o l r v =
    process_incoming_valid m p r v ∙ ground (arith, drain_lem p.message_queue true o.waiting)
