-- ===== src/Examples/Queues.antt =====
-- The theorems on queues, the protocol manager and the service, at concrete states.
use nest_quickfix.Prelude.{◌≡◌, true, suc, ◌+◌, refl, ℕ, false, not, none, [], ◌∷◌, arith, inl}
use nest_quickfix.Text.{text}
use nest_quickfix.Result.{ok, error}
use nest_quickfix.Fields.{
  begin_string, body_length, msg_type, sender_comp_id, target_comp_id, msg_seq_num, sending_time,
  heart_bt_int,
}
use nest_quickfix.Message.{Message, string, has_field, get_field, strict_equal}
use nest_quickfix.Rooms.{join, empty}
use nest_quickfix.World.{World}
use nest_quickfix.Queue.{enqueue, PriorityQueue}
use nest_quickfix.Queue.Priority.{IsSorted, IsEnqueued, enqueue-IsEnqueued}
use nest_quickfix.Queue.Sender.{
  MessageQueue, new_queue, submit, process_batch, process_tick, shutdown, attempt, send_to_session,
  session_for,
}
use nest_quickfix.Queue.Shutdown.{shutdown-IsAccounted}
use nest_quickfix.Queue.Retries.{IsAccounted, process_batch-IsAccounted}
use nest_quickfix.Queue.Limit.{IsRetried, IsGivenUp, ticks, ticks-IsRetried}
use nest_quickfix.Protocol.{
  ProtocolManager, new_manager, process_incoming, validate_field_values, validate_logon,
  should_queue_message,
}
use nest_quickfix.Protocol.Flow.{
  IsOrderly, has_logout, process_incoming-IsOrderly, process_incoming_logon,
}
use nest_quickfix.Service.{FixService}
use nest_quickfix.Examples.{beat}
use nest_quickfix.Examples.Sessions.{quiet}

abbrev three : PriorityQueue ℕ
three =
    record { item = 10; priority = 5 }
    ∷ record { item = 20; priority = 2 }
    ∷ record { item = 30; priority = 1 }
    ∷ []

three-IsSorted : IsSorted three
three-IsSorted = ((omega arith, (omega arith, tt)), ((omega arith, tt), (tt, tt)))

enqueue-IsEnqueued_example : IsEnqueued three 40 2 (enqueue three 40 2)
enqueue-IsEnqueued_example = enqueue-IsEnqueued three 40 2 three-IsSorted

-- A queue without a session manager, where every send fails.
abbrev loaded : MessageQueue
loaded = submit (record { message = beat; retry_count = none }) 1 (new_queue none none false)

process_batch-IsAccounted_example :
    IsAccounted loaded quiet (process_batch loaded quiet).0 (process_batch loaded quiet).1
process_batch-IsAccounted_example = process_batch-IsAccounted loaded quiet

shutdown-IsAccounted_example :
    IsAccounted loaded quiet (shutdown loaded quiet).0 (shutdown loaded quiet).1
    × ((shutdown loaded quiet).0.paused ≡ true)
    × (process_tick (shutdown loaded quiet).0 (shutdown loaded quiet).1 ≡ shutdown loaded quiet)
shutdown-IsAccounted_example = shutdown-IsAccounted loaded quiet

ticks-IsRetried_example :
    IsRetried loaded beat (1 + 1) (ticks (suc 1) loaded quiet).0
    × IsGivenUp loaded beat (ticks (suc (suc loaded.max_retries)) loaded quiet).0
unfolding submit new_queue enqueue nest_quickfix.Queue.sort nest_quickfix.Queue.place attempt
    send_to_session session_for has_field nest_quickfix.OrderedMap.has
ticks-IsRetried_example =
    ticks-IsRetried loaded quiet beat 1 1 (error (text "No session available")) refl refl refl
      (omega arith) refl (omega arith)

-- A logon, and a logout that came before it.
abbrev header : Message
header = record {
  fields =
      (begin_string, string (text "FIX.4.4"))
      ∷ (body_length, string (text "5"))
      ∷ (sender_comp_id, string (text "A"))
      ∷ (target_comp_id, string (text "B"))
      ∷ (msg_seq_num, string (text "1"))
      ∷ (sending_time, string (text "20240102-03:04:05.006"))
      ∷ (heart_bt_int, string (text "30"))
      ∷ [];
}

abbrev first_logon : Message
first_logon = record { fields = (msg_type, string (text "A")) ∷ header.fields }

abbrev early_logout : Message
early_logout = record { fields = (msg_type, string (text "5")) ∷ header.fields }

abbrev waiting : ProtocolManager
waiting = record { message_queue = early_logout ∷ []; is_logged_on = false }

new_manager-IsOrderly : IsOrderly new_manager
new_manager-IsOrderly = record { idle = inl refl; waiting = tt }

process_incoming-IsOrderly_example : IsOrderly waiting
unfolding process_incoming nest_quickfix.Message.require_fields validate_field_values
    should_queue_message has_field nest_quickfix.OrderedMap.has get_field
    nest_quickfix.OrderedMap.get
process_incoming-IsOrderly_example =
    process_incoming-IsOrderly early_logout new_manager waiting new_manager-IsOrderly refl

process_incoming_logon_example :
    process_incoming first_logon waiting
    ≡ ok (record { message_queue = []; is_logged_on = not (has_logout waiting.message_queue) })
unfolding nest_quickfix.Message.require_fields validate_field_values validate_logon has_field
    nest_quickfix.OrderedMap.has get_field nest_quickfix.OrderedMap.get
process_incoming_logon_example =
    process_incoming_logon first_logon waiting process_incoming-IsOrderly_example refl refl refl

-- Two sessions of a room, one of which is registered.
abbrev shared : World
shared = record quiet {
  rooms = join (text "ROOM") (text "A->C") (join (text "ROOM") (text "A->B") empty);
  registry = (text "A->B", 0) ∷ [];
}

abbrev service : FixService
service = record { target_id = none }
