-- ===== src/Examples/Wire.antt =====
-- The theorems on the parser of the protocol, its validator and the initiator.
use nest_quickfix.Prelude.{◌≡◌, true, false, some, [], ◌∷◌, ◌++◌, arith}
use nest_quickfix.Text.{Text, text, soh}
use nest_quickfix.Result.{error, err}
use nest_quickfix.Parser.RoundTrip.{received}
use nest_quickfix.Protocol.Checksum.{validate}
use nest_quickfix.Protocol.Checksum.Accepted.{validate-received}
use nest_quickfix.Protocol.Parser.{process_data}
use nest_quickfix.Protocol.Parser.Silent.{IsRest, process_data-IsRest}
use nest_quickfix.Initiator.{InitiatorConfig, create, start, stop}
use nest_quickfix.Initiator.Attempts.{IsOver, reconnect_times, start-IsOver}
use nest_quickfix.Initiator.Refused.{NeverStarted, run_of, start-NeverStarted, stop_refused}
use nest_quickfix.Examples.{beat, beat-IsSendable}
use nest_quickfix.Examples.Sessions.{quiet, config, idle}

validate-received_example : validate (received beat) ≡ true
validate-received_example = validate-received beat beat-IsSendable

-- The first part of a message is in the buffer; its rest and the start of the next come in.
abbrev half : Text
half = text "8=FIX.4.4" ++ soh ∷ text "9=5" ++ soh ∷ text "35="

abbrev other_half : Text
other_half = text "0" ++ soh ∷ text "10=161" ++ soh ∷ text "8=FI"

process_data-IsRest_example :
    ((process_data half other_half).0 ≡ [])
    × IsRest (half ++ other_half) (process_data half other_half).1
process_data-IsRest_example = process_data-IsRest half other_half

-- Two more attempts at most.
abbrev client : InitiatorConfig
client = record { session = config; reconnect = some (record { enabled = true; max_attempts = 2 }) }

start-IsOver_example : IsOver client (
    reconnect_times client 2
      (start client (create client true (some (error (text "refused")) ∷ []) 0 quiet)).1)
start-IsOver_example =
    start-IsOver client true (some (error (text "refused")) ∷ []) 0 2 quiet (omega arith)

start-NeverStarted_example :
    NeverStarted (run_of client true (some (error (text "refused")) ∷ []) 0 2 quiet).events
start-NeverStarted_example =
    start-NeverStarted client true (some (error (text "refused")) ∷ []) 0 2 quiet

stop_refused_example :
    stop idle (run_of client true (some (error (text "refused")) ∷ []) 0 2 quiet) ≡ (
      err (error (text "Session already disconnected")),
      record (run_of client true (some (error (text "refused")) ∷ []) 0 2 quiet) {
        reconnect_timer = false;
      },
    )
stop_refused_example = stop_refused idle client true (some (error (text "refused")) ∷ []) 0 2 quiet
