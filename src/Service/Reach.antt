-- ===== src/Service/Reach.antt =====
-- Which sessions a message to a room reaches.
use nest_quickfix.Prelude.{ℕ, ◌+◌, List, [], ◌∷◌, nat_eq, if◌then◌else◌}
use nest_quickfix.Text.{Text}
use nest_quickfix.Message.{Message}
use nest_quickfix.World.{World, Session}

-- How often a session stands in a list.
abbrev pub occurrences : ℕ → List ℕ → ℕ
occurrences r [] = 0
occurrences r (q ∷ qs) = (if nat_eq r q then 1 else 0) + occurrences r qs

-- A session object after it has sent `n` messages.
abbrev pub after_sends : Session → ℕ → Session
after_sends s n = record s { next_outgoing_seq_num = s.next_outgoing_seq_num + n }
