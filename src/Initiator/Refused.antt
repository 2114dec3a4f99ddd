-- ===== src/Initiator/Refused.antt =====
-- An initiator does not come to be started, and cannot be stopped.
use nest_quickfix.Prelude.{
  ℕ, zero, suc, ◌≡◌, refl, Bool, true, false, Option, none, some, List, [], ◌∷◌, All, All-append,
  Bool-cases, inl, inr, ap,
}
use nest_quickfix.Text.{text}
use nest_quickfix.Result.{Error, err, error}
use nest_quickfix.Message.{undefined}
use nest_quickfix.World.Store.{update-same}
use nest_quickfix.World.{World, SessionState}
use nest_quickfix.World.Exec.{modify, gets, ◌>>=◌, ◌>>◌}
use nest_quickfix.World.Exec.Keeps.{Keeps, keeps_rules, Keeps-catch}
use nest_quickfix.Session.{App, logon, new_session}
use nest_quickfix.Session.LoggingOut.{logout_refused}
use nest_quickfix.Initiator.{
  Initiator, InitiatorConfig, InitiatorEvent, create, announce, emit_error, connect, answer_connect,
  schedule_reconnect, start, stop, reconnect, in_world, reconnect_failed, started,
}
use nest_quickfix.Initiator.Attempts.{reconnect_times, reconnect_idle}

abbrev is_started : InitiatorEvent → Bool
is_started started = true
is_started _ = false

-- The event `started` is not among the events.
abbrev pub NeverStarted : List InitiatorEvent → Type 0
NeverStarted es = All (λ e. is_started e ≡ false) es

-- The session is DISCONNECTED, and the event `started` was not emitted.
pub record IsIdle (i : Initiator) : Type 0 where
  pub down : (i.world.objects i.session).state ≡ SessionState.disconnected
  pub never : NeverStarted i.events

announce-Keeps : (e : InitiatorEvent) → is_started e ≡ false → Keeps IsIdle (announce e)
unfolding modify
announce-Keeps e n = record {
  after = λ i p. record {
    down = p.down;
    never = All-append (λ x. is_started x ≡ false) i.events (e ∷ []) p.never (n, tt);
  };
}

emit_error-Keeps : (e : Error) → Keeps IsIdle (emit_error e)
unfolding emit_error
emit_error-Keeps e = search (keeps_rules, announce-Keeps) depth 12

answer_connect-Keeps : (answers : List (Option Error)) → Keeps IsIdle (answer_connect answers)
unfolding answer_connect
answer_connect-Keeps [] = record { after = λ i p. p }
answer_connect-Keeps (none ∷ rest) = record {
  after = λ i p. record { down = p.down; never = p.never };
}
answer_connect-Keeps (some e ∷ rest) = record {
  after = λ i p. record { down = p.down; never = p.never };
}

connect-Keeps : Keeps IsIdle connect
unfolding connect
connect-Keeps = record { after = λ i p. (answer_connect-Keeps i.connections).after i p }

logon_down :
    (r : ℕ) (w : World)
    → (w.objects r).state ≡ SessionState.disconnected
    → logon r w ≡ (err (error (text "Session must be in CONNECTED state to logon")), w)
unfolding logon ◌>>=◌
logon_down r w h = rw h refl

-- The logon fails, so that the event `started` is not reached.
log_on-Keeps :
    Keeps IsIdle (do session ← gets (λ i. i.session); in_world (logon session); announce started)
unfolding ◌>>=◌ gets
log_on-Keeps = record { after = λ i p. rw (logon_down i.session i.world p.down) p }

set_timer-Keeps : Keeps IsIdle (modify (λ i. record i { reconnect_timer = true }))
unfolding modify
set_timer-Keeps = record { after = λ i p. record { down = p.down; never = p.never } }

module _ (config : InitiatorConfig) where
  schedule_reconnect-Keeps : Keeps IsIdle (schedule_reconnect config)
  unfolding schedule_reconnect
  schedule_reconnect-Keeps = search (keeps_rules, announce-Keeps, set_timer-Keeps) depth 12

  start-Keeps : Keeps IsIdle (start config)
  unfolding start
  start-Keeps =
      search (keeps_rules, emit_error-Keeps, connect-Keeps, log_on-Keeps, schedule_reconnect-Keeps)
        depth 12

  reconnect-IsIdle : (i : Initiator) → IsIdle i → IsIdle (reconnect config i)
  unfolding reconnect
  reconnect-IsIdle i p = elim (Bool-cases i.reconnect_timer) [
    | inl t ↦ rw t (
        (Keeps-catch (start config) _ start-Keeps
            (λ e. announce-Keeps (reconnect_failed e) refl)).after
          _ (record { down = p.down; never = p.never }))
    | inr t ↦ rw (reconnect_idle config i t) p
  ]

  reconnect_times-IsIdle : (n : ℕ) (i : Initiator) → IsIdle i → IsIdle (reconnect_times config n i)
  unfolding reconnect_times
  reconnect_times-IsIdle zero i p = p
  reconnect_times-IsIdle (suc n) i p =
      reconnect_times-IsIdle n (reconnect config i) (reconnect-IsIdle i p)

-- A new initiator that was started, and whose timer ran `n` times.
abbrev pub run_of : InitiatorConfig → Bool → List (Option Error) → ℕ → ℕ → World → Initiator
run_of config listens connections k n w =
    reconnect_times config n (start config (create config listens connections k w)).1

run_of-IsIdle :
    (config : InitiatorConfig) (listens : Bool) (connections : List (Option Error)) (k n : ℕ)
    (w : World)
    → IsIdle (run_of config listens connections k n w)
unfolding create new_session
run_of-IsIdle config listens connections k n w = reconnect_times-IsIdle config n _ (
    (start-Keeps config).after _
      (record { down = ap (λ s. s.state) (update-same w.objects w.next_object _); never = tt }))

-- A new initiator that was started does not emit `started`, however often its timer runs and whatever
-- its connections give.
pub start-NeverStarted :
    (config : InitiatorConfig) (listens : Bool) (connections : List (Option Error)) (k n : ℕ)
    (w : World)
    → NeverStarted (run_of config listens connections k n w).events
start-NeverStarted config listens connections k n w =
    (run_of-IsIdle config listens connections k n w).never

-- Whatever the application's functions are, to stop a new initiator that was started throws, however
-- often its timer has run and whatever its connections gave: its timer is stopped, but its socket is
-- not destroyed, `stopped` is not emitted, and nothing else is changed.
pub stop_refused :
    (app : App) (config : InitiatorConfig) (listens : Bool) (connections : List (Option Error))
    (k n : ℕ) (w : World)
    → stop app (run_of config listens connections k n w) ≡ (
      err (error (text "Session already disconnected")),
      record (run_of config listens connections k n w) { reconnect_timer = false },
    )
unfolding stop ◌>>=◌ gets modify
stop_refused app config listens connections k n w =
    let i = run_of config listens connections k n w in
    rw
      (logout_refused app i.session undefined i.world
        (run_of-IsIdle config listens connections k n w).down)
      refl
