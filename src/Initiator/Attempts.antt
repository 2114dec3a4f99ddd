-- ===== src/Initiator/Attempts.antt =====
-- The attempts to connect again come to an end.
use nest_quickfix.Prelude.{
  ℕ, zero, suc, ◌+◌, ◌≤◌, ◌≡◌, refl, ap, Bool, true, false, leb, Option, List, [], ◌∷◌, none, some,
  Bool-cases, inl, inr, arith,
}
use nest_quickfix.Result.{Error}
use nest_quickfix.World.{World}
use nest_quickfix.World.Exec.{Exec, modify, gets, ◌>>=◌, catch}
use nest_quickfix.World.Exec.Keeps.{Keeps, keeps_rules}
use nest_quickfix.Initiator.{
  Initiator, InitiatorConfig, InitiatorEvent, limit, create, announce, emit_error, connect,
  answer_connect, schedule_reconnect, start, reconnect, in_world, reconnect_failed,
}

-- `a` attempts were made, and the timer is set only if another is left.
pub record IsPaced (config : InitiatorConfig) (a : ℕ) (i : Initiator) : Type 0 where
  pub made : i.reconnect_attempts ≡ a
  pub more : i.reconnect_timer ≡ true → a + 1 ≤ limit config.reconnect

module _ (config : InitiatorConfig) (a : ℕ) where
  announce-Keeps : (e : InitiatorEvent) → Keeps (IsPaced config a) (announce e)
  unfolding modify
  announce-Keeps e = record { after = λ i p. record { made = p.made; more = p.more } }

  emit_error-Keeps : (e : Error) → Keeps (IsPaced config a) (emit_error e)
  unfolding emit_error
  emit_error-Keeps e = search (keeps_rules, announce-Keeps) depth 12

  answer_connect-Keeps :
      (answers : List (Option Error)) → Keeps (IsPaced config a) (answer_connect answers)
  unfolding answer_connect
  answer_connect-Keeps [] = record { after = λ i p. p }
  answer_connect-Keeps (none ∷ rest) = record {
    after = λ i p. record { made = p.made; more = p.more };
  }
  answer_connect-Keeps (some e ∷ rest) = record {
    after = λ i p. record { made = p.made; more = p.more };
  }

  connect-Keeps : Keeps (IsPaced config a) connect
  unfolding connect
  connect-Keeps = record { after = λ i p. (answer_connect-Keeps i.connections).after i p }

  in_world-Keeps : (m : Exec World (Unit {0})) → Keeps (IsPaced config a) (in_world m)
  in_world-Keeps m = record { after = λ i p. record { made = p.made; more = p.more } }

  schedule_reconnect-Keeps : Keeps (IsPaced config a) (schedule_reconnect config)
  unfolding schedule_reconnect ◌>>=◌ gets modify
  schedule_reconnect-Keeps = record {
    after = λ i p. elim (Bool-cases (leb (limit config.reconnect) i.reconnect_attempts)) [
      | inl e ↦ rw e (record { made = p.made; more = p.more })
      | inr e ↦ rw e (record { made = p.made; more = λ t. ground (arith, p.made) })
    ];
  }

  start-Keeps : Keeps (IsPaced config a) (start config)
  unfolding start
  start-Keeps =
      search
        (
          keeps_rules, announce-Keeps, emit_error-Keeps, connect-Keeps, in_world-Keeps,
          schedule_reconnect-Keeps,
        )
        depth 12

  -- The body of the timer's callback.
  retry-Keeps : Keeps (IsPaced config a) (catch (start config) (λ e. announce (reconnect_failed e)))
  retry-Keeps = search (keeps_rules, announce-Keeps, start-Keeps) depth 12

module _ (config : InitiatorConfig) where
  reconnect-IsPaced :
      (a : ℕ) (i : Initiator)
      → IsPaced config a i
      → i.reconnect_timer ≡ true
      → IsPaced config (a + 1) (reconnect config i)
  unfolding reconnect
  reconnect-IsPaced a i p t = rw t (
      (retry-Keeps config (a + 1)).after _
        (record { made = ap (λ n. n + 1) p.made; more = λ e. absurd (cc e) }))

  pub reconnect_idle : (i : Initiator) → i.reconnect_timer ≡ false → reconnect config i ≡ i
  unfolding reconnect
  reconnect_idle i t = rw t refl

  -- The timer runs out `n` times, if it is set.
  unfoldable pub reconnect_times : ℕ → Initiator → Initiator
  reconnect_times zero i = i
  reconnect_times (suc n) i = reconnect_times n (reconnect config i)

  reconnect_times_idle :
      (n : ℕ) (i : Initiator) → i.reconnect_timer ≡ false → reconnect_times n i ≡ i
  unfolding reconnect_times
  reconnect_times_idle zero i t = refl
  reconnect_times_idle (suc n) i t = rw (reconnect_idle i t) (reconnect_times_idle n i t)

  -- No attempt is waited for, and no more were made than the limit allows.
  pub record IsOver (i : Initiator) : Type 0 where
    pub idle : i.reconnect_timer ≡ false
    pub within : i.reconnect_attempts ≤ limit config.reconnect

  reconnect_times-IsOver :
      (n a : ℕ) (i : Initiator)
      → IsPaced config a i
      → a ≤ limit config.reconnect
      → limit config.reconnect ≤ a + n
      → IsOver (reconnect_times n i)
  unfolding reconnect_times
  reconnect_times-IsOver zero a i p l m = elim (Bool-cases i.reconnect_timer) [
    | inl t ↦ absurd (omega (arith, p.more t, m))
    | inr t ↦ record { idle = t; within = rw p.made l }
  ]
  reconnect_times-IsOver (suc n) a i p l m = elim (Bool-cases i.reconnect_timer) [
    | inl t ↦
        reconnect_times-IsOver n (a + 1) (reconnect config i) (reconnect-IsPaced a i p t) (p.more t)
          (omega (arith, m))
    | inr t ↦
        rw (reconnect_idle i t, reconnect_times_idle n i t)
          (record { idle = t; within = rw p.made l })
  ]

-- A new initiator that was started, whatever its connections give and whether or not anybody hears
-- its errors, stops trying: after as many runs of its timer as the limit says, or more, the timer is
-- not set any more, and it has not connected again more often than the limit says.
pub start-IsOver :
    (config : InitiatorConfig) (listens : Bool) (connections : List (Option Error)) (k n : ℕ)
    (w : World)
    → limit config.reconnect ≤ n
    → IsOver config
        (reconnect_times config n (start config (create config listens connections k w)).1)
unfolding create
start-IsOver config listens connections k n w l =
    reconnect_times-IsOver config n 0 (start config (create config listens connections k w)).1
      ((start-Keeps config 0).after _ (record { made = refl; more = λ t. absurd (cc t) }))
      (omega arith) (omega (arith, l))
