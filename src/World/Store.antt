-- ===== src/World/Store.antt =====
-- Reading and writing the objects of the store.
use nest_quickfix.Prelude.{◌≡◌, arith, ℕ, [], ◌∷◌, ◌++◌, nat_eq, if◌then◌else◌}
use nest_quickfix.World.{World, Session, Socket, SessionState, Event}
use nest_quickfix.World.Exec.{Exec, modify}

abbrev pub update {ℓ} : {A : Type ℓ} → (ℕ → A) → ℕ → A → ℕ → A
update f r a q = if nat_eq q r then a else f q

abbrev pub put_session : ℕ → Session → World → World
put_session r s w = record w { objects = update w.objects r s }

abbrev pub put_socket : ℕ → Socket → World → World
put_socket k s w = record w { sockets = update w.sockets k s }

-- `this.state = state`
unfoldable pub set_state : ℕ → SessionState → Exec World (Unit {0})
unfolding modify
set_state r state w = modify (put_session r (record (w.objects r) { state = state })) w

unfoldable pub note : Event → Exec World (Unit {0})
unfolding modify
note e = modify (λ w. record w { log = w.log ++ e ∷ [] })

pub update-same {ℓ} : {A : Type ℓ} (f : ℕ → A) (q : ℕ) (a : A) → update f q a q ≡ a
update-same f q a = ground arith
