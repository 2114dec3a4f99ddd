-- ===== src/Session/Bonds.antt =====
-- The socket and the id of a session do not change when a session is ended or removed.
use nest_quickfix.Prelude.{
  ℕ, ◌≡◌, refl, ap, ◌∙◌, Option, none, some, ◌==◌, nat_eq, arith, eq_iff, Bool-cases, inl, inr,
  false, if◌then◌else◌,
}
use nest_quickfix.Text.{Text, text_Eq}
use nest_quickfix.OrderedMap
use nest_quickfix.OrderedMap.Laws.{get-delete}
use nest_quickfix.Result.{ok}
use nest_quickfix.World.{World, Session, SessionState}
use nest_quickfix.World.Exec.{◌>>=◌}
use nest_quickfix.World.Store.{update, set_state, note}
use nest_quickfix.Session.{App, handle_disconnect, clear_timers, remove_all_listeners}
use nest_quickfix.Session.Registry.{remove_session, remove_found}
use nest_quickfix.Session.Ending.{IsPassive, call_each_passive}

-- Every session has the socket and the id that it had.
pub record IsBound (w u : World) : Type 0 where
  pub socket : (q : ℕ) → (u.objects q).socket ≡ (w.objects q).socket
  pub id : (q : ℕ) → (u.objects q).session_id ≡ (w.objects q).session_id

pub IsBound-refl : (w : World) → IsBound w w
IsBound-refl w = record { socket = λ q. refl; id = λ q. refl }

pub IsBound-trans : (w v u : World) → IsBound w v → IsBound v u → IsBound w u
IsBound-trans w v u p q = record {
  socket = λ r. q.socket r ∙ p.socket r;
  id = λ r. q.id r ∙ p.id r;
}

-- A part of the sessions that an update does not change.
pub update_part {ℓ} :
    {A : Type ℓ} (f : ℕ → Session) (r q : ℕ) (s : Session) (part : Session → A)
    → part s ≡ part (f r)
    → part (update f r s q) ≡ part (f q)
update_part f r q s part e = elim (Bool-cases (nat_eq q r)) [
  | inl h ↦ rw h (e ∙ ap (λ n. part (f n)) (ground (arith, h)))
  | inr h ↦ rw h refl
]

get-remove_found :
    (x : Option ℕ) (id other : Text) (w : World)
    → OrderedMap.get w.registry id ≡ x
    → OrderedMap.get (remove_found x id w).registry other
      ≡ (if id == other then none else OrderedMap.get w.registry other)
unfolding remove_found
get-remove_found none id other w e = ground (arith, eq_iff id other)
get-remove_found (some r) id other w e = get-delete w.registry id other

pub get-remove_session :
    (id other : Text) (w : World)
    → OrderedMap.get (remove_session id w).registry other
      ≡ (if id == other then none else OrderedMap.get w.registry other)
unfolding remove_session
get-remove_session id other w = get-remove_found (OrderedMap.get w.registry id) id other w refl

objects-remove_found :
    (x : Option ℕ) (id : Text) (w : World) → (remove_found x id w).objects ≡ w.objects
unfolding remove_found
objects-remove_found none id w = refl
objects-remove_found (some r) id w = refl

pub remove_session-IsBound : (id : Text) (w : World) → IsBound w (remove_session id w)
unfolding remove_session
remove_session-IsBound id w =
    let e = objects-remove_found (OrderedMap.get w.registry id) id w in
    record { socket = λ q. ap (λ f. (f q).socket) e; id = λ q. ap (λ f. (f q).session_id) e }

pub handle_disconnect-IsBound :
    (app : App) (r : ℕ) (w : World)
    → IsPassive app
    → ((handle_disconnect app r w).0 ≡ ok tt)
      × ((handle_disconnect app r w).1.registry ≡ w.registry)
      × IsBound w (handle_disconnect app r w).1
unfolding handle_disconnect ◌>>=◌ set_state clear_timers remove_all_listeners note
handle_disconnect-IsBound app r w p = rw (call_each_passive app) (
  refl,
  refl,
  record {
    socket = λ q. twice q (λ s. s.socket) refl refl;
    id = λ q. twice q (λ s. s.session_id) refl refl;
  },
)
  where
    first : ℕ → Session
    first = update w.objects r (record (w.objects r) { state = SessionState.disconnected })

    second : Session
    second = record (first r) { heartbeat_timer = false; test_request_timer = false }

    twice :
        {A : Type 0} (q : ℕ) (part : Session → A)
        → part second ≡ part (first r)
        → part (record (w.objects r) { state = SessionState.disconnected }) ≡ part (w.objects r)
        → part (update first r second q) ≡ part (w.objects q)
    twice q part e f = update_part first r q second part e ∙ update_part w.objects r q _ part f
