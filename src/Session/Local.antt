-- ===== src/Session/Local.antt =====
-- Sending changes no more than the session's object, its socket and the log.
use nest_quickfix.Prelude.{ℕ, ◌≡◌, ap, Bool-cases, inl, inr, List, [], ◌∷◌, Option, none, some}
use nest_quickfix.Text.{Text}
use nest_quickfix.Result.{Result, ok, err, Error}
use nest_quickfix.Message.{Message, create_reverse, to_string}
use nest_quickfix.World.{World}
use nest_quickfix.World.Exec.{continue}
use nest_quickfix.World.Store.{note}
use nest_quickfix.World.Touches.{Touches, Touches-refl, Touches-put, Touches-log}
use nest_quickfix.Session.Sending.{send_message, transmit, write, answer, set_missing}
use nest_quickfix.Session.Sent.{transmit_open, transmit_shut, send_message_lem, numbered, defaults}

pub answer-Touches :
    (k : ℕ) (raw : Text) (answers : List (Option Error)) (w : World)
    → Touches k w (answer k raw answers w).1
unfolding answer note
answer-Touches k raw [] w = Touches-log k _ w
answer-Touches k raw (none ∷ answers) w = Touches-put k _ _ w
answer-Touches k raw (some e ∷ answers) w = Touches-put k _ w.log w

write-Touches : (x : Result Text) (k : ℕ) (w : World) → Touches k w (continue (x, w) (write k)).1
unfolding write
write-Touches (ok raw) k w = answer-Touches k raw (w.sockets k).answers w
write-Touches (err e) k w = Touches-refl k w

transmit-Touches :
    (r : ℕ) (m : Message) (w : World) → Touches (w.objects r).socket w (transmit r m w).1
transmit-Touches r m w = elim (Bool-cases (w.sockets (w.objects r).socket).writable) [
  | inl h ↦
      rw (transmit_open r m w h)
        (write-Touches (to_string (create_reverse m)) (w.objects r).socket w)
  | inr h ↦ rw (transmit_shut r m w h) (Touches-refl (w.objects r).socket w)
]

-- The parts of the world that sending does not reach.
module _ (r : ℕ) (m : Message) (w : World) where
  after-numbered : Touches ((numbered r w).objects r).socket (numbered r w) (send_message r m w).1
  after-numbered =
      rw (send_message_lem r m w) (transmit-Touches r (set_missing m (defaults w r)) (numbered r w))

  pub registry-send_message : (send_message r m w).1.registry ≡ w.registry
  registry-send_message = ap (λ u. u.registry) after-numbered

  pub rooms-send_message : (send_message r m w).1.rooms ≡ w.rooms
  rooms-send_message = ap (λ u. u.rooms) after-numbered

  pub now-send_message : (send_message r m w).1.now ≡ w.now
  now-send_message = ap (λ u. u.now) after-numbered
