-- ===== src/Session/Sent.antt =====
-- What `sendMessage` puts on the wire, and what it leaves behind.
use nest_quickfix.Prelude.{
  ℕ, ◌+◌, true, false, ◌≡◌, refl, ◌∙◌, ap, sym, inl, inr, ◌++◌, List, [], ◌∷◌, Option, none, some,
  ◌==◌, arith, Bool-cases, if◌then◌else◌,
}
use mathlib.Core.Path.{subst}
use nest_quickfix.Text.{Text, text}
use nest_quickfix.Result.{Result, ok, err, Error, error}
use nest_quickfix.Fields.{FieldType, field_Eq, sender_comp_id, target_comp_id}
use nest_quickfix.Message.{Message, Value, Field, get_field, create_reverse, to_string}
use nest_quickfix.Message.Laws.{IsMessage}
use nest_quickfix.Message.Copies.{get_field-create_reverse}
use nest_quickfix.Date.{format_date_time}
use nest_quickfix.World.{World, written}
use nest_quickfix.World.Exec.{continue}
use nest_quickfix.World.Store.{update}
use nest_quickfix.Session.Sending.{
  set_missing, default_fields, add_required_fields, answer, write, transmit, send_message,
}
use nest_quickfix.Session.Completed.{given, get_field-set_missing, set_missing-IsMessage}

-- The message as `sendMessage` prints it: completed, and with the parties swapped.
abbrev pub outgoing : World → ℕ → Message → Message
outgoing w r m =
    create_reverse (set_missing m (default_fields (w.objects r) (format_date_time w.date)))

-- The field on the wire: the receiver stands as the sender, and the other way round.
abbrev pub addressed : Message → List Field → FieldType → Value
addressed m ds f =
    if sender_comp_id == f
    then given m ds target_comp_id
    else if target_comp_id == f
    then given m ds sender_comp_id
    else given m ds f

get_field-outgoing :
    (w : World) (r : ℕ) (m : Message) (f : FieldType)
    → IsMessage m
    → get_field (outgoing w r m) f
      ≡ addressed m (default_fields (w.objects r) (format_date_time w.date)) f
get_field-outgoing w r m f u =
    let ds = default_fields (w.objects r) (format_date_time w.date) in
    rw (
      get_field-create_reverse (set_missing m ds) f (set_missing-IsMessage m ds u),
      get_field-set_missing m ds target_comp_id,
      get_field-set_missing m ds sender_comp_id,
      get_field-set_missing m ds f,
    )

-- What a call that returns has done: one text was written to the socket of the session, which was
-- writable; it prints a message with the fields of `addressed`.
pub record IsDelivered (w : World) (r : ℕ) (m : Message) (u : World) : Type 0 where
  pub raw : Text
  pub message : Message
  pub logged : u.log ≡ w.log ++ written (w.objects r).socket raw ∷ []
  pub printed : to_string message ≡ ok raw
  pub writable : (w.sockets (w.objects r).socket).writable ≡ true
  pub fields :
      (f : FieldType)
      → get_field message f ≡ addressed m (default_fields (w.objects r) (format_date_time w.date)) f

log-answer :
    (k : ℕ) (raw : Text) (answers : List (Option Error)) (w u : World)
    → answer k raw answers w ≡ (ok tt, u)
    → u.log ≡ w.log ++ written k raw ∷ []
unfolding answer
log-answer k raw [] w u e = ground arith
log-answer k raw (none ∷ answers) w u e = ground arith
log-answer k raw (some x ∷ answers) w u e = ground arith

log-write :
    (k : ℕ) (raw : Text) (w u : World)
    → write k raw w ≡ (ok tt, u)
    → u.log ≡ w.log ++ written k raw ∷ []
unfolding write
log-write k raw w u e = log-answer k raw (w.sockets k).answers w u e

objects-answer :
    (k : ℕ) (raw : Text) (answers : List (Option Error)) (w : World)
    → (answer k raw answers w).1.objects ≡ w.objects
unfolding answer
objects-answer k raw [] w = refl
objects-answer k raw (none ∷ answers) w = refl
objects-answer k raw (some x ∷ answers) w = refl

objects-write : (k : ℕ) (raw : Text) (w : World) → (write k raw w).1.objects ≡ w.objects
unfolding write
objects-write k raw w = objects-answer k raw (w.sockets k).answers w

-- The world after a sequence number was used up.
abbrev pub numbered : ℕ → World → World
numbered r w = record w {
  objects =
      update w.objects r
        (record (w.objects r) { next_outgoing_seq_num = (w.objects r).next_outgoing_seq_num + 1 });
}

abbrev pub defaults : World → ℕ → List Field
defaults w r = default_fields (w.objects r) (format_date_time w.date)

pub send_message_lem :
    (r : ℕ) (m : Message) (w : World)
    → send_message r m w ≡ transmit r (set_missing m (defaults w r)) (numbered r w)
unfolding send_message add_required_fields
send_message_lem r m w = refl

-- What `transmit` does, by cases on the socket and on the text.
pub transmit_shut :
    (r : ℕ) (m : Message) (w : World)
    → (w.sockets (w.objects r).socket).writable ≡ false
    → transmit r m w ≡ (err (error (text "Socket not writable")), w)
unfolding transmit
transmit_shut r m w h = rw h

pub transmit_open :
    (r : ℕ) (m : Message) (w : World)
    → (w.sockets (w.objects r).socket).writable ≡ true
    → transmit r m w ≡ continue (to_string (create_reverse m), w) (write (w.objects r).socket)
unfolding transmit
transmit_open r m w h = rw h

objects-continue-write :
    (x : Result Text) (k : ℕ) (w : World) → (continue (x, w) (write k)).1.objects ≡ w.objects
objects-continue-write (ok raw) k w = objects-write k raw w
objects-continue-write (err e) k w = refl

objects-transmit : (r : ℕ) (m : Message) (w : World) → (transmit r m w).1.objects ≡ w.objects
objects-transmit r m w = elim (Bool-cases (w.sockets (w.objects r).socket).writable) [
  | inl e ↦
      ap (λ x. x.1.objects) (transmit_open r m w e)
      ∙ objects-continue-write (to_string (create_reverse m)) (w.objects r).socket w
  | inr e ↦ ap (λ x. x.1.objects) (transmit_shut r m w e)
]

-- Whatever the outcome, `sendMessage` uses up one sequence number of its session, and changes no
-- other part of any session object.
pub objects-send_message :
    (r : ℕ) (m : Message) (w : World)
    → (send_message r m w).1.objects
      ≡ update w.objects r
          (record (w.objects r) { next_outgoing_seq_num = (w.objects r).next_outgoing_seq_num + 1 })
objects-send_message r m w =
    ap (λ x. x.1.objects) (send_message_lem r m w)
    ∙ objects-transmit r (set_missing m (defaults w r)) (numbered r w)

pub socket_of_numbered :
    (r : ℕ) (w : World) → ((numbered r w).objects r).socket ≡ (w.objects r).socket
socket_of_numbered r w = ground arith

continue-write-eq-ok :
    (x : Result Text) (k : ℕ) (w u : World)
    → continue (x, w) (write k) ≡ (ok tt, u)
    → (raw : Text) × (x ≡ ok raw) × (write k raw w ≡ (ok tt, u))
continue-write-eq-ok (ok raw) k w u e = (raw, refl, e)
continue-write-eq-ok (err x) k w u e = cc

transmit-eq-ok :
    (r : ℕ) (m : Message) (w u : World)
    → transmit r m w ≡ (ok tt, u)
    → ((w.sockets (w.objects r).socket).writable ≡ true)
      × (raw : Text) × (to_string (create_reverse m) ≡ ok raw)
      × (write (w.objects r).socket raw w ≡ (ok tt, u))
transmit-eq-ok r m w u e = elim (Bool-cases (w.sockets (w.objects r).socket).writable) [
  | inl h ↦
      let (raw, printed, wrote) =
        continue-write-eq-ok (to_string (create_reverse m)) (w.objects r).socket w u
          (sym (transmit_open r m w h) ∙ e) in
      (h, raw, printed, wrote)
  | inr h ↦ cc (transmit_shut r m w h)
]

pub send_message-IsDelivered :
    (r : ℕ) (m : Message) (w u : World)
    → IsMessage m
    → send_message r m w ≡ (ok tt, u)
    → IsDelivered w r m u
send_message-IsDelivered r m w u unique e =
    let (open_socket, raw, printed, wrote) =
      transmit-eq-ok r (set_missing m (defaults w r)) (numbered r w) u
        (sym (send_message_lem r m w) ∙ e) in
    record {
      raw = raw;
      message = outgoing w r m;
      logged =
          subst (λ k. u.log ≡ w.log ++ written k raw ∷ []) (socket_of_numbered r w)
            (log-write ((numbered r w).objects r).socket raw (numbered r w) u wrote);
      printed = printed;
      writable = subst (λ k. (w.sockets k).writable ≡ true) (socket_of_numbered r w) open_socket;
      fields = λ f. get_field-outgoing w r m f unique;
    }
