-- ===== src/Acceptor/Refused.antt =====
-- What a peer that is refused is sent, and that a refusal changes no session.
use nest_quickfix.Prelude.{
  ℕ, ◌≡◌, refl, sym, ap, ◌∙◌, Bool, true, false, ◌&&◌, Option, none, some, List, [], ◌∷◌, ◌++◌, All,
  append_assoc, append-nil, Bool-cases, inl, inr, if◌then◌else◌,
}
use nest_quickfix.World.Touches.{Touches, Touches-refl, Touches-trans, Touches-put}
use nest_quickfix.Text.{Text}
use nest_quickfix.Result.{Result, ok, err, Error}
use nest_quickfix.Fields.{field_Eq, msg_type}
use nest_quickfix.Message.{
  Message, Value, string, truthy, to_string, set_field, has_field, required_fields, get_field,
  undefined,
}
use nest_quickfix.Message.Laws.{Has, print, to_string_lem, field_laws}
use nest_quickfix.Message.Templates.{logout_message}
use nest_quickfix.World.{World, Event, written, destroyed}
use nest_quickfix.World.Exec.{pure, handle, continue, ◌>>=◌}
use nest_quickfix.World.Store.{note, update-same}
use nest_quickfix.Session.Sending.{write, answer}
use nest_quickfix.Session.Local.{answer-Touches}
use nest_quickfix.Session.Success.{accepts}
use nest_quickfix.Acceptor.Refusal.{
  destroy, write_plain, create_logout_message, send_logout_and_close,
}

logout-Has_type : (v : Value) → Has (logout_message v) msg_type
unfolding logout_message nest_quickfix.Message.new_message nest_quickfix.Message.set_fields
    has_field nest_quickfix.OrderedMap.has nest_quickfix.OrderedMap.set set_field
logout-Has_type v = elim (Bool-cases (truthy v)) [ inl e ↦ rw e refl | inr e ↦ rw e refl ]

-- The logout of a refusal has every field that printing asks for.
logout_required :
    (version : Text) (m : Message) (reason : Text) (w : World)
    → All (Has (create_logout_message version m reason w)) required_fields
unfolding create_logout_message
logout_required version m reason w = (
  simp field_laws,
  (
    simp (field_laws, logout-Has_type),
    (simp field_laws, (simp field_laws, (simp field_laws, (simp field_laws, tt)))),
  ),
)

-- Whether the socket takes the next text.
abbrev pub takes : World → ℕ → Bool
takes w k = (w.sockets k).writable && accepts (w.sockets k).answers

-- `destroy`
destroy-Touches : (k : ℕ) (w : World) → Touches k w (destroy k w).1
unfolding destroy ◌>>=◌ note
destroy-Touches k w = Touches-put k (record (w.sockets k) { writable = false }) _ w

log-destroy : (k : ℕ) (w : World) → (destroy k w).1.log ≡ w.log ++ destroyed k ∷ []
unfolding destroy ◌>>=◌ note
log-destroy k w = refl

writable-destroy : (k : ℕ) (w : World) → ((destroy k w).1.sockets k).writable ≡ false
unfolding destroy ◌>>=◌ note
writable-destroy k w =
    ap (λ s. s.writable) (update-same w.sockets k (record (w.sockets k) { writable = false }))

-- `write_plain`
log-answer :
    (k : ℕ) (raw : Text) (answers : List (Option Error)) (w : World)
    → (answer k raw answers w).1.log ≡ w.log ++ (if accepts answers then written k raw ∷ [] else [])
unfolding answer note
log-answer k raw [] w = refl
log-answer k raw (none ∷ answers) w = refl
log-answer k raw (some e ∷ answers) w = sym (append-nil w.log)

-- A `try` that catches everything leaves the world as its body does.
world-catch : (x : Result (Unit {0}) × World) → handle x (λ e. pure tt) ≡ (ok tt, x.1)
unfolding pure
world-catch (ok x, w) = refl
world-catch (err e, w) = refl

write_plain_open :
    (k : ℕ) (raw : Text) (w : World)
    → (w.sockets k).writable ≡ true
    → write_plain k raw w ≡ (ok tt, (write k raw w).1)
unfolding write_plain ◌>>=◌
write_plain_open k raw w h = rw h (world-catch (write k raw w))

write_plain_shut :
    (k : ℕ) (raw : Text) (w : World)
    → (w.sockets k).writable ≡ false
    → write_plain k raw w ≡ (ok tt, w)
unfolding write_plain ◌>>=◌
write_plain_shut k raw w h = rw h refl

-- What `write_plain` leaves.
abbrev IsWritten : ℕ → Text → World → Result (Unit {0}) × World → Type 0
IsWritten k raw w (r, u) =
    (r ≡ ok tt) × Touches k w u × (u.log ≡ w.log ++ (if takes w k then written k raw ∷ [] else []))

write_plain-IsWritten : (k : ℕ) (raw : Text) (w : World) → IsWritten k raw w (write_plain k raw w)
unfolding write
write_plain-IsWritten k raw w = elim (Bool-cases (w.sockets k).writable) [
  | inl h ↦ rw (write_plain_open k raw w h) (
    refl,
    answer-Touches k raw (w.sockets k).answers w,
    log-answer k raw (w.sockets k).answers w ∙ ap with_text (sym h),
  )
  | inr h ↦
      rw (write_plain_shut k raw w h)
        (refl, Touches-refl k w, sym (append-nil w.log) ∙ ap with_text (sym h))
]
  where
    with_text : Bool → List Event
    with_text b = w.log ++ (if b && accepts (w.sockets k).answers then written k raw ∷ [] else [])

-- The text that a refused peer is sent.
abbrev pub refusal : Text → Message → Text → World → Text
refusal version m reason w = print (create_logout_message version m reason w)

-- What a refusal leaves: the text was written if the socket took it, the socket is destroyed, and
-- nothing else of the world has changed, so that no session, no registration and no room has.
pub record IsRefused (version : Text) (k : ℕ) (m : Message) (reason : Text) (w u : World)
    : Type 0 where
  pub only : Touches k w u
  pub shut : (u.sockets k).writable ≡ false
  pub logged :
      u.log
      ≡ w.log
        ++ ((if takes w k then written k (refusal version m reason w) ∷ [] else [])
            ++ destroyed k ∷ [])

send_logout_and_close_lem :
    (version : Text) (k : ℕ) (m : Message) (reason : Text) (w : World)
    → send_logout_and_close version k m reason w
      ≡ continue (write_plain k (refusal version m reason w) w) (λ x. destroy k)
unfolding send_logout_and_close ◌>>=◌
send_logout_and_close_lem version k m reason w =
    rw
      (to_string_lem (create_logout_message version m reason w)
        (logout_required version m reason w))
      refl

IsRefused-after :
    (version : Text) (k : ℕ) (m : Message) (reason : Text) (w : World)
    (x : Result (Unit {0}) × World)
    → IsWritten k (refusal version m reason w) w x
    → ((continue x (λ y. destroy k)).0 ≡ ok tt)
      × IsRefused version k m reason w (continue x (λ y. destroy k)).1
unfolding ◌>>=◌ note
IsRefused-after version k m reason w (ok y, v) (r, touches, logged) = (
  unfold destroy in refl,
  record {
    only = Touches-trans k w v (destroy k v).1 touches (destroy-Touches k v);
    shut = writable-destroy k v;
    logged =
        log-destroy k v
        ∙ ap (λ l. l ++ destroyed k ∷ []) logged
        ∙ append_assoc w.log _ (destroyed k ∷ []);
  },
)
IsRefused-after version k m reason w (err e, v) (r, touches, logged) = cc

-- `sendLogoutAndClose` never throws.
pub send_logout_and_close-IsRefused :
    (version : Text) (k : ℕ) (m : Message) (reason : Text) (w : World)
    → ((send_logout_and_close version k m reason w).0 ≡ ok tt)
      × IsRefused version k m reason w (send_logout_and_close version k m reason w).1
send_logout_and_close-IsRefused version k m reason w =
    rw (send_logout_and_close_lem version k m reason w) (
      IsRefused-after version k m reason w (write_plain k (refusal version m reason w) w)
        (write_plain-IsWritten k (refusal version m reason w) w))
