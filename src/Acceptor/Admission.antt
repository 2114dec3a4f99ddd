-- ===== src/Acceptor/Admission.antt =====
-- Who is let in, and who is refused.
use nest_quickfix.Prelude.{
  ℕ, ◌≡◌, refl, sym, ap, ◌↔◌, Bool, true, false, not, Option, none, some, List, arith, All,
  Bool-cases, inl, inr, if◌then◌else◌,
}
use nest_quickfix.Text.{Text, text, text_Eq}
use nest_quickfix.Result.{Result, ok, err, message_of}
use nest_quickfix.Fields.{account, sender_comp_id, target_comp_id}
use nest_quickfix.Message.{Message, string, strict_equal, get_field, require_fields}
use nest_quickfix.Message.Laws.{Has, require_fields-eq-ok_iff}
use nest_quickfix.World.{World}
use nest_quickfix.World.Exec.{Exec, pure, lift, continue, handle, ◌>>=◌}
use nest_quickfix.Session.{App, handle_message}
use nest_quickfix.Manager.{get_session_from_logon}
use nest_quickfix.Metadata.{FixMetadata}
use nest_quickfix.Acceptor.Guard.{
  Auth, AcceptorConfig, Verdict, valid, invalid, includes_id, logon_fields, validate_logon_fields,
  validate_authentication, authenticate, validate_logon,
}
use nest_quickfix.Acceptor.Refusal.{send_logout_and_close}
use nest_quickfix.Acceptor.Handler.{or_invalid, handle_non_logon_message}

-- Why a validation keeps a peer out, if it does.
abbrev pub reason_of : Result Verdict → Option Text
reason_of (ok v) = if v.is_valid then none else some (or_invalid v.message)
reason_of (err e) = some (message_of e)

-- What an application that authenticates has answered, from the first call to the second.
abbrev pub Authenticates : Option Auth → Message → World → World → Type 0
Authenticates none m w u = u ≡ w
Authenticates (some auth) m w u =
    (v : World) × (allowed : List Text) × (auth.validate_credentials m w ≡ (ok true, v))
    × (auth.get_allowed_sender_comp_ids (get_field m account) v ≡ (ok allowed, u))
    × (includes_id allowed (get_field m sender_comp_id) ≡ true)

-- What a logon must have.
abbrev pub IsAdmissible : AcceptorConfig → Message → World → World → Type 0
IsAdmissible config m w u =
    All (Has m) logon_fields
    × (strict_equal (get_field m target_comp_id) (string config.target_comp_id) ≡ true)
    × Authenticates config.auth m w u

listed :
    (x : Result (List Text) × World) (m : Message) (u : World)
    → continue x (λ allowed. pure (
        if includes_id allowed (get_field m sender_comp_id)
        then valid
        else invalid (text "Invalid sender comp ID")))
      ≡ (ok valid, u)
    → (allowed : List Text) × (x ≡ (ok allowed, u))
      × (includes_id allowed (get_field m sender_comp_id) ≡ true)
unfolding pure
listed (ok allowed, v) m u e =
    elim (Bool-cases (includes_id allowed (get_field m sender_comp_id))) [
      | inl b ↦ (allowed, ground arith, b)
      | inr b ↦ absurd (ground arith)
    ]
listed (err x, v) m u e = absurd (cc)

authenticated :
    (auth : Auth) (m : Message) (x : Result Bool × World) (u : World)
    → continue x (λ is_valid.
      if not is_valid then pure (invalid (text "Invalid credentials")) else do
        allowed ← auth.get_allowed_sender_comp_ids (get_field m account)
        pure (
            if includes_id allowed (get_field m sender_comp_id)
            then valid
            else invalid (text "Invalid sender comp ID")))
      ≡ (ok valid, u)
    → (v : World) × (allowed : List Text) × (x ≡ (ok true, v))
      × (auth.get_allowed_sender_comp_ids (get_field m account) v ≡ (ok allowed, u))
      × (includes_id allowed (get_field m sender_comp_id) ≡ true)
unfolding pure ◌>>=◌
authenticated auth m (ok true, v) u e =
    let (allowed, given, included) =
      listed (auth.get_allowed_sender_comp_ids (get_field m account) v) m u e in
    (v, allowed, refl, given, included)
authenticated auth m (ok false, v) u e = absurd (ground arith)
authenticated auth m (err x, v) u e = absurd (cc)

authenticate-eq-valid :
    (auth : Option Auth) (m : Message) (w u : World)
    → (authenticate auth m w ≡ (ok valid, u)) ↔ Authenticates auth m w u
unfolding authenticate validate_authentication ◌>>=◌ pure
authenticate-eq-valid none m w u =
    (λ e. ap (λ x. x.1) (sym e), λ e. ap (λ x. (ok valid, x)) (sym e))
authenticate-eq-valid (some auth) m w u = (
  authenticated auth m (auth.validate_credentials m w) u,
  λ (v, allowed, credentials, ids, included). rw (credentials, ids, included) refl,
)

gate :
    (r : Result (Unit {0})) (b : Bool) (a : Exec World Verdict) (w u : World)
    → ((lift r >>= λ x. if not b then pure (invalid (text "Invalid TargetCompID")) else a) w
        ≡ (ok valid, u))
      ↔ ((r ≡ ok tt) × (b ≡ true) × (a w ≡ (ok valid, u)))
unfolding ◌>>=◌ lift pure
gate (ok x) true a w u = (λ e. (refl, refl, e), λ p. p.2)
gate (ok x) false a w u = (λ e. absurd (ground arith), λ p. absurd (ground arith))
gate (err e) b a w u = (λ e. absurd (cc), λ p. absurd (cc))

pub validate_logon-eq-valid :
    (config : AcceptorConfig) (m : Message) (w u : World)
    → (validate_logon config m w ≡ (ok valid, u)) ↔ IsAdmissible config m w u
unfolding validate_logon validate_logon_fields ◌>>=◌
validate_logon-eq-valid config m w u =
    let (forth, back) =
      gate (require_fields logon_fields m)
        (strict_equal (get_field m target_comp_id) (string config.target_comp_id))
        (authenticate config.auth m) w u in
    let (fields_forth, fields_back) = require_fields-eq-ok_iff logon_fields m in
    let (auth_forth, auth_back) = authenticate-eq-valid config.auth m w u in
    (
      λ e. let (r, b, a) = forth e in (fields_forth r, b, auth_forth a),
      λ (r, b, a). back (fields_back r, b, auth_back a),
    )

-- The end of a refusal inside the `try`.
abbrev answered : Exec World (Unit {0}) → Exec World Bool
answered refuse = refuse >>= λ x. pure false

module _ (version : Text) (k : ℕ) (m : Message) where
  abbrev refuse : Text → Exec World (Unit {0})
  refuse reason = send_logout_and_close version k m reason

  -- What is left when a verdict is known.
  abbrev verdict_answered : Result Verdict × World → Result Bool × World
  verdict_answered x =
      handle
        (continue x (λ verdict.
          if verdict.is_valid then pure true else answered (refuse (or_invalid verdict.message))))
        (λ e. answered (refuse (message_of e)))

-- A message is handed to the session of the parties that it names, whichever socket it came over:
-- the socket that the session logged on with is not asked for.
pub handle_non_logon_message-eq-handle_message :
    (app : App) (config : AcceptorConfig) (metadata : List FixMetadata) (k r : ℕ) (m : Message)
    (w : World)
    → get_session_from_logon m w ≡ some r
    → handle_non_logon_message app config metadata k m w ≡ handle_message app r m w
unfolding handle_non_logon_message ◌>>=◌
handle_non_logon_message-eq-handle_message app config metadata k r m w h = rw h refl
